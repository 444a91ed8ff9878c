-- ===== src/Server/Calls/Tests.antt =====
-- Two calls that overlap: one whose tool answers, and one whose tool panics.
use jig_mcp.Prelude.{◌≤◌, lit, [], ◌∷◌, ◌++◌, true, refl, ◌==◌, lookup, here, next, All, arith}
use jig_mcp.Value.{text}
use jig_mcp.Auth.Caller.{background}
use jig_mcp.Tools.Base.{error_result}
use jig_mcp.Tools.Sample.{sample}
use jig_mcp.Tools.Registry.{get_tool_by_name, run_tool}
use jig_mcp.Server.Call.{Params}
use jig_mcp.Server.Sample.{echo, crash, server, clock, decode}
use jig_mcp.Server.Calls.{
  Value, Asked, entered, holding, handled, leaving, returned, Calls, entry_of, enter, look_up,
  take_slot, handle, log, count, give_back, Reach, no_calls,
}
use jig_mcp.Server.Calls.Alone.{idle_world, one_by_one}
use jig_mcp.Server.Slots
use jig_mcp.Server.Slots.{empty_pool}
use jig_mcp.Server.Calls.Pool.{pool_of, pool_of-Reach}
use jig_mcp.Server.Calls.Serial.{is_returned, SameWork, HasResult, calls_serialize}

abbrev asks_echo : Asked
asks_echo = record { rt = sample; ctx = background; raw = lit "echo"; clock = clock }

abbrev asks_crash : Asked
asks_crash = record { rt = sample; ctx = background; raw = lit "crash"; clock = clock }

abbrev for_echo : Params
for_echo = record { name = lit "echo"; arguments = [] }

abbrev for_crash : Params
for_crash = record { name = lit "crash"; arguments = [] }

abbrev panicked : Value
panicked =
    error_result (lit "internal error: tool " ++ (sample.quote (lit "crash") ++ lit " panicked"))

abbrev end : Calls
end = record {
  world = record idle_world {
    audit_log = entry_of server decode asks_echo for_echo echo (text (lit "hi")) ∷ [];
    metrics = (lit "echo", 3) ∷ [];
  };
  calls = returned asks_echo true (text (lit "hi")) ∷ returned asks_crash true panicked ∷ [];
}

overlaps : Reach server decode (no_calls idle_world) end
unfolding run_tool get_tool_by_name lookup ◌==◌
overlaps =
    next
      (next
        (next
          (next
            (next
              (next
                (next
                  (next
                    (next
                      (next (next (next here (enter asks_echo)) (enter asks_crash))
                        (look_up [] (entered asks_crash ∷ []) asks_echo refl))
                      (take_slot [] (entered asks_crash ∷ []) asks_echo for_echo echo refl
                        (omega arith)))
                    (look_up (holding asks_echo for_echo echo ∷ []) [] asks_crash refl))
                  (take_slot (holding asks_echo for_echo echo ∷ []) [] asks_crash for_crash crash
                    refl (omega arith)))
                (handle (holding asks_echo for_echo echo ∷ []) [] asks_crash for_crash crash refl))
              (handle [] (leaving asks_crash panicked ∷ []) asks_echo for_echo echo refl))
            (give_back (handled asks_echo for_echo echo (text (lit "hi")) ∷ []) [] asks_crash
              panicked refl))
          (log [] (returned asks_crash true panicked ∷ []) asks_echo for_echo echo (text (lit "hi"))
            refl))
        (count [] (returned asks_crash true panicked ∷ []) asks_echo for_echo echo (text (lit "hi"))
          refl))
      (give_back [] (returned asks_crash true panicked ∷ []) asks_echo (text (lit "hi")) refl)

calls_serialize_example :
    SameWork end.world (one_by_one server decode end.calls idle_world)
    × All (HasResult server decode) end.calls
calls_serialize_example =
    calls_serialize server decode idle_world overlaps
      (is_returned asks_echo true (text (lit "hi")), (is_returned asks_crash true panicked, tt))

pool_of-Reach_example :
    Slots.Reach (empty_pool 8) (pool_of server decode refl end) × (end.world.in_use ≤ 8)
pool_of-Reach_example = pool_of-Reach server decode refl idle_world refl overlaps
