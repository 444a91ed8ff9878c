-- ===== src/Stdio/Callers.antt =====
-- Who the calls over stdio are logged as, and the id of a response.
use jig_mcp.Prelude.{run_keeps, List, Str, lit, Bool, if_has, ◌==◌, ◌≡◌, refl}
use jig_mcp.Prelude.Result.{Result}
use jig_mcp.Auth.Caller.{Context, caller_from, with_caller}
use jig_mcp.Tools.Runtime.{Runtime}
use jig_mcp.Server.Call.{Server, World, Clock, Params}
use jig_mcp.Server.Caller.{OnlyCaller, process_request-OnlyCaller}
use jig_mcp.Server.{Request, Response, process_request}
use jig_mcp.Stdio.{
  Stdio, Step, read, ignore, accept, respond, write, give_up, Reach, started, stdio_ctx,
}

module _ (rt : Runtime) (s : Server) (clock : Clock) (params_of : Str → Result Params) where
  -- ProcessRequest with the outcome of the wait for a slot.
  abbrev pub run_request : Bool → Context → Request → World → World × Response
  run_request acquired = process_request rt s clock params_of acquired

  -- The response has the id of the request, whatever the method.
  pub process_request-id :
      (acquired : Bool) (ctx : Context) (req : Request) (w : World)
      → (run_request acquired ctx req w).1.id ≡ req.id
  unfolding process_request
  process_request-id acquired ctx req w = if_has SameId (req.method == lit "initialize") refl (
      if_has SameId (req.method == lit "tools/list") refl (
        if_has SameId (req.method == lit "tools/call") refl
          (if_has SameId (req.method == lit "ping") refl refl)))
    where
      SameId : World × Response → Type 0
      SameId r = r.1.id ≡ req.id

  module _ (decode : Str → Result Request) (encode : Response → Result Str) where
    Step-OnlyCaller :
        {a b : Stdio}
        → Step run_request decode encode a b
        → OnlyCaller (lit "local") a.world
        → OnlyCaller (lit "local") b.world
    unfolding stdio_ctx with_caller caller_from
    Step-OnlyCaller (read line rest e) h = h
    Step-OnlyCaller (ignore before after line e dropped) h = h
    Step-OnlyCaller (accept before after line req e taken) h = h
    Step-OnlyCaller {a} (respond before after req acquired e) h =
        process_request-OnlyCaller rt s clock params_of acquired stdio_ctx req a.world h
    Step-OnlyCaller (write before after resp out e encoded) h = h
    Step-OnlyCaller (give_up before after resp reason e encoded) h = h

    -- However the goroutines interleave: if every entry of the audit log has the caller "local" when the
    -- loop starts, then so it is at any later time.
    pub Reach-OnlyCaller :
        (input : List Str) (w : World) {t : Stdio}
        → Reach run_request decode encode (started input w) t
        → OnlyCaller (lit "local") w
        → OnlyCaller (lit "local") t.world
    unfolding started
    Reach-OnlyCaller input w r h =
        run_keeps (λ t. OnlyCaller (lit "local") t.world) (λ t u st k. Step-OnlyCaller st k) r h
