-- ===== src/Stdio/Tests.antt =====
-- One request and one broken line.
use jig_mcp.Prelude.{here, next, ◌==◌, lit, [], ◌∷◌, true, refl}
use jig_mcp.Tools.Sample.{sample}
use jig_mcp.Server.Caller.{OnlyCaller}
use jig_mcp.Stdio.{
  Stdio, queued, serving, Reach, read, ignore, accept, respond, write, started, stdio_ctx,
}
use jig_mcp.Stdio.Sample.{
  server, clock, params_of, world, ping, decode, encode, input, run, response,
}
use jig_mcp.Stdio.Callers.{Reach-OnlyCaller}

-- The second line is read before the first is answered.
abbrev last : Stdio
last = record {
  input = [];
  workers = [];
  world = (run true stdio_ctx ping world).0;
  written = response ∷ [];
  failed = [];
}

all_served : Reach run decode encode (started input world) last
unfolding started ◌==◌
all_served =
    next
      (next
        (next
          (next (next (next here (read (lit "ping") ([] ∷ []) refl)) (read [] [] refl))
            (accept [] (queued [] ∷ []) (lit "ping") ping refl refl))
          (ignore (serving ping ∷ []) [] [] refl refl))
        (respond [] [] ping true refl))
      (write [] [] response (lit "{}") refl refl)

Reach-OnlyCaller_example : OnlyCaller (lit "local") last.world
Reach-OnlyCaller_example =
    Reach-OnlyCaller sample server clock params_of decode encode input world all_served tt
