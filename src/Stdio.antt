-- ===== src/Stdio.antt =====
-- runStdioServer of cmd/jig-mcp/main.go: the reading loop, and a goroutine for each line, in any
-- interleaving. `requestWg` counts the workers, `inflightTools` those that are past the test for a
-- notification. The mutex makes the write of a line one step, and ProcessRequest is
-- one step too. The steps of a tool call are in Server/Calls.
pub mod Answers
pub mod Progress
pub mod Callers
pub mod Sample
mod Tests
use jig_mcp.Prelude.{
  Run, run_keeps, ℕ, ◌+◌, Str, lit, Option, none, some, List, [], ◌∷◌, ◌++◌, Bool, true, false, ◌≡◌,
}
use jig_mcp.Prelude.Result.{Result, ok, err}
use jig_mcp.Auth.Caller.{Context, CallerIdentity, background, with_caller}
use jig_mcp.Server.Call.{World}
use jig_mcp.Server.{Request, Response}
use jig_mcp.Sse.{is_notification}

-- A goroutine that has not returned: with its line, in ProcessRequest, or with the response.
pub data Worker : Type 0 where
  queued : Str → Worker
  serving : Request → Worker
  answered : Response → Worker

-- The lines that Scan has still to give, and the responses written to stdout and those that could not be
-- encoded.
pub record Stdio : Type 0 where
  pub input : List Str
  pub workers : List Worker
  pub world : World
  pub written : List Response
  pub failed : List Response

-- stdioCtx of main.
unfoldable pub stdio_ctx : Context
stdio_ctx = with_caller background (record { name = lit "local"; transport = lit "stdio" })

-- What the goroutine makes of its line: `none` is its early return.
abbrev pub of_request : Request → Option Request
of_request req = elim (is_notification req.id) [ true ↦ none | false ↦ some req ]

abbrev pub of_decoded : Result Request → Option Request
of_decoded (err e) = none
of_decoded (ok req) = of_request req

-- `process` is ProcessRequest with the outcome of the wait for a slot, `decode` and `encode` are
-- json.Unmarshal and json.Marshal.
module _ (process : Bool → Context → Request → World → World × Response)
    (decode : Str → Result Request) (encode : Response → Result Str) where
  abbrev pub accepted : Str → Option Request
  accepted line = of_decoded (decode line)

  pub data Step (s : Stdio) : Stdio → Type 0 where
    read :
        (line : Str) (rest : List Str)
        → s.input ≡ line ∷ rest
        → Step s (record s { input = rest; workers = s.workers ++ (queued line ∷ []) })
    ignore :
        (before after : List Worker) (line : Str)
        → s.workers ≡ before ++ (queued line ∷ after)
        → accepted line ≡ none
        → Step s (record s { workers = before ++ after })
    accept :
        (before after : List Worker) (line : Str) (req : Request)
        → s.workers ≡ before ++ (queued line ∷ after)
        → accepted line ≡ some req
        → Step s (record s { workers = before ++ (serving req ∷ after) })
    respond :
        (before after : List Worker) (req : Request) (acquired : Bool)
        → s.workers ≡ before ++ (serving req ∷ after)
        → Step s (record s {
          workers = before ++ (answered (process acquired stdio_ctx req s.world).1 ∷ after);
          world = (process acquired stdio_ctx req s.world).0;
        })
    write :
        (before after : List Worker) (resp : Response) (out : Str)
        → s.workers ≡ before ++ (answered resp ∷ after)
        → encode resp ≡ ok out
        → Step s (record s { workers = before ++ after; written = s.written ++ (resp ∷ []) })
    give_up :
        (before after : List Worker) (resp : Response) (e : Str)
        → s.workers ≡ before ++ (answered resp ∷ after)
        → encode resp ≡ err e
        → Step s (record s { workers = before ++ after; failed = s.failed ++ (resp ∷ []) })

  abbrev pub Reach : Stdio → Stdio → Type 0
  Reach = Run Step

  -- The bytes on stdout: a line for each response.
  abbrev pub line_of : Result Str → Str
  line_of (ok out) = out ++ lit "\n"
  line_of (err e) = []

  unfoldable pub stdout : List Response → Str
  stdout [] = []
  stdout (r ∷ rs) = line_of (encode r) ++ stdout rs

unfoldable pub started : List Str → World → Stdio
started input world = record {
  input = input;
  workers = [];
  world = world;
  written = [];
  failed = [];
}

-- The loop has ended and requestWg.Wait returns.
pub record IsDone (s : Stdio) : Type 0 where
  pub at_end : s.input ≡ []
  pub all_returned : s.workers ≡ []
