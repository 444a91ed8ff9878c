-- ===== src/Stdio/Answers.antt =====
-- Every request is answered once.
use jig_mcp.Prelude.{
  run_keeps, sum_by, sum_by-append, sum_by-snoc, sum_by-middle, sum_by_of_eq, ℕ, ◌+◌, Str, Option,
  none, some, List, [], Bool, if◌then◌else◌, ◌≡◌, refl, ap, ◌∙◌, arith,
}
use jig_mcp.Prelude.Result.{Result}
use jig_mcp.Auth.Caller.{Context}
use jig_mcp.Server.Call.{World}
use jig_mcp.Server.{Request, Response}
use jig_mcp.Stdio.{
  Worker, Stdio, queued, serving, answered, accepted, Step, read, ignore, accept, respond, write,
  give_up, Reach, started, IsDone, stdio_ctx,
}

-- One for an id of which `p` holds; `none` is no request.
abbrev pub id_weight : (Option Str → Bool) → Response → ℕ
id_weight p r = if p r.id then 1 else 0

abbrev pub request_weight : (Option Str → Bool) → Option Request → ℕ
request_weight p none = 0
request_weight p (some req) = if p req.id then 1 else 0

module _ (process : Bool → Context → Request → World → World × Response)
    (decode : Str → Result Request) (encode : Response → Result Str) (p : Option Str → Bool) where
  abbrev pub line_weight : Str → ℕ
  line_weight line = request_weight p (accepted process decode encode line)

  abbrev worker_weight : Worker → ℕ
  worker_weight (queued line) = line_weight line
  worker_weight (serving req) = request_weight p (some req)
  worker_weight (answered resp) = id_weight p resp

  -- What is still to come and what came.
  total : Stdio → ℕ
  total s =
      sum_by line_weight s.input
      + sum_by worker_weight s.workers
      + sum_by (id_weight p) s.written
      + sum_by (id_weight p) s.failed

  module _
      (keeps_id : (acquired : Bool) (ctx : Context) (req : Request) (w : World)
        → (process acquired ctx req w).1.id ≡ req.id) where
    Step-total : {s t : Stdio} → Step process decode encode s t → total t ≡ total s
    unfolding total sum_by
    Step-total {s} (read line rest e) = omega (
      arith,
      sum_by_of_eq line_weight s.input [] line rest e,
      sum_by-snoc worker_weight s.workers (queued line),
    )
    Step-total {s} (ignore before after line e dropped) = omega (
      arith,
      sum_by_of_eq worker_weight s.workers before (queued line) after e,
      sum_by-append worker_weight before after,
      ap (request_weight p) dropped,
    )
    Step-total {s} (accept before after line req e taken) = omega (
      arith,
      sum_by_of_eq worker_weight s.workers before (queued line) after e,
      sum_by-middle worker_weight before (serving req) after,
      ap (request_weight p) taken,
    )
    Step-total {s} (respond before after req acquired e) =
        let same : id_weight p (process acquired stdio_ctx req s.world).1
            ≡ request_weight p (some req) =
          rw (keeps_id acquired stdio_ctx req s.world) refl in
        omega (
          arith,
          same,
          sum_by_of_eq worker_weight s.workers before (serving req) after e,
          sum_by-middle worker_weight before (answered (process acquired stdio_ctx req s.world).1)
              after,
        )
    Step-total {s} (write before after resp out e encoded) = omega (
      arith,
      sum_by_of_eq worker_weight s.workers before (answered resp) after e,
      sum_by-append worker_weight before after,
      sum_by-snoc (id_weight p) s.written resp,
    )
    Step-total {s} (give_up before after resp reason e encoded) = omega (
      arith,
      sum_by_of_eq worker_weight s.workers before (answered resp) after e,
      sum_by-append worker_weight before after,
      sum_by-snoc (id_weight p) s.failed resp,
    )

    -- However the goroutines interleave: when the loop has ended and every goroutine has returned, there are
    -- as many responses with an id, whatever set of ids is looked at, as requests with such an id among the
    -- lines; each is on stdout, or was given up since it could not be encoded. Notifications and lines that
    -- do not decode have none.
    pub answers_lem :
        (input : List Str) (w : World) {t : Stdio}
        → Reach process decode encode (started input w) t
        → IsDone t
        → sum_by (id_weight p) t.written + sum_by (id_weight p) t.failed ≡ sum_by line_weight input
    unfolding started total sum_by
    answers_lem input w {t} r done = omega (
      arith,
      run_keeps (λ u. total u ≡ total (started input w)) (λ t u st e. Step-total st ∙ e) r refl,
      ap (sum_by line_weight) done.at_end,
      ap (sum_by worker_weight) done.all_returned,
    )
