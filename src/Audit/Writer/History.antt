-- ===== src/Audit/Writer/History.antt =====
-- The audit log over any sequence of records and closings.
use jig_mcp.Prelude.{
  ℕ, zero, suc, if◌then◌else◌, ◌-◌, ◌<◌, Str, lit, List, [], ◌∷◌, ◌++◌, false, append_assoc,
  append-nil, contains, ◌≡◌, refl, sym, ap, ◌∙◌, inl, inr, Bool-cases, arith,
}
use jig_mcp.Prelude.Int.{ℤ}
use jig_mcp.Prelude.Result.{Result, ok, err}
use jig_mcp.Audit.Files.{Files, or_empty}
use jig_mcp.Audit.Writer.{
  record_line, World, Settings, is_full, log_max_size_bytes, log_max_files, configured_dir, write,
  Outcomes, close,
}
use jig_mcp.Audit.Writer.Trail.{trail, kept, CanOpen, all_succeed, write-Wrote, log_max_files_pos}

-- The end of a Record at a time, with which calls of the operating system succeed in it and what
-- json.Marshal makes of the entry, or Close.
pub data Op : Type 0 where
  recorded : Outcomes → ℕ → Result Str → Op
  closing : Op

unfoldable pub run_ops : Settings → List Op → World → World
run_ops s [] w = w
run_ops s (recorded io now r ∷ ops) w = run_ops s ops (record_line s io now r w)
run_ops s (closing ∷ ops) w = run_ops s ops (close w)

-- The line of an entry, if it can be encoded.
abbrev pub line_text : Result Str → Str
line_text (err e) = []
line_text (ok encoded) = encoded ++ lit "\n"

-- The lines of the operations, in their order.
unfoldable pub text_of : List Op → Str
text_of [] = []
text_of (recorded io now r ∷ ops) = line_text r ++ text_of ops
text_of (closing ∷ ops) = text_of ops

-- In each record every call of the operating system succeeds.
unfoldable pub AllSucceed : List Op → Type 0
AllSucceed [] = Unit
AllSucceed (recorded io now r ∷ ops) = (io ≡ all_succeed) × AllSucceed ops
AllSucceed (closing ∷ ops) = AllSucceed ops

-- What a write over the files drops: the oldest rotated file, if the current one has reached the limit.
abbrev pub oldest_if_full : ℤ → ℕ → Files → Str
oldest_if_full max_size max fs =
    if is_full max_size (or_empty (fs 0)) then or_empty (fs max) else []

abbrev pub dropped_by : Settings → Result Str → World → Str
dropped_by s (err e) w = []
dropped_by s (ok encoded) w =
    oldest_if_full (log_max_size_bytes s) (log_max_files s) (w.disk (configured_dir s))

-- What the operations drop, in the order in which they drop it.
unfoldable pub dropped : Settings → List Op → World → Str
dropped s [] w = []
dropped s (recorded io now r ∷ ops) w = dropped_by s r w ++ dropped s ops (record_line s io now r w)
dropped s (closing ∷ ops) w = dropped s ops (close w)

trail-kept :
    (max_size : ℤ) (max : ℕ) (fs : Files)
    → 0 < max
    → trail max fs
      ≡ oldest_if_full max_size max fs ++ trail (kept max_size max (or_empty (fs 0))) fs
unfolding trail
trail-kept max_size zero fs h = absurd (omega arith)
trail-kept max_size (suc n) fs h = elim (Bool-cases (is_full max_size (or_empty (fs 0)))) [
  | inl full ↦ let e : suc n - 1 ≡ n = omega arith in rw full (rw e refl)
  | inr room ↦ rw room refl
]

-- The bytes of the log, oldest file first.
abbrev pub log_of : Settings → World → Str
log_of s w = trail (log_max_files s) (w.disk (configured_dir s))

module _ (s : Settings) (plain : contains (configured_dir s) (lit "..") ≡ false) where
  write-log :
      (now : ℕ) (text : Str) (w : World)
      → CanOpen (configured_dir s) w
      → log_of s w ++ text
        ≡ oldest_if_full (log_max_size_bytes s) (log_max_files s) (w.disk (configured_dir s))
          ++ log_of s (write s all_succeed now text w)
  write-log now text w ready =
      let wrote = write-Wrote s now text w plain ready in
      let fs = w.disk (configured_dir s) in
      let lost = oldest_if_full (log_max_size_bytes s) (log_max_files s) fs in
      let rest = trail (kept (log_max_size_bytes s) (log_max_files s) (or_empty (fs 0))) fs in
      ap (λ (t : Str). t ++ text)
        (trail-kept (log_max_size_bytes s) (log_max_files s) fs (log_max_files_pos s))
      ∙ append_assoc lost rest text
      ∙ ap (λ (t : Str). lost ++ t) (sym wrote.trail_after)

  record_line-log :
      (now : ℕ) (r : Result Str) (w : World)
      → CanOpen (configured_dir s) w
      → (log_of s w ++ line_text r
          ≡ dropped_by s r w ++ log_of s (record_line s all_succeed now r w))
        × CanOpen (configured_dir s) (record_line s all_succeed now r w)
  record_line-log now (err e) w ready = (append-nil (log_of s w), ready)
  record_line-log now (ok encoded) w ready = (
    write-log now (line_text (ok encoded)) w ready,
    inr (write-Wrote s now (line_text (ok encoded)) w plain ready).open_after,
  )

  -- Over any sequence of records, at any times, and closings, also of records after a closing, in a
  -- directory without "..", from a writer that has its file open there or opens it at the next record, and
  -- as long as every call of the operating system succeeds: what the log held, followed by a line for each
  -- entry that could be encoded, in this order, is what rotation has dropped followed by what the log holds
  -- now. Rotation drops the oldest rotated file, and only at an entry that finds the current file at the
  -- limit of its size.
  pub run_ops-log :
      (ops : List Op) (w : World)
      → AllSucceed ops
      → CanOpen (configured_dir s) w
      → log_of s w ++ text_of ops ≡ dropped s ops w ++ log_of s (run_ops s ops w)
  unfolding run_ops text_of close AllSucceed dropped
  run_ops-log [] w good ready = append-nil (log_of s w)
  run_ops-log (recorded io now r ∷ ops) w (succeeds, good) ready = rw succeeds (
      let after = record_line s all_succeed now r w in
      let (e, still) = record_line-log now r w ready in
      let lost = dropped_by s r w in
      sym (append_assoc (log_of s w) (line_text r) (text_of ops))
      ∙ ap (λ (t : Str). t ++ text_of ops) e
      ∙ append_assoc lost (log_of s after) (text_of ops)
      ∙ ap (λ (t : Str). lost ++ t) (run_ops-log ops after good still)
      ∙ sym (append_assoc lost (dropped s ops after) (log_of s (run_ops s ops after))))
  run_ops-log (closing ∷ ops) w good ready = run_ops-log ops (close w) good (inl refl)
