-- ===== src/Audit/Writer/Trail.antt =====
-- No line of the audit log is lost but those of the oldest rotated file.
use jig_mcp.Prelude.{
  ◌⊎◌, ◌==◌, ◌||◌, not, ℕ, zero, suc, ◌-◌, ◌≤◌, ◌<◌, Str, lit, Option, true, false, ◌++◌, eqb,
  if◌then◌else◌, eq_refl, append-nil, append_assoc, ◌≡◌, refl, sym, ◌∙◌, ap, arith, Bool-cases, inl,
  inr,
}
use jig_mcp.Prelude.Int.{ℤ}
use jig_mcp.Prelude.Result.{Result}
use jig_mcp.Audit.Files.{Files, or_empty, open_append, append, rotate_names}
use jig_mcp.Audit.Files.Rotation.{IsRotated, rotate_names-IsRotated}
use jig_mcp.Audit.Writer.{
  is_nil, log_max_size_bytes, configured_dir, contains, write, opened, World, Outcomes, Settings,
  Disk, set_files, is_full, log_max_files, rotate, rotate_if_full, write_line, files_setting,
}

-- The lines that are kept, oldest first: those of the rotated files n down to 1 and of audit.jsonl.
unfoldable pub trail : ℕ → Files → Str
trail zero fs = or_empty (fs 0)
trail (suc n) fs = or_empty (fs (suc n)) ++ trail n fs

eqb-suc_zero : (n : ℕ) → eqb (suc n) 0 ≡ false
eqb-suc_zero n = ground arith

trail-append : (n : ℕ) (line : Str) (fs : Files) → trail n (append 0 line fs) ≡ trail n fs ++ line
unfolding trail append
trail-append zero line fs = refl
trail-append (suc n) line fs = rw (eqb-suc_zero n) (
    ap (λ (t : Str). or_empty (fs (suc n)) ++ t) (trail-append n line fs)
    ∙ sym (append_assoc (or_empty (fs (suc n))) (trail n fs) line))

trail-open : (n : ℕ) (fs : Files) → trail n (open_append 0 fs) ≡ trail n fs
unfolding trail open_append
trail-open zero fs = refl
trail-open (suc n) fs =
    rw (eqb-suc_zero n) (ap (λ (t : Str). or_empty (fs (suc n)) ++ t) (trail-open n fs))

trail-rotated :
    (n max : ℕ) (fs after : Files)
    → suc n ≤ max
    → IsRotated max fs after
    → trail (suc n) after ≡ trail n fs
unfolding trail
trail-rotated zero max fs after h r = rw (r.moves 0 h) (rw r.vacates (append-nil (or_empty (fs 0))))
trail-rotated (suc n) max fs after h r =
    rw (r.moves (suc n) h)
      (ap (λ (t : Str). or_empty (fs (suc n)) ++ t) (trail-rotated n max fs after (omega arith) r))

trail-rotate :
    (max : ℕ) (fs : Files) → 0 < max → trail max (rotate_names max fs) ≡ trail (max - 1) fs
trail-rotate zero fs h = absurd (omega arith)
trail-rotate (suc n) fs h =
    let e : suc n - 1 ≡ n = omega arith in
    rw e (
      trail-rotated n (suc n) fs (rotate_names (suc n) fs) (omega arith)
        (rotate_names-IsRotated (suc n) fs h))

-- Every call of the operating system succeeds.
abbrev pub all_succeed : Outcomes
all_succeed = record {
  mkdir = true;
  open_root = true;
  open_file = true;
  reopen_file = true;
  write_file = true;
}

-- The number of kept rotated files after a line is written over the content: one less if it is full.
abbrev pub kept : ℤ → ℕ → Str → ℕ
kept max_size max_files content = if is_full max_size content then max_files - 1 else max_files

-- The writer has its file open, in the directory.
pub record IsOpenIn (dir : Str) (world : World) : Type 0 where
  pub file : world.writer.file ≡ opened
  pub root : world.writer.root ≡ opened
  pub log_dir : world.writer.log_dir ≡ dir

abbrev open_world : Str → Option ℕ → Disk → World
open_world dir warn disk = record {
  writer = record { file = opened; root = opened; log_dir = dir; warn_last = warn };
  disk = disk;
}

eq-open_world :
    (dir : Str) (world : World)
    → IsOpenIn dir world
    → world ≡ open_world dir world.writer.warn_last world.disk
eq-open_world dir world h = λ i. record {
  writer = record {
    file = h.file i;
    root = h.root i;
    log_dir = h.log_dir i;
    warn_last = world.writer.warn_last;
  };
  disk = world.disk;
}

files_setting_pos : (r : Result ℤ) → 0 < files_setting r
files_setting_pos r = ground arith

pub log_max_files_pos : (s : Settings) → 0 < log_max_files s
unfolding log_max_files
log_max_files_pos s =
    ground (arith, files_setting_pos (s.parse_int (s.getenv (lit "JIG_LOG_MAX_FILES"))))

set_files_same : (disk : Disk) (dir : Str) (fs : Files) → set_files disk dir fs dir ≡ fs
set_files_same disk dir fs = rw (eq_refl dir)

-- What a write does to an open writer: it stays open, and the line follows what is kept.
pub record Wrote (max_size : ℤ) (max : ℕ) (dir line : Str) (disk : Disk) (after : World)
    : Type 0 where
  pub open_after : IsOpenIn dir after
  pub trail_after :
      trail max (after.disk dir)
      ≡ trail (kept max_size max (or_empty (disk dir 0))) (disk dir) ++ line

write_line-trail :
    (now max : ℕ) (line dir : Str) (warn : Option ℕ) (disk : Disk)
    → IsOpenIn dir (write_line all_succeed now line (open_world dir warn disk))
      × (trail max ((write_line all_succeed now line (open_world dir warn disk)).disk dir)
          ≡ trail max (disk dir) ++ line)
unfolding write_line
write_line-trail now max line dir warn disk = (
  record { file = refl; root = refl; log_dir = refl },
  rw (set_files_same disk dir (append 0 line (disk dir))) (trail-append max line (disk dir)),
)

module _ (max_size : ℤ) (max now : ℕ) (line dir : Str) (positive : 0 < max) where
  full_lines :
      (disk : Disk)
      → trail max (open_append 0 (rotate_names max (disk dir))) ≡ trail (max - 1) (disk dir)
  full_lines disk = trail-open max _ ∙ trail-rotate max (disk dir) positive

  write_open :
      (warn : Option ℕ) (disk : Disk)
      → Wrote max_size max dir line disk (
          write_line all_succeed now line
            (rotate_if_full all_succeed max_size max (open_world dir warn disk)))
  unfolding rotate_if_full rotate
  write_open warn disk = elim (Bool-cases (is_full max_size (or_empty (disk dir 0)))) [
    | inl full ↦
        let disk' = set_files disk dir (open_append 0 (rotate_names max (disk dir))) in
        let (stays, lines) = write_line-trail now max line dir warn disk' in
        rw full (record {
          open_after = stays;
          trail_after =
              lines
              ∙ ap (λ (t : Str). t ++ line)
                  (ap (trail max) (set_files_same disk dir _) ∙ full_lines disk ∙ rw full);
        })
    | inr room ↦
        let (stays, lines) = write_line-trail now max line dir warn disk in
        rw room (record { open_after = stays; trail_after = rw room lines })
  ]

  write_reopened :
      (warn : Option ℕ) (disk : Disk)
      → Wrote max_size max dir line disk (
          write_line all_succeed now line (
            rotate_if_full all_succeed max_size max
              (open_world dir warn (set_files disk dir (open_append 0 (disk dir))))))
  write_reopened warn disk =
      let disk' = set_files disk dir (open_append 0 (disk dir)) in
      let wrote = write_open warn disk' in
      let here : disk' dir ≡ open_append 0 (disk dir) = set_files_same disk dir _ in
      record {
        open_after = wrote.open_after;
        trail_after =
            wrote.trail_after
            ∙ ap (λ (fs : Files). trail (kept max_size max (or_empty (fs 0))) fs ++ line) here
            ∙ same_content (disk dir);
      }
    where
      same_content :
          (fs : Files)
          → trail (kept max_size max (or_empty (open_append 0 fs 0))) (open_append 0 fs) ++ line
            ≡ trail (kept max_size max (or_empty (fs 0))) fs ++ line
      same_content fs = unfold open_append in ap (λ (t : Str). t ++ line) (trail-open _ fs)

-- The file is opened or reopened by the write, or it is open in the directory already.
abbrev pub CanOpen : Str → World → Type 0
CanOpen dir world =
    ((is_nil world.writer.file || not (world.writer.log_dir == dir)) ≡ true) ⊎ IsOpenIn dir world

-- With a log directory without "..", a writer whose file is not open yet, open for another directory or
-- open in this one, and an operating system on which every call succeeds: after a write the file is open
-- in the configured directory, and the log there, read from the oldest rotated file to the current one,
-- is what it was followed by the line; only if the current file had reached its limit of size are the
-- lines of the oldest of the rotated files gone.
pub write-Wrote :
    (s : Settings) (now : ℕ) (line : Str) (world : World)
    → contains (configured_dir s) (lit "..") ≡ false
    → CanOpen (configured_dir s) world
    → Wrote
        (log_max_size_bytes s)
        (log_max_files s)
        (configured_dir s)
        line
        world.disk
        (write s all_succeed now line world)
unfolding write
write-Wrote s now line world plain (inl reopens) =
    rw (plain, reopens)
      (write_reopened (log_max_size_bytes s) (log_max_files s) now line (configured_dir s)
        (log_max_files_pos s) world.writer.warn_last world.disk)
write-Wrote s now line world plain (inr open_already) =
    rw (eq-open_world (configured_dir s) world open_already) (
      rw (plain, eq_refl (configured_dir s))
        (write_open (log_max_size_bytes s) (log_max_files s) now line (configured_dir s)
          (log_max_files_pos s) world.writer.warn_last world.disk))
