-- ===== src/Audit/Writer.antt =====
-- The audit writer of internal/audit/audit.go: its settings, Init, write, rotate, warnOnce, Close and
-- GetLogDir, over the files of every log directory. The mutex makes each operation one step.
pub mod Trail
pub mod History
use jig_mcp.Prelude.{
  ℕ, zero, suc, ◌*◌, ◌%◌, ◌^◌, ◌-◌, ◌≤◌, Str, lit, Option, none, some, Bool, true, false, not, ◌&&◌,
  ◌||◌, List, [], ◌∷◌, ◌++◌, if◌then◌else◌, ◌==◌, contains, length, ltb, leb,
}
use jig_mcp.Prelude.Int.{ℤ, pos, negsuc, leb_ℤ}
use jig_mcp.Prelude.Result.{Result, ok, err, ◌>>=◌}
use jig_mcp.Audit.Files.{Files, update, or_empty, open_append, append, rotate_names}

-- An *os.File or *os.Root: nil, closed, or open.
pub data Handle : Type 0 where
  nil closed opened : Handle

pub record Writer : Type 0 where
  pub file : Handle
  pub root : Handle
  pub log_dir : Str
  -- the time of the last warning, in seconds
  pub warn_last : Option ℕ

abbrev pub Disk : Type 0
Disk = Str → Files

pub record World : Type 0 where
  pub writer : Writer
  pub disk : Disk

-- Which of the calls of the operating system succeed: os.MkdirAll, os.OpenRoot, root.OpenFile, the
-- OpenFile of rotate, and file.Write.
pub record Outcomes : Type 0 where
  pub mkdir : Bool
  pub open_root : Bool
  pub open_file : Bool
  pub reopen_file : Bool
  pub write_file : Bool

-- The environment variables, filepath.Clean, and strconv.ParseInt and ParseUint.
pub record Settings : Type 0 where
  pub getenv : Str → Str
  pub clean : Str → Str
  pub parse_int : Str → Result ℤ
  pub parse_perms : Str → Result ℕ

abbrev pub wrap_int64 : ℕ → ℤ
wrap_int64 n = let m = n % 2 ^ 64 in if ltb m (2 ^ 63) then pos m else negsuc (2 ^ 64 - m - 1)

abbrev size_setting : Result ℤ → ℤ
size_setting (ok (pos (suc n))) = wrap_int64 (suc n * 1024 * 1024)
size_setting _ = pos (50 * 1024 * 1024)

abbrev files_setting : Result ℤ → ℕ
files_setting (ok (pos (suc n))) = suc n
files_setting _ = 3

abbrev perms_setting : Result ℕ → ℕ
perms_setting (ok p) = p
perms_setting (err e) = 0o640

abbrev plain_error {ℓ} : {A : Type ℓ} → Str → Str → Result A → Result (Unit {0})
plain_error v what (ok a) = ok tt
plain_error v what (err e) = if v == [] then ok tt else err (what ++ e)

module _ (s : Settings) where
  unfoldable pub log_max_size_bytes : ℤ
  log_max_size_bytes =
      let v = s.getenv (lit "JIG_LOG_MAX_SIZE_MB") in
      if v == [] then pos (50 * 1024 * 1024) else size_setting (s.parse_int v)

  unfoldable pub log_max_files : ℕ
  log_max_files =
      let v = s.getenv (lit "JIG_LOG_MAX_FILES") in
      if v == [] then 3 else files_setting (s.parse_int v)

  unfoldable pub log_file_perms : ℕ
  log_file_perms =
      let v = s.getenv (lit "JIG_LOG_FILE_PERMS") in
      if v == [] then 0o640 else perms_setting (s.parse_perms v)

  unfoldable pub configured_dir : Str
  configured_dir =
      let v = s.getenv (lit "JIG_LOG_DIR") in s.clean (if v == [] then lit "logs" else v)

  unfoldable pub get_log_dir : Writer → Str
  get_log_dir w = if w.log_dir == [] then configured_dir else w.log_dir

  -- Each setting that is given must parse.
  unfoldable pub check_settings : Result (Unit {0})
  check_settings = do
    size ←
        plain_error (s.getenv (lit "JIG_LOG_MAX_SIZE_MB")) (lit "invalid JIG_LOG_MAX_SIZE_MB: ")
          (s.parse_int (s.getenv (lit "JIG_LOG_MAX_SIZE_MB")))
    files ←
        plain_error (s.getenv (lit "JIG_LOG_MAX_FILES")) (lit "invalid JIG_LOG_MAX_FILES: ")
          (s.parse_int (s.getenv (lit "JIG_LOG_MAX_FILES")))
    plain_error (s.getenv (lit "JIG_LOG_FILE_PERMS")) (lit "invalid JIG_LOG_FILE_PERMS: ")
        (s.parse_perms (s.getenv (lit "JIG_LOG_FILE_PERMS")))

abbrev pub set_files : Disk → Str → Files → Disk
set_files disk dir fs d = if d == dir then fs else disk d

abbrev pub close_handle : Handle → Handle
close_handle nil = nil
close_handle closed = closed
close_handle opened = closed

abbrev pub is_opened : Handle → Bool
is_opened opened = true
is_opened _ = false

abbrev pub is_nil : Handle → Bool
is_nil nil = true
is_nil _ = false

-- Opening the file of a directory after the old one, if any, was closed. On failure nothing else of the
-- writer is changed.
abbrev pub open_dir : Outcomes → Str → World → Option World
open_dir io dir world =
    if io.mkdir && io.open_root && io.open_file
    then some (record {
      writer = record world.writer { file = opened; root = opened; log_dir = dir };
      disk = set_files world.disk dir (open_append 0 (world.disk dir));
    })
    else none

abbrev pub closed_world : World → World
closed_world world = record world {
  writer = record world.writer {
    file = close_handle world.writer.file;
    root = close_handle world.writer.root;
  };
}

unfoldable pub rotate : Outcomes → ℕ → World → World
rotate io max_files world =
    let w = world.writer in
    let fs = rotate_names max_files (world.disk w.log_dir) in
    let no_file : World = record world { writer = record w { file = nil } } in
    if not (is_opened w.root)
    then no_file
    else if io.reopen_file
    then record {
      writer = record w { file = opened };
      disk = set_files world.disk w.log_dir (open_append 0 fs);
    }
    else record { writer = record w { file = nil }; disk = set_files world.disk w.log_dir fs }

-- At most one warning a minute.
abbrev recently : ℕ → Option ℕ → Bool
recently now none = false
recently now (some t) = ltb (now - t) 60

unfoldable pub warn_once : ℕ → Writer → Writer
warn_once now w = if recently now w.warn_last then w else record w { warn_last = some now }

-- The size test on an open file, and the write of the line.
abbrev pub is_full : ℤ → Str → Bool
is_full max_size content = leb_ℤ max_size (pos (length content))

unfoldable pub rotate_if_full : Outcomes → ℤ → ℕ → World → World
rotate_if_full io max_size max_files world =
    let content = or_empty (world.disk world.writer.log_dir 0) in
    if is_opened world.writer.file && is_full max_size content
    then rotate io max_files world
    else world

unfoldable pub write_line : Outcomes → ℕ → Str → World → World
write_line io now line world =
    let w = world.writer in
    if is_opened w.file && io.write_file
    then record world {
      disk = set_files world.disk w.log_dir (append 0 line (world.disk w.log_dir));
    }
    else record world { writer = warn_once now w }

abbrev pub written : Outcomes → ℤ → ℕ → ℕ → Str → World → Option World → World
written io max_size max_files now line failed none = failed
written io max_size max_files now line failed (some world) =
    write_line io now line (rotate_if_full io max_size max_files world)

unfoldable pub write : Settings → Outcomes → ℕ → Str → World → World
write s io now line world =
    let dir = configured_dir s in
    let w = world.writer in
    let ready =
      if is_nil w.file || not (w.log_dir == dir)
      then open_dir io dir (closed_world world)
      else some world in
    if contains dir (lit "..")
    then world
    else written io (log_max_size_bytes s) (log_max_files s) now line (closed_world world) ready

-- The end of Record, with what json.Marshal makes of the entry.
abbrev pub record_line : Settings → Outcomes → ℕ → Result Str → World → World
record_line s io now (err e) world = world
record_line s io now (ok encoded) world = write s io now (encoded ++ lit "\n") world

-- Init opens the file of the configured directory. A path that is a file is one on which OpenRoot fails.
unfoldable pub init : Settings → Outcomes → World → Option World
init s io world = elim (check_settings s) [
  | err e ↦ none
  | ok u ↦
      if contains (configured_dir s) (lit "..") then none else open_dir io (configured_dir s) world
]

unfoldable pub close : World → World
close world = record world { writer = record world.writer { file = nil; root = nil; log_dir = [] } }
