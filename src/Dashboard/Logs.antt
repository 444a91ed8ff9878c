-- ===== src/Dashboard/Logs.antt =====
-- The recent entries of internal/dashboard/dashboard.go: auditLine and getAuditLogs.
pub mod Laws
use jig_mcp.Prelude.{
  ℕ, ◌-◌, ◌*◌, Str, lit, Map, Option, none, some, List, [], ◌∷◌, Bool, true, false, if◌then◌else◌,
  contains, length, take, drop, ltb, less, sort_by,
}
use jig_mcp.Prelude.Result.{Result, ok, err}
use jig_mcp.Value.{Value}

-- The duration is an int64, kept as its value modulo 2 ^ 64. A missing error is "".
pub record AuditLine : Type 0 where
  pub timestamp : Str
  pub tool : Str
  pub arguments : Map Value
  pub duration_ms : ℕ
  pub success : Bool
  pub error : Str

-- What opening a directory or a file gives: os.IsNotExist holds of the first.
pub data Access : Type 0 where
  missing : Access
  refused : Str → Access
  granted : Access

-- The log directory as os.OpenRoot and root.Open find it, the errors of Stat and Seek, and the bytes of
-- audit.jsonl.
pub record LogFile : Type 0 where
  pub root : Access
  pub file : Access
  pub stat_error : Option Str
  pub seek_error : Option Str
  pub content : Str

abbrev pub tail_size : ℕ
tail_size = 64 * 1024

-- `fileSize - tailSize`, and 0 if that is negative.
unfoldable pub seek_pos : Str → ℕ
seek_pos content = length content - tail_size

abbrev pub keep_decoded : Result AuditLine → List AuditLine → List AuditLine
keep_decoded (err e) ls = ls
keep_decoded (ok l) ls = l ∷ ls

abbrev pub newest_first : AuditLine → AuditLine → Bool
newest_first a b = less b.timestamp a.timestamp

-- `scan` is a bufio.Scanner over the bytes, `decode` is json.Unmarshal of a line.
module _ (scan : Str → List Str) (decode : Str → Result AuditLine) where
  unfoldable pub decode_lines : List Str → List AuditLine
  decode_lines [] = []
  decode_lines (l ∷ ls) = keep_decoded (decode l) (decode_lines ls)

  -- The lines of the tail; the first one is skipped if the tail may start within it.
  unfoldable pub tail_lines : Str → List Str
  tail_lines content =
      let lines = scan (drop (seek_pos content) content) in
      if ltb 0 (seek_pos content) then drop 1 lines else lines

  abbrev pub recent : ℕ → List AuditLine → List AuditLine
  recent limit lines =
      let sorted = sort_by newest_first lines in
      if ltb limit (length sorted) then take limit sorted else sorted

  abbrev pub from_seek : ℕ → Str → Option Str → Result (List AuditLine)
  from_seek limit content (some e) = err e
  from_seek limit content none = ok (recent limit (decode_lines (tail_lines content)))

  abbrev pub from_stat : ℕ → LogFile → Option Str → Result (List AuditLine)
  from_stat limit log (some e) = err e
  from_stat limit log none = from_seek limit log.content log.seek_error

  abbrev pub from_file : ℕ → LogFile → Access → Result (List AuditLine)
  from_file limit log missing = ok []
  from_file limit log (refused e) = err e
  from_file limit log granted = from_stat limit log log.stat_error

  abbrev pub from_root : ℕ → LogFile → Access → Result (List AuditLine)
  from_root limit log missing = ok []
  from_root limit log (refused e) = err e
  from_root limit log granted = from_file limit log log.file

  unfoldable pub get_audit_logs : ℕ → Str → LogFile → Result (List AuditLine)
  get_audit_logs limit log_dir log =
      if contains log_dir (lit "..")
      then err (lit "invalid argument")
      else from_root limit log log.root
