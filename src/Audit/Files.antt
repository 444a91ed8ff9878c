-- ===== src/Audit/Files.antt =====
-- The files of one log directory, and their rotation by internal/audit/audit.go. File 0 is audit.jsonl
-- and file n, from 1, is audit.jsonl.n. Remove and Rename fail on a missing file and on nothing else.
pub mod Rotation
use jig_mcp.Prelude.{
  ℕ, zero, suc, ◌-◌, Str, Option, none, some, [], ◌++◌, Bool, true, false, eqb, if◌then◌else◌,
}

abbrev pub Files : Type 0
Files = ℕ → Option Str

abbrev pub update : Files → ℕ → Option Str → Files
update fs n content m = if eqb m n then content else fs m

unfoldable pub remove : ℕ → Files → Files
remove n fs = update fs n none

abbrev pub moved : ℕ → ℕ → Files → Option Str → Files
moved src dst fs none = fs
moved src dst fs (some content) = update (update fs src none) dst (some content)

unfoldable pub rename : ℕ → ℕ → Files → Files
rename src dst fs = moved src dst fs (fs src)

-- The loop from i = n down to 1 that renames i to i + 1.
unfoldable pub shift : ℕ → Files → Files
shift zero fs = fs
shift (suc i) fs = shift i (rename (suc i) (suc (suc i)) fs)

abbrev pub or_empty : Option Str → Str
or_empty none = []
or_empty (some s) = s

-- OpenFile with O_APPEND|O_CREATE: what is there is kept.
unfoldable pub open_append : ℕ → Files → Files
open_append n fs = update fs n (some (or_empty (fs n)))

unfoldable pub append : ℕ → Str → Files → Files
append n line fs = update fs n (some (or_empty (fs n) ++ line))

-- The files after the renames of rotate, for the given number of rotated files.
unfoldable pub rotate_names : ℕ → Files → Files
rotate_names max_files fs = rename 0 1 (shift (max_files - 1) (remove max_files fs))
