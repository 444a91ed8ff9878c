-- ===== src/Auth/Caller.antt =====
-- internal/auth/auth.go: CallerIdentity and its place in a context.
use jig_mcp.Prelude.{Str, lit, [], Option, none, some}

pub record CallerIdentity : Type 0 where
  pub name : Str
  pub transport : Str

-- What the program reads of a context.Context: the value under `callerKey`.
pub record Context : Type 0 where
  pub caller : Option CallerIdentity

abbrev pub background : Context
background = record { caller = none }

unfoldable pub with_caller : Context → CallerIdentity → Context
with_caller ctx id = record ctx { caller = some id }

unfoldable pub caller_from : Context → CallerIdentity
caller_from ctx = elim ctx.caller [
  | some id ↦ id
  | none ↦ record { name = lit "unknown"; transport = [] }
]
