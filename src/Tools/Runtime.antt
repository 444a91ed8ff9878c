-- ===== src/Tools/Runtime.antt =====
-- What the tools call outside this repository: processes, the network, the environment, and the
-- formatting and decoding packages. Every function is a parameter without laws. A Runtime is what the
-- outside answers during one call: in Server/Calls each call has its own, so that equal commands of two calls
-- can come out differently.
use jig_mcp.Prelude.{ℕ, Str, Map, Bool, List, Option}
use jig_mcp.Prelude.Int.{ℤ}
use jig_mcp.Prelude.Result.{Result}
use jig_mcp.Value.{Value}
use jig_mcp.Rlimit.{ResourceLimits}

-- A process to run: exec.CommandContext with rlimit.StartWithLimits.
pub record Command : Type 0 where
  pub executable : Str
  pub args : List Str
  -- in nanoseconds
  pub timeout : ℕ
  pub limits : ResourceLimits
  pub timeout_sec : ℕ

-- What became of it: it did not start, or it ended with this output, this error of cmd.Wait, and the
-- context past its deadline or not.
pub data Ran : Type 0 where
  not_started : Str → Ran
  ended : Str → Option Str → Bool → Ran

-- An HTTP request as it goes out, and the answer: the status, the headers, and the body up to the limit
-- or the error of reading it.
pub record HttpCall : Type 0 where
  pub method : Str
  pub url : Str
  pub header : Map Str
  pub body : Option Str
  pub timeout : ℕ

pub record HttpAnswer : Type 0 where
  pub status : ℕ
  pub header : List (Str × List Str)
  pub body : Result Str

pub record Runtime : Type 1 where
  pub run : Command → Ran
  pub send : HttpCall → Result HttpAnswer
  -- http.NewRequestWithContext fails on a malformed method or URL
  pub new_request : Str → Str → Option Str
  -- the canonical form of a header's name, which http.Header.Set stores
  pub canonical : Str → Str
  -- os.ExpandEnv, runtime.GOOS, exec.LookPath
  pub expand_env : Str → Str
  pub goos : Str
  pub found_in_path : Str → Bool
  -- url.Parse, u.Query(), and u.String() with a new RawQuery
  pub Url : Type 0
  pub parse_url : Str → Result Url
  pub query : Url → Map (List Str)
  pub url_text : Url → Map (List Str) → Str
  -- time.ParseDuration, in nanoseconds, and the text of a duration
  pub parse_duration : Str → Option ℤ
  pub duration_text : ℕ → Str
  -- %q, %d, and fmt.Sprint
  pub quote : Str → Str
  pub decimal : ℕ → Str
  pub sprint : Value → Str
  -- encoding/json and encoding/base64
  pub marshal : Value → Result Str
  pub marshal_indent : Value → Str
  pub unmarshal : Str → Result Value
  pub base64_error : Str → Option Str
