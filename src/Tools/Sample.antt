-- ===== src/Tools/Sample.antt =====
-- A runtime of concrete functions, for the tests.
use jig_mcp.Prelude.{Str, lit, [], ◌++◌, none, some, true, false, ◌==◌, if◌then◌else◌}
use jig_mcp.Prelude.Int.{pos}
use jig_mcp.Prelude.Result.{ok, err}
use jig_mcp.Config.{ToolConfig}
use jig_mcp.Tools.Runtime.{Runtime, ended}

-- Every process prints "done" and succeeds; every request is answered 200.
abbrev pub sample : Runtime
sample = record {
  run = λ c. ended (lit "done") none false;
  send = λ c. ok (record { status = 200; header = []; body = ok (lit "body") });
  new_request = λ m u. none;
  canonical = λ k. k;
  expand_env =
      λ s. if s == lit "${API}" then lit "https://api/" else if s == lit "${OPT}" then [] else s;
  goos = lit "linux";
  found_in_path = λ s. true;
  Url = Str;
  parse_url = λ s. ok s;
  query = λ u. [];
  url_text = λ u q. u;
  parse_duration = λ s. if s == lit "5s" then some (pos 5000000000) else none;
  duration_text = λ d. lit "30s";
  quote = λ s. lit "\"" ++ (s ++ lit "\"");
  decimal = λ n. lit "0";
  sprint = λ v. lit "v";
  marshal = λ v. ok (lit "{}");
  marshal_indent = λ v. lit "{}";
  unmarshal = λ s. err (lit "no JSON");
  base64_error = λ s. if s == lit "AAAA" then none else some (lit "illegal base64");
}

abbrev pub blank_config : ToolConfig
blank_config = record {
  name = lit "t";
  description = lit "a tool";
  input_schema = none;
  platforms = none;
  http = none;
  timeout = [];
  max_memory_mb = pos 0;
  max_cpu_percent = pos 0;
  sandbox = none;
  terminal = none;
}
