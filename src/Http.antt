-- ===== src/Http.antt =====
-- What the handlers read of net/http: a request, and the reply that a handler writes.
use jig_mcp.Prelude.{ℕ, Str, Map, Option}
use jig_mcp.Auth.Caller.{Context}

-- `authorization` is r.Header.Get("Authorization") and `query` the first value of each parameter of
-- the URL; a missing one reads as "".
pub record HttpRequest : Type 0 where
  pub method : Str
  pub authorization : Str
  pub query : Str → Str
  pub remote_addr : Str
  pub body : Str
  pub ctx : Context

-- The status code, the headers that the handler set, and the body that it wrote. What http.Error adds, a
-- Content-Type and a line feed after the text, is left out.
pub record HttpReply : Type 0 where
  pub status : ℕ
  pub header : Map Str
  pub body : Str

-- An http.Server as far as the program sets it up, with its timeouts in seconds; `none` is no limit.
pub record HttpServer : Type 0 where
  pub addr : Str
  pub read_header_timeout : ℕ
  pub read_timeout : ℕ
  pub write_timeout : Option ℕ
  pub idle_timeout : ℕ
