-- ===== src/Server.antt =====
-- internal/server/request.go: requests, responses, ProcessRequest and HandleToolCall. What a call does
-- is a function of the world; calls in any interleaving are in Server/Calls, and their slots alone in
-- Server/Slots.
pub mod Sort
pub mod Call
pub mod Slots
pub mod Calls
pub mod Laws
pub mod Outcomes
pub mod Private
pub mod Caller
pub mod Listing
pub mod Sample
mod Tests
use jig_mcp.Prelude.{
  Bool, ℕ, ◌+◌, ◌*◌, ◌^◌, Str, lit, Map, Option, none, some, List, [], ◌∷◌, ◌++◌, map,
  if◌then◌else◌, ◌==◌,
}
use jig_mcp.Auth.Caller.{Context}
use jig_mcp.Tools.Runtime.{Runtime}
use jig_mcp.Tools.Base.{ToolDef}
use jig_mcp.Tools.Registry.{Tool, Registry, get_tools, tool_definition}
use jig_mcp.Server.Sort.{sort_by_name}
use jig_mcp.Server.Call.{Server, World, Clock, handle_tool_call, Params}
use jig_mcp.Prelude.Result.{Result}
use jig_mcp.Value.{Value}

-- The id is the raw JSON text; `none` is a request without one.
pub record Request : Type 0 where
  pub id : Option Str
  pub method : Str
  pub params : Str

pub data Outcome : Type 0 where
  initialized : Str → Outcome
  tools_list : List ToolDef → Outcome
  called : Value → Outcome
  pong : Outcome
  -- error code -32601
  method_not_found : Str → Outcome

pub record Response : Type 0 where
  pub id : Option Str
  pub outcome : Outcome

abbrev pub definitions : Map Tool → List ToolDef
definitions m = map (λ e. tool_definition e.1) m

unfoldable pub list_tools : Registry → List ToolDef
list_tools r = sort_by_name (definitions (get_tools r))

module _ (rt : Runtime) (s : Server) (clock : Clock) (decode : Str → Result Params)
    (acquired : Bool) where
  abbrev pub respond : Option Str → World × Value → World × Response
  respond id (w, v) = (w, record { id = id; outcome = called v })

  unfoldable pub process_request : Context → Request → World → World × Response
  process_request ctx req w =
      let call = respond req.id (handle_tool_call rt s clock decode acquired ctx req.params w) in
      if req.method == lit "initialize"
      then (w, record { id = req.id; outcome = initialized s.version })
      else if req.method == lit "tools/list"
      then (w, record { id = req.id; outcome = tools_list (list_tools s.registry) })
      else if req.method == lit "tools/call"
      then call
      else if req.method == lit "ping"
      then (w, record { id = req.id; outcome = pong })
      else (w, record { id = req.id; outcome = method_not_found req.method })
