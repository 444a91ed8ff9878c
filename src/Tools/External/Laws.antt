-- ===== src/Tools/External/Laws.antt =====
-- The sandbox of an external tool, and the shape of its result.
use jig_mcp.Prelude.{
  Bool, Str, lit, Map, Option, none, some, List, true, false, ◌≡◌, refl, ap, ◌==◌, lookup,
}
use jig_mcp.Prelude.Result.{Result, ok, err}
use jig_mcp.Value.{Value, entries-fields, as_list, as_maps, as_object, assert_at}
use jig_mcp.Config.{ToolConfig}
use jig_mcp.Tools.Runtime.{Command, Runtime, Ran, not_started, ended}
use jig_mcp.Tools.Base.{error_result, text_result}
use jig_mcp.Tools.External.{
  Program, wrap_item, content_error, checked, checked_content, or_error, normalize_object, decoded,
  handle_program, normalize, ran_result, program, handle,
}

-- A result of a tool call as MCP wants it: an object with a list of content.
pub data IsCallResult (v : Value) : Type 0 where
  with_list :
      (m : Map Value) (vs : List Value)
      → as_object v ≡ some m
      → assert_at as_list (lit "content") m ≡ some vs
      → IsCallResult v
  with_maps :
      (m : Map Value) (os : List (Map Value))
      → as_object v ≡ some m
      → assert_at as_maps (lit "content") m ≡ some os
      → IsCallResult v

pub error_result-IsCallResult : (e : Str) → IsCallResult (error_result e)
unfolding error_result lookup ◌==◌
error_result-IsCallResult e = with_maps _ _ refl refl

pub text_result-IsCallResult : (t : Str) → IsCallResult (text_result t)
unfolding text_result lookup ◌==◌
text_result-IsCallResult t = with_maps _ _ refl refl

module _ (rt : Runtime) where
  checked_content-IsCallResult :
      (resp : Map Value) (content : Option (List Value))
      → assert_at as_list (lit "content") resp ≡ content
      → IsCallResult (checked_content rt resp content)
  checked_content-IsCallResult resp none e = text_result-IsCallResult _
  checked_content-IsCallResult resp (some vs) e = by_error (content_error rt vs)
    where
      by_error : (o : Option Str) → IsCallResult (or_error rt resp o)
      by_error none = with_list resp vs (ap some (entries-fields resp)) e
      by_error (some bad) = error_result-IsCallResult bad

  -- A call result, or what a process printed as JSON that is no object.
  pub data Shape (v : Value) : Type 0 where
    call_result : IsCallResult v → Shape v
    printed :
        (c : Command) (out : Str) (late : Bool)
        → rt.run c ≡ ended out none late
        → rt.unmarshal out ≡ ok v
        → as_object v ≡ none
        → Shape v

  normalize-IsCallResult :
      (v : Value) (resp : Map Value) → IsCallResult (normalize_object rt v (some resp))
  unfolding checked
  normalize-IsCallResult v resp = checked_content-IsCallResult (wrap_item resp) _ refl

  module _ (config : ToolConfig) where
    decoded-Shape :
        (c : Command) (out : Str) (late : Bool) (r : Result Value)
        → rt.run c ≡ ended out none late
        → rt.unmarshal out ≡ r
        → Shape (decoded rt out r)
    unfolding normalize
    decoded-Shape c out late (err e) f g = call_result (text_result-IsCallResult out)
    decoded-Shape c out late (ok v) f g = by_kind (as_object v) refl
      where
        by_kind : (o : Option (Map Value)) → as_object v ≡ o → Shape (normalize_object rt v o)
        by_kind none h = printed c out late f g h
        by_kind (some resp) h = call_result (normalize-IsCallResult v resp)

    ran_result-Shape : (c : Command) (r : Ran) → rt.run c ≡ r → Shape (ran_result rt config r)
    unfolding ran_result
    ran_result-Shape c (not_started e) f = call_result (error_result-IsCallResult _)
    ran_result-Shape c (ended out (some e) true) f = call_result (error_result-IsCallResult _)
    ran_result-Shape c (ended out (some e) false) f = call_result (error_result-IsCallResult _)
    ran_result-Shape c (ended out none late) f = decoded-Shape c out late (rt.unmarshal out) f refl

    handle_program-Shape : (r : Result Program) → Shape (handle_program rt config r).1
    handle_program-Shape (err e) = call_result (error_result-IsCallResult e)
    handle_program-Shape (ok p) = ran_result-Shape _ _ refl

    -- Whatever the configuration, the arguments and the outcome of the process, the result is an object with
    -- a list of content; only where the process succeeds and prints JSON that is no object, this value is
    -- returned as it is.
    pub handle-Shape : (args : Map Value) → Shape (handle rt config args).1
    unfolding handle
    handle-Shape args = handle_program-Shape (program rt config args)
