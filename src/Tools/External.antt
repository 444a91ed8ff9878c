-- ===== src/Tools/External.antt =====
-- internal/tools/external.go: ExternalTool.Handle, in three parts: the process to run, the shape of what
-- it printed, and the whole, which returns the commands that it ran and its result.
pub mod Laws
pub mod Images
pub mod Sandbox
mod Tests
use jig_mcp.Prelude.{
  ℕ, ◌/◌, ◌^◌, Str, lit, Map, Option, none, some, List, [], ◌∷◌, ◌++◌, Bool, true, false, ◌||◌,
  ◌&&◌, not, if◌then◌else◌, ◌==◌, lookup, to_lower,
}
use jig_mcp.Prelude.Result.{Result, ok, err, ◌>>=◌}
use jig_mcp.Value.{
  Value, text, list, object, fields, entries, singleton, as_text, as_list, as_object, assert_at,
  text_at,
}
use jig_mcp.Config.{ToolConfig, PlatformConfig, SandboxConfig}
use jig_mcp.Rlimit.{effective_limits}
use jig_mcp.Tools.Runtime.{Runtime, Command, Ran, not_started, ended}
use jig_mcp.Tools.Base.{effective_timeout, default_global_timeout, error_result, text_result}

abbrev pub Program : Type 0
Program = Str × List Str

-- Whether the type of a lone content item is one that is wrapped.
unfoldable pub is_content_type : Str → Bool
is_content_type t = t == lit "text" || t == lit "image" || t == lit "resource"

-- m[key] with its ok value.
unfoldable pub has_key : Str → Map Value → Bool
has_key key m = elim (lookup key m) [ none ↦ false | some v ↦ true ]

-- Case 1: a content item on its own becomes the only content.
unfoldable pub wrap_item : Map Value → Map Value
wrap_item resp = elim (assert_at as_text (lit "type") resp) [
  | none ↦ resp
  | some t ↦
      if not (has_key (lit "content") resp) && is_content_type t
      then (lit "content", list (singleton (object (fields resp)))) ∷ []
      else resp
]

abbrev pub first_error : Option Str → Option Str → Option Str
first_error (some e) rest = some e
first_error none rest = rest

module _ (rt : Runtime) where
  -- The sandbox: `err` is the text of the error result. An unknown type changes nothing.
  unfoldable pub sandboxed : Option SandboxConfig → Str → List Str → Result Program
  sandboxed none executable args = ok (executable, args)
  sandboxed (some sandbox) executable args =
      let kind = to_lower sandbox.type in
      if kind == lit "docker"
      then if not (rt.found_in_path (lit "docker"))
        then err (lit "docker sandbox requested but docker command not found in PATH")
        else if sandbox.image == []
        then err (lit "docker sandbox requested but no image specified")
        else ok (lit "docker", lit "run" ∷ lit "--rm" ∷ sandbox.image ∷ executable ∷ args)
      else if kind == lit "wasm"
      then err (lit "wasm sandbox mode is not yet supported")
      else ok (executable, args)

  abbrev pub base64_failure : Option Str → Option Str
  base64_failure none = none
  base64_failure (some e) = some (lit "error: invalid base64 in image content block: " ++ e)

  abbrev pub object_error : Option (Map Value) → Option Str
  object_error none = none
  object_error (some m) =
      let decoded = base64_failure (rt.base64_error (text_at (lit "data") m)) in
      if text_at (lit "type") m == lit "image"
      then if text_at (lit "data") m == []
        then some (lit "error: image content missing 'data' field")
        else decoded
      else none

  -- The error of one content item, if it is an image without valid data.
  unfoldable pub item_error : Value → Option Str
  item_error item = object_error (as_object item)

  -- Case 3: the first error of the content items.
  unfoldable pub content_error : List Value → Option Str
  content_error [] = none
  content_error (v ∷ vs) = first_error (item_error v) (content_error vs)

  abbrev pub or_error : Map Value → Option Str → Value
  or_error resp none = object (fields resp)
  or_error resp (some e) = error_result e

  abbrev pub checked_content : Map Value → Option (List Value) → Value
  checked_content resp none = text_result (rt.marshal_indent (object (fields resp)))
  checked_content resp (some content) = or_error resp (content_error content)

  -- Case 2: what has no list of content is printed as text.
  unfoldable pub checked : Map Value → Value
  checked resp = checked_content resp (assert_at as_list (lit "content") resp)

  abbrev pub normalize_object : Value → Option (Map Value) → Value
  normalize_object tool_resp none = tool_resp
  normalize_object tool_resp (some resp) = checked (wrap_item resp)

  -- What is made of the decoded output: all but an object is returned as it is.
  unfoldable pub normalize : Value → Value
  normalize tool_resp = normalize_object tool_resp (as_object tool_resp)

  abbrev pub decoded : Str → Result Value → Value
  decoded out (err e) = text_result out
  decoded out (ok v) = normalize v

  module _ (config : ToolConfig) where
    unfoldable pub ran_result : Ran → Value
    ran_result (not_started e) = error_result (lit "failed to start tool: " ++ e)
    ran_result (ended out (some e) late) =
        if late
        then error_result (
            lit "tool "
            ++ (rt.quote config.name
                ++ (lit " killed: execution exceeded timeout of "
                    ++ rt.duration_text (effective_timeout rt config default_global_timeout))))
        else error_result (lit "execution error: " ++ (e ++ (lit "\nOutput: " ++ out)))
    ran_result (ended out none late) = decoded out (rt.unmarshal out)

    unfoldable pub command : Program → Command
    command (executable, args) =
        let timeout = effective_timeout rt config default_global_timeout in
        record {
          executable = executable;
          args = args;
          timeout = timeout;
          limits = effective_limits config.max_memory_mb config.max_cpu_percent;
          timeout_sec = timeout / 10 ^ 9;
        }

    unfoldable pub platform : Option PlatformConfig
    platform = elim config.platforms [ none ↦ none | some ps ↦ lookup rt.goos ps ]

    -- The process for the arguments, or the text of the error result.
    abbrev pub program_for : Option PlatformConfig → Result Str → Result Program
    program_for none json = err (lit "unsupported platform: " ++ rt.goos)
    program_for (some plat) (err e) = err (lit "failed to marshal arguments: " ++ e)
    program_for (some plat) (ok json) =
        sandboxed config.sandbox plat.command (plat.args ++ (json ∷ []))

    unfoldable pub program : Map Value → Result Program
    program args = program_for platform (rt.marshal (object (fields args)))

    abbrev pub handle_program : Result Program → List Command × Value
    handle_program (err e) = ([], error_result e)
    handle_program (ok p) = (command p ∷ [], ran_result (rt.run (command p)))

    unfoldable pub handle : Map Value → List Command × Value
    handle args = handle_program (program args)
