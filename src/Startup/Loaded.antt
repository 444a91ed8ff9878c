-- ===== src/Startup/Loaded.antt =====
-- What holds of the registry that loadTools fills.
use jig_mcp.Prelude.{
  subst, Str, Map, Option, some, List, [], ◌∷◌, ◌==◌, lookup, insert, All, ◌≡◌, refl, inl, inr,
  Bool-cases, if_has, arith,
}
use jig_mcp.Prelude.Result.{Result}
use jig_mcp.Value.{Value}
use jig_mcp.Config.{ToolConfig, TerminalConfig}
use jig_mcp.Config.Load.{LoadedTool, DirEntry, Metadata, Probe, load_manifests, probe_scripts}
use jig_mcp.Config.Load.Laws.{terminal, http, external, HasType, IsLoaded, load_manifests-IsLoaded}
use jig_mcp.Tools.Runtime.{Runtime}
use jig_mcp.Tools.Registry.{Tool, Registry, register_tool, get_tool_by_name, run_tool, new_registry}
use jig_mcp.Startup.{tool_of, register_manifests, register_scripts, is_existing, load_tools}

-- The tool has the section of its configuration that its handler reads.
abbrev IsRunnable : Tool → Type 0
IsRunnable (Tool.external c) = Unit
IsRunnable (Tool.http c) = Unit
IsRunnable (Tool.terminal c) = (t : TerminalConfig) × (c.terminal ≡ some t)
IsRunnable (Tool.other d h) = ⊥

abbrev AllRunnable : Map Tool → Type 0
AllRunnable m = All (λ (e : Str × Tool). IsRunnable e.1) m

insert-AllRunnable :
    (k : Str) (t : Tool) (m : Map Tool) → IsRunnable t → AllRunnable m → AllRunnable (insert k t m)
unfolding insert
insert-AllRunnable k t [] h tt = (h, tt)
insert-AllRunnable k t ((j, u) ∷ m) h (hu, hm) =
    if_has AllRunnable (j == k) (h, hm) (hu, insert-AllRunnable k t m h hm)

lookup-IsRunnable :
    (k : Str) (t : Tool) (m : Map Tool) → lookup k m ≡ some t → AllRunnable m → IsRunnable t
unfolding lookup
lookup-IsRunnable k t [] e h = absurd cc
lookup-IsRunnable k t ((j, u) ∷ m) e (hu, hm) = elim (Bool-cases (j == k)) [
  | inl here ↦ subst IsRunnable (ground (arith, e, here)) hu
  | inr later ↦ lookup-IsRunnable k t m (ground (arith, e, later)) hm
]

has_type-IsRunnable :
    (tc : ToolConfig) (type : Str)
    → HasType tc type
    → IsRunnable (tool_of (record { config = tc; type = type }))
unfolding tool_of ◌==◌
has_type-IsRunnable tc _ (http h e) = tt
has_type-IsRunnable tc _ (terminal t no_http e on) = (t, e)
has_type-IsRunnable tc _ (external ps no_http no_terminal e) = tt

register_manifests-AllRunnable :
    (r : Registry) (lts : List LoadedTool)
    → AllRunnable r.tools
    → All IsLoaded lts
    → AllRunnable (register_manifests r lts).tools
unfolding register_manifests register_tool
register_manifests-AllRunnable r [] h tt = h
register_manifests-AllRunnable r (lt ∷ lts) h (l, ls) =
    register_manifests-AllRunnable (register_tool r lt.config.name (tool_of lt)) lts
      (insert-AllRunnable lt.config.name (tool_of lt) r.tools
        (has_type-IsRunnable lt.config lt.type l.has_type) h)
      ls

register_scripts-AllRunnable :
    (r : Registry) (lts : List LoadedTool)
    → AllRunnable r.tools
    → AllRunnable (register_scripts r lts).tools
unfolding register_scripts register_tool
register_scripts-AllRunnable r [] h = h
register_scripts-AllRunnable r (lt ∷ lts) h =
    register_scripts-AllRunnable (register_tool r lt.config.name (Tool.external lt.config)) lts
      (insert-AllRunnable lt.config.name (Tool.external lt.config) r.tools tt h)

-- The handler of a runnable tool returns.
run_tool-returns :
    (rt : Runtime) (t : Tool) (args : Map Value)
    → IsRunnable t
    → (v : Value) × ((run_tool rt t args).1 ≡ some v)
unfolding run_tool
run_tool-returns rt (Tool.external c) args h = (_, refl)
run_tool-returns rt (Tool.http c) args h = (_, refl)
run_tool-returns rt (Tool.terminal c) args (t, e) = rw e (_, refl)
run_tool-returns rt (Tool.other d h) args empty = absurd empty

-- Whatever the manifests and the scripts say: a tool that loadTools registers returns a result on all
-- arguments; its handler does not panic on a missing section of the configuration.
pub load_tools-returns :
    (decode : Str → Result ToolConfig) (file_ext path_of : Str → Str) (run : Str → List Str → Probe)
    (decode_meta : Str → Result Metadata) (tools scripts : Option (List DirEntry)) (rt : Runtime)
    (name : Str) (t : Tool) (args : Map Value)
    → get_tool_by_name (load_tools decode file_ext path_of run decode_meta tools scripts) name
      ≡ some t
    → (v : Value) × ((run_tool rt t args).1 ≡ some v)
unfolding load_tools get_tool_by_name
load_tools-returns decode file_ext path_of run decode_meta tools scripts rt name t args found =
    run_tool-returns rt t args (
      lookup-IsRunnable name t
        (load_tools decode file_ext path_of run decode_meta tools scripts).tools found
        (register_scripts-AllRunnable
          (register_manifests new_registry (load_manifests decode tools))
          (probe_scripts file_ext path_of run decode_meta
            (is_existing (load_manifests decode tools)) scripts)
          (register_manifests-AllRunnable new_registry (load_manifests decode tools) tt
            (load_manifests-IsLoaded decode tools))))
