-- ===== src/Startup/Laws.antt =====
-- The bounds of the settings, the directory that is found, and manifests before scripts.
use jig_mcp.Prelude.{
  ◌∙◌, Str, lit, Option, none, some, List, [], ◌∷◌, Bool, true, ◌==◌, lookup, lookup-insert, All,
  All-imp, ◌≡◌, ◌≢◌, ◌⊎◌, inl, inr, refl, Bool-cases, arith, eq_iff, trim_space, if_has, ne_of_test,
}
use jig_mcp.Prelude.Int.{ℤ, pos, negsuc, ◌≤ℤ◌}
use jig_mcp.Prelude.Result.{Result}
use jig_mcp.Config.{ToolConfig}
use jig_mcp.Config.Load.{LoadedTool, DirEntry, Metadata, Probe, load_manifests, probe_scripts}
use jig_mcp.Config.Load.Laws.{IsProbed, probe_scripts-IsProbed}
use jig_mcp.Tools.Registry.{Tool, Registry, register_tool, get_tool_by_name, new_registry}
use jig_mcp.Startup.{
  Flags, slots_or_default, port_or_default, init_tool_semaphore, apply_env_overrides,
  detect_config_dir, legacy_dir, register_manifests, register_scripts, is_existing, load_tools,
}

module _ (env : Str → Str) (scan : Str → Option ℤ) where
  slots_or_default-positive : (o : Option ℤ) → pos 1 ≤ℤ slots_or_default env scan o
  slots_or_default-positive none = omega arith
  slots_or_default-positive (some (pos n)) = ground arith
  slots_or_default-positive (some (negsuc n)) = ground arith

  port_or_default-bounds :
      (o : Option ℤ)
      → (pos 1 ≤ℤ port_or_default env scan o) × (port_or_default env scan o ≤ℤ pos 65535)
  port_or_default-bounds none = (omega arith, omega arith)
  port_or_default-bounds (some (pos n)) = (ground arith, ground arith)
  port_or_default-bounds (some (negsuc n)) = (ground arith, ground arith)

  -- Whatever the environment holds: there is at least one slot for the tools, and a port that the
  -- environment sets is between 1 and 65535.
  pub settings_bounds :
      (f : Flags)
      → (pos 1 ≤ℤ init_tool_semaphore env scan)
        × (env (lit "JIG_SSE_PORT") ≢ []
            → (pos 1 ≤ℤ (apply_env_overrides env scan f).sse_port)
              × ((apply_env_overrides env scan f).sse_port ≤ℤ pos 65535))
  unfolding init_tool_semaphore apply_env_overrides
  settings_bounds f = (
    if_has (λ n. pos 1 ≤ℤ n) (env (lit "JIG_MAX_CONCURRENT_TOOLS") == []) (omega arith)
        (slots_or_default-positive (scan (env (lit "JIG_MAX_CONCURRENT_TOOLS")))),
    λ set. elim (Bool-cases (env (lit "JIG_SSE_PORT") == [])) [
      | inl unset ↦ absurd (set ((eq_iff (env (lit "JIG_SSE_PORT")) []).0 unset))
      | inr given ↦ rw given (port_or_default-bounds (scan (env (lit "JIG_SSE_PORT"))))
    ],
  )

module _ (base dir : Str → Str) (join : Str → Str → Str) (exists : Str → Bool) where
  -- Nothing was found, or a directory that has a directory tools.
  abbrev IsFound : Str → Type 0
  IsFound d = (d ≡ []) ⊎ (exists (join d (lit "tools")) ≡ true)

  legacy_dir-IsFound : (binary_dir : Str) → IsFound (legacy_dir base dir join exists binary_dir)
  legacy_dir-IsFound binary_dir = elim (Bool-cases (exists (join binary_dir (lit "tools")))) [
    | inl there ↦ rw there (inr there)
    | inr gone ↦ rw gone (inl refl)
  ]

  -- A directory that is given, blanks aside, is taken. Otherwise the directory found has a directory
  -- tools, or it is empty and stands for the current directory.
  detect_config_dir_lem :
      (explicit_dir binary_dir : Str)
      → (trim_space explicit_dir ≢ []
          → detect_config_dir base dir join exists explicit_dir binary_dir ≡ explicit_dir)
        × (trim_space explicit_dir ≡ []
            → (detect_config_dir base dir join exists explicit_dir binary_dir ≡ [])
              ⊎ (exists (
                    join
                      (detect_config_dir base dir join exists explicit_dir binary_dir)
                      (lit "tools"))
                  ≡ true))
  unfolding detect_config_dir
  detect_config_dir_lem explicit_dir binary_dir =
      elim (Bool-cases (trim_space explicit_dir == [])) [
        | inl blank ↦ (
          λ given. absurd (given ((eq_iff (trim_space explicit_dir) []).0 blank)),
          λ none_given. rw blank (
              if_has IsFound (base binary_dir == lit "bin")
                (elim (Bool-cases (exists (join (dir binary_dir) (lit "tools")))) [
                  | inl there ↦ rw there (inr there)
                  | inr gone ↦ rw gone (legacy_dir-IsFound binary_dir)
                ])
                (legacy_dir-IsFound binary_dir)),
        )
        | inr set ↦ (
          λ given. rw set refl,
          λ none_given. absurd (ne_of_test (trim_space explicit_dir) [] set none_given),
        )
      ]

register_scripts-lookup :
    (name : Str) (r : Registry) (lts : List LoadedTool)
    → All (λ (lt : LoadedTool). lt.config.name ≢ name) lts
    → lookup name (register_scripts r lts).tools ≡ lookup name r.tools
unfolding register_scripts register_tool
register_scripts-lookup name r [] h = refl
register_scripts-lookup name r (lt ∷ lts) (other, others) =
    register_scripts-lookup name (register_tool r lt.config.name (Tool.external lt.config)) lts
      others
    ∙ ground (
      arith,
      other,
      eq_iff lt.config.name name,
      lookup-insert lt.config.name name (Tool.external lt.config) r.tools,
    )

-- A script never takes the name of a manifest: what loadTools registers under the name of a manifest is what
-- the manifests alone register, whatever the scripts print.
load_tools-manifests_win :
    (decode : Str → Result ToolConfig) (file_ext path_of : Str → Str) (run : Str → List Str → Probe)
    (decode_meta : Str → Result Metadata) (tools scripts : Option (List DirEntry)) (name : Str)
    → is_existing (load_manifests decode tools) name ≡ true
    → get_tool_by_name (load_tools decode file_ext path_of run decode_meta tools scripts) name
      ≡ get_tool_by_name (register_manifests new_registry (load_manifests decode tools)) name
unfolding load_tools get_tool_by_name
load_tools-manifests_win decode file_ext path_of run decode_meta tools scripts name existing =
    register_scripts-lookup name (register_manifests new_registry (load_manifests decode tools))
      (probe_scripts file_ext path_of run decode_meta (is_existing (load_manifests decode tools))
        scripts)
      (All-imp (IsProbed (is_existing (load_manifests decode tools)))
        (λ (lt : LoadedTool). lt.config.name ≢ name)
        (probe_scripts file_ext path_of run decode_meta (is_existing (load_manifests decode tools))
          scripts)
        (λ lt p e. absurd (differ lt p e))
        (probe_scripts-IsProbed file_ext path_of run decode_meta
          (is_existing (load_manifests decode tools)) scripts))
  where
    differ :
        (lt : LoadedTool)
        → IsProbed (is_existing (load_manifests decode tools)) lt
        → ¬ (lt.config.name ≡ name)
    differ lt p e = cc (existing, p.fresh, e)
