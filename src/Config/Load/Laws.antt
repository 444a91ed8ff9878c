-- ===== src/Config/Load/Laws.antt =====
-- What holds of every tool that is loaded.
use jig_mcp.Prelude.{
  Bool-cases, ◌==◌, ◌||◌, ◌++◌, not, to_lower, lit, if_has, ne_of_test, ◌≢◌, Bool, All, Str, Map,
  Option, none, some, List, true, ◌≡◌, refl, inl, inr, Option-cases, arith,
}
use jig_mcp.Config.{ToolConfig, PlatformConfig, TerminalConfig, HttpConfig}
use jig_mcp.Config.Validate.{validate_tool_config}
use jig_mcp.Config.Load.{
  ok, is_nil, ◌∷◌, err, Metadata, [], DirEntry, load_decoded, Probe, false, Result, classify_by,
  timed_out, failed, output, if_usable, if_output, probe_command, script_command, script_platforms,
  probe_script, probe_scripts, probe_entries, load_content, load_entries, load_manifests,
  LoadedTool, add_tool,
}

-- The type that a tool is loaded as, by the blocks of its configuration.
pub data HasType (tc : ToolConfig) : Str → Type 0 where
  http : (h : HttpConfig) → tc.http ≡ some h → HasType tc (lit "http")
  terminal :
      (t : TerminalConfig)
      → tc.http ≡ none
      → tc.terminal ≡ some t
      → t.enabled ≡ true
      → HasType tc (lit "terminal")
  external :
      (ps : Map PlatformConfig)
      → tc.http ≡ none
      → tc.terminal ≡ none
      → tc.platforms ≡ some ps
      → HasType tc (lit "external")

pub record IsLoaded (t : LoadedTool) : Type 0 where
  pub valid : validate_tool_config t.config ≡ none
  pub has_type : HasType t.config t.type

abbrev pub Every : (LoadedTool → Type 0) → Option LoadedTool → Type 0
Every P none = Unit
Every P (some t) = P t

add_tool_has :
    (P : LoadedTool → Type 0) (o : Option LoadedTool) (tools : List LoadedTool)
    → Every P o
    → All P tools
    → All P (add_tool o tools)
add_tool_has P none tools h rest = rest
add_tool_has P (some t) tools h rest = (h, rest)

platforms_of_valid :
    (tc : ToolConfig)
    → tc.http ≡ none
    → tc.terminal ≡ none
    → validate_tool_config tc ≡ none
    → (ps : Map PlatformConfig) × (tc.platforms ≡ some ps)
unfolding validate_tool_config
platforms_of_valid tc no_http no_terminal valid = elim (Option-cases tc.platforms) [
  | inl nil ↦ absurd (ground (arith, valid, nil, no_http, no_terminal))
  | inr found ↦ found
]

classify_by-IsLoaded :
    (tc : ToolConfig) (h : Option HttpConfig) (t : Option TerminalConfig)
    → validate_tool_config tc ≡ none
    → tc.http ≡ h
    → tc.terminal ≡ t
    → Every IsLoaded (classify_by tc h t)
classify_by-IsLoaded tc (some h) t valid e f = record { valid = valid; has_type = HasType.http h e }
classify_by-IsLoaded tc none (some t) valid e f = elim (Bool-cases t.enabled) [
  | inl on ↦ rw on (record { valid = valid; has_type = HasType.terminal t e f on })
  | inr off ↦ rw off tt
]
classify_by-IsLoaded tc none none valid e f =
    let (ps, given) = platforms_of_valid tc e f valid in
    record { valid = valid; has_type = HasType.external ps e f given }

load_decoded-IsLoaded : (r : Result ToolConfig) → Every IsLoaded (load_decoded r)
load_decoded-IsLoaded (err e) = tt
load_decoded-IsLoaded (ok tc) = elim (Option-cases (validate_tool_config tc)) [
  | inl valid ↦ rw valid (classify_by-IsLoaded tc tc.http tc.terminal valid refl refl)
  | inr (v, found) ↦ rw found tt
]

module _ (decode : Str → Result ToolConfig) where
  load_content-IsLoaded : (o : Option Str) → Every IsLoaded (load_content decode o)
  load_content-IsLoaded none = tt
  load_content-IsLoaded (some s) = load_decoded-IsLoaded (decode s)

  load_entries-IsLoaded : (es : List DirEntry) → All IsLoaded (load_entries decode es)
  unfolding load_entries
  load_entries-IsLoaded [] = tt
  load_entries-IsLoaded (e ∷ es) = if_has (All IsLoaded) (not e.is_dir) (load_entries-IsLoaded es) (
      add_tool_has IsLoaded (load_content decode e.content) (load_entries decode es)
        (load_content-IsLoaded e.content) (load_entries-IsLoaded es))

  -- Whatever lies in the tools directory: every tool that is loaded from it passes the validation, and its
  -- type is that of its http block, else of its terminal block, which is then enabled, else of its platforms.
  pub load_manifests-IsLoaded :
      (dir : Option (List DirEntry)) → All IsLoaded (load_manifests decode dir)
  unfolding load_manifests
  load_manifests-IsLoaded none = tt
  load_manifests-IsLoaded (some es) = load_entries-IsLoaded es

-- A tool of a script: its name is new, its metadata is complete, and it has a platform to run on.
pub record IsProbed (existing : Str → Bool) (t : LoadedTool) : Type 0 where
  pub fresh : existing t.config.name ≡ false
  pub named : t.config.name ≢ []
  pub described : t.config.description ≢ []
  pub has_schema : is_nil t.config.input_schema ≡ false
  pub has_type : HasType t.config t.type

module _ (file_ext path_of : Str → Str) (run : Str → List Str → Probe)
    (decode_meta : Str → Result Metadata) (existing : Str → Bool) where
  if_usable-IsProbed :
      (ext : Str) (pc : PlatformConfig) (r : Result Metadata)
      → Every (IsProbed existing) (if_usable file_ext path_of run decode_meta existing ext pc r)
  if_usable-IsProbed ext pc (err e) = tt
  if_usable-IsProbed ext pc (ok meta) =
      elim (Bool-cases
        ((meta.name == []) || ((meta.description == []) || is_nil meta.input_schema))) [
          | inl missing ↦ rw missing tt
          | inr complete ↦ elim (Bool-cases (existing meta.name)) [
            | inl taken ↦ rw complete (rw taken tt)
            | inr new ↦ rw complete (
                rw new (record {
                  fresh = new;
                  named = ne_of_test meta.name [] (ground (arith, complete));
                  described = ne_of_test meta.description [] (ground (arith, complete));
                  has_schema = ground (arith, complete);
                  has_type = HasType.external (script_platforms ext pc) refl refl refl;
                }))
          ]
        ]

  probe_command-IsProbed :
      (ext : Str) (o : Option PlatformConfig)
      → Every (IsProbed existing) (probe_command file_ext path_of run decode_meta existing ext o)
  probe_command-IsProbed ext none = tt
  probe_command-IsProbed ext (some pc) =
      by_probe (run pc.command (pc.args ++ (lit "--mcp-metadata" ∷ [])))
    where
      by_probe :
          (p : Probe)
          → Every (IsProbed existing) (if_output file_ext path_of run decode_meta existing ext pc p)
      by_probe timed_out = tt
      by_probe failed = tt
      by_probe (output out) = if_usable-IsProbed ext pc (decode_meta out)

  probe_entries-IsProbed :
      (es : List DirEntry)
      → All (IsProbed existing) (probe_entries file_ext path_of run decode_meta existing es)
  unfolding probe_entries
  probe_entries-IsProbed [] = tt
  probe_entries-IsProbed (e ∷ es) =
      if_has (All (IsProbed existing)) e.is_dir (probe_entries-IsProbed es) (
        add_tool_has (IsProbed existing)
          (probe_script file_ext path_of run decode_meta existing e.name)
          (probe_entries file_ext path_of run decode_meta existing es)
          (probe_command-IsProbed (to_lower (file_ext e.name))
            (script_command (to_lower (file_ext e.name)) (path_of e.name)))
          (probe_entries-IsProbed es))

  -- Whatever the scripts directory holds and the scripts print: a tool that is made of a script has a name
  -- that is not among the existing ones, a name and a description that are not empty, a schema, and the type
  -- external.
  pub probe_scripts-IsProbed :
      (dir : Option (List DirEntry))
      → All (IsProbed existing) (probe_scripts file_ext path_of run decode_meta existing dir)
  unfolding probe_scripts
  probe_scripts-IsProbed none = tt
  probe_scripts-IsProbed (some es) = probe_entries-IsProbed es
