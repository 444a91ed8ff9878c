-- ===== src/Tools/External/Sandbox.antt =====
-- What the sandbox configuration does to the process that is run.
use jig_mcp.Prelude.{
  Str, lit, Map, Option, none, some, List, [], ◌∷◌, ◌++◌, ◌≡◌, ◌≢◌, refl, arith, eq_iff, eq_refl,
  to_lower, All,
}
use jig_mcp.Prelude.Result.{Result, ok, err}
use jig_mcp.Value.{Value}
use jig_mcp.Config.{ToolConfig, SandboxConfig, PlatformConfig}
use jig_mcp.Tools.Runtime.{Runtime, Command}
use jig_mcp.Tools.External.{
  Program, sandboxed, program, program_for, handle_program, handle, command, platform,
}

-- The process is docker, run on the image, in a container that is removed afterwards.
abbrev pub RunsInDocker : Str → Command → Type 0
RunsInDocker image c =
    (executable : Str) × (args : List Str) × (c.executable ≡ lit "docker")
    × (c.args ≡ lit "run" ∷ lit "--rm" ∷ image ∷ executable ∷ args)

module _ (rt : Runtime) (config : ToolConfig) (s : SandboxConfig)
    (sandbox : config.sandbox ≡ some s) where
  docker_program :
      to_lower s.type ≡ lit "docker"
      → (exe : Str) (args : List Str) (p : Program) → sandboxed rt (some s) exe args ≡ ok p
      → (s.image ≢ []) × RunsInDocker s.image (command rt config p)
  unfolding sandboxed command
  docker_program docker exe args p h = (
    λ e. ground (arith, eq_refl (lit "docker"), eq_iff s.image []),
    (exe, args, ground (arith, eq_refl (lit "docker")), ground (arith, eq_refl (lit "docker"))),
  )

  program_for_docker :
      to_lower s.type ≡ lit "docker"
      → (o : Option PlatformConfig) (json : Result Str) (p : Program)
      → program_for rt config o json ≡ ok p
      → (s.image ≢ []) × RunsInDocker s.image (command rt config p)
  program_for_docker docker none json p h = cc
  program_for_docker docker (some plat) (err e) p h = cc
  program_for_docker docker (some plat) (ok json) p h =
      docker_program docker plat.command (plat.args ++ (json ∷ [])) p (rw sandbox at h)

  handle_program_docker :
      to_lower s.type ≡ lit "docker"
      → (args : Map Value) (r : Result Program) → program rt config args ≡ r
      → All (λ c. (s.image ≢ []) × RunsInDocker s.image c) (handle_program rt config r).0
  unfolding program
  handle_program_docker docker args (err e) h = tt
  handle_program_docker docker args (ok p) h =
      (program_for_docker docker (platform rt config) _ p h, tt)

  -- A tool with a docker sandbox never runs a process outside docker: each process of a call is docker
  -- run on the configured image, which is not empty.
  pub handle_docker :
      (args : Map Value)
      → to_lower s.type ≡ lit "docker"
      → All (λ c. (s.image ≢ []) × RunsInDocker s.image c) (handle rt config args).0
  unfolding handle
  handle_docker args docker = handle_program_docker docker args (program rt config args) refl

-- A sandbox type other than docker and wasm, in any letter case, is ignored: the tool runs as it would
-- with no sandbox.
sandboxed_unknown :
    (rt : Runtime) (s : SandboxConfig) (executable : Str) (args : List Str)
    → to_lower s.type ≢ lit "docker"
    → to_lower s.type ≢ lit "wasm"
    → sandboxed rt (some s) executable args ≡ sandboxed rt none executable args
unfolding sandboxed
sandboxed_unknown rt s executable args not_docker not_wasm =
    ground (arith, eq_iff (to_lower s.type) (lit "docker"), eq_iff (to_lower s.type) (lit "wasm"))
