-- ===== src/Tools/External/Tests.antt =====
-- The external tool on concrete outputs and sandboxes.
use jig_mcp.Prelude.{lit, Map, some, [], ◌∷◌, ◌≡◌, ◌≢◌, refl, ◌==◌, to_lower, lookup, All}
use jig_mcp.Prelude.Result.{ok}
use jig_mcp.Value.{Value, text, list, object, field, end, nil, cons, text_at}
use jig_mcp.Config.{ToolConfig, SandboxConfig}
use jig_mcp.Tools.Sample.{sample, blank_config}
use jig_mcp.Tools.External.{
  Runtime, handle, sandboxed, wrap_item, checked, content_error, normalize, is_content_type,
  has_key, item_error,
}
use jig_mcp.Tools.External.Laws.{Shape, handle-Shape}
use jig_mcp.Tools.External.Sandbox.{RunsInDocker, handle_docker}

abbrev alpine : SandboxConfig
alpine = record { type = lit "Docker"; image = lit "alpine" }

abbrev podman : SandboxConfig
podman = record { type = lit "podman"; image = lit "alpine" }

abbrev config : ToolConfig
config = record blank_config {
  platforms = some ((lit "linux", record { command = lit "bash"; args = lit "t.sh" ∷ [] }) ∷ []);
  sandbox = some alpine;
}

abbrev image : Value
image =
    object (field (lit "type") (text (lit "image")) (field (lit "data") (text (lit "AAAA")) end))

-- The process prints an image, and the decoder reads it.
abbrev prints_image : Runtime
prints_image = record sample { unmarshal = λ out. ok image }

handle-Shape_example : Shape prints_image (handle prints_image config []).1
handle-Shape_example = handle-Shape prints_image config []

abbrev resp : Map Value
resp = (lit "content", list (cons image nil)) ∷ []

handle_docker_example :
    All (λ c. (alpine.image ≢ []) × RunsInDocker alpine.image c) (handle sample config []).0
unfolding to_lower
handle_docker_example = handle_docker sample config alpine refl [] refl

docker_run :
    sandboxed sample (some alpine) (lit "bash") (lit "t.sh" ∷ [])
    ≡ ok (lit "docker", lit "run" ∷ lit "--rm" ∷ lit "alpine" ∷ lit "bash" ∷ lit "t.sh" ∷ [])
unfolding sandboxed to_lower ◌==◌
docker_run = refl

lone_item : normalize sample image ≡ object (field (lit "content") (list (cons image nil)) end)
unfolding normalize checked wrap_item is_content_type has_key content_error item_error lookup
    text_at ◌==◌
lone_item = refl
