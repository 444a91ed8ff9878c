-- ===== src/Logging/Tests.antt =====
-- A level, and a forged log line.
use jig_mcp.Prelude.{lit, ◌==◌, ◌≡◌, refl, trim_space, to_lower}
use jig_mcp.Prelude.Result.{ok}
use jig_mcp.Logging.{parse_log_level, warn}

level_of_warning : parse_log_level (λ s. s) (lit " WARNING ") ≡ ok warn
unfolding parse_log_level ◌==◌ trim_space to_lower
level_of_warning = refl
