-- ===== src/Rlimit.antt =====
-- internal/rlimit: the resource limits of a tool's process.
pub mod Unix
pub mod Windows
mod Tests
use jig_mcp.Prelude.{ℕ, if◌then◌else◌}
use jig_mcp.Prelude.Int.{ℤ, pos, leb_ℤ}

-- rlimit.go
pub record ResourceLimits : Type 0 where
  pub max_memory_mb : ℤ
  pub max_cpu_percent : ℤ

abbrev pub default_max_memory_mb : ℤ
default_max_memory_mb = pos 512

abbrev pub default_max_cpu_percent : ℤ
default_max_cpu_percent = pos 90

unfoldable pub effective_limits : ℤ → ℤ → ResourceLimits
effective_limits max_memory_mb max_cpu_percent = record {
  max_memory_mb = if leb_ℤ max_memory_mb (pos 0) then default_max_memory_mb else max_memory_mb;
  max_cpu_percent =
      if leb_ℤ max_cpu_percent (pos 0) then default_max_cpu_percent else max_cpu_percent;
}
