-- ===== src/Rlimit/Unix.antt =====
-- internal/rlimit/rlimit_unix.go: StartWithLimits, with the limits of the server's own process as the
-- state. The kernel's calls are parameters: `setrlimit current wanted` is the limit afterwards,
-- `getrlimit current` is `none` if the call fails, `start` is the error of cmd.Start if it has one.
-- float64(timeoutSec) * float64(pct) / 100 cut to an integer is the quotient of the product by 100,
-- as it is for products below 2 ^ 50.
pub mod Laws
use jig_mcp.Prelude.{ℕ, ◌*◌, ◌/◌, ◌%◌, ◌^◌, Str, Option, none, some, Bool, ltb, if◌then◌else◌}
use jig_mcp.Prelude.Int.{ℤ, pos, negsuc, pos_part, to_uint}
use jig_mcp.Rlimit.{ResourceLimits}

pub record Rlimit : Type 0 where
  pub cur : ℕ
  pub max : ℕ

-- RLIMIT_DATA and RLIMIT_CPU of a process.
pub record ProcessLimits : Type 0 where
  pub data_limit : Rlimit
  pub cpu_limit : Rlimit

pub data Started : Type 0 where
  negative_memory : ℤ → Started
  -- The limits that the child inherited, and the error of cmd.Start.
  started : ProcessLimits → Option Str → Started

unfoldable pub memory_bytes : ℤ → ℕ
memory_bytes mb = to_uint 64 mb * 1024 * 1024 % 2 ^ 64

unfoldable pub cpu_seconds : ℕ → ℤ → ℕ
cpu_seconds timeout_sec percent =
    let s = timeout_sec * pos_part percent / 100 in if ltb s 1 then 1 else s

abbrev pub or_zero : Option Rlimit → Rlimit
or_zero (some l) = l
or_zero none = record { cur = 0; max = 0 }

abbrev pub both : ℕ → Rlimit
both n = record { cur = n; max = n }

module _ (getrlimit : Rlimit → Option Rlimit) (setrlimit : Rlimit → Rlimit → Rlimit)
    (start : ProcessLimits → Option Str) where
  unfoldable pub run_with : ℕ → ℕ → ProcessLimits → ProcessLimits × Started
  run_with mem_bytes cpu_sec server =
      let old_data = or_zero (getrlimit server.data_limit) in
      let old_cpu = or_zero (getrlimit server.cpu_limit) in
      let limited : ProcessLimits = record {
        data_limit = setrlimit server.data_limit (both mem_bytes);
        cpu_limit = setrlimit server.cpu_limit (both cpu_sec);
      } in
      let err = start limited in
      let restored : ProcessLimits = record {
        data_limit = setrlimit limited.data_limit old_data;
        cpu_limit = setrlimit limited.cpu_limit old_cpu;
      } in
      (restored, started limited err)

  abbrev start_checked : ℤ → ResourceLimits → ℕ → ProcessLimits → ProcessLimits × Started
  start_checked (negsuc n) limits timeout_sec server = (server, negative_memory (negsuc n))
  start_checked (pos n) limits timeout_sec server =
      run_with (memory_bytes limits.max_memory_mb) (cpu_seconds timeout_sec limits.max_cpu_percent)
        server

  unfoldable pub start_with_limits : ResourceLimits → ℕ → ProcessLimits → ProcessLimits × Started
  start_with_limits limits timeout_sec server =
      start_checked limits.max_memory_mb limits timeout_sec server
