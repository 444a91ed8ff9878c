-- ===== src/Rlimit/Unix/Laws.antt =====
-- What limits the child gets, and what is left of the server's own.
use jig_mcp.Prelude.{ℕ, ◌*◌, ◌≤◌, ◌<◌, ◌≡◌, refl, Str, Option, some, arith}
use jig_mcp.Prelude.Int.{ℤ, pos, negsuc, pos_part, ◌≤ℤ◌}
use jig_mcp.Rlimit.{effective_limits}
use jig_mcp.Rlimit.Unix.{
  Rlimit, ProcessLimits, started, memory_bytes, cpu_seconds, both, run_with, start_with_limits,
}

-- Both limits that are in force are positive, and a configured positive value is taken as it is.
effective_limits_lem :
    (memory percent : ℤ)
    → (pos 1 ≤ℤ (effective_limits memory percent).max_memory_mb)
      × (pos 1 ≤ℤ (effective_limits memory percent).max_cpu_percent)
      × (pos 1 ≤ℤ memory → (effective_limits memory percent).max_memory_mb ≡ memory)
      × (pos 1 ≤ℤ percent → (effective_limits memory percent).max_cpu_percent ≡ percent)
unfolding effective_limits
effective_limits_lem memory percent =
    (ground arith, ground arith, λ h. ground arith, λ h. ground arith)

-- A tool's process always has at least one second of processor time, and never more than its
-- percentage of the timeout asks for, unless that is less than a second.
cpu_seconds_bounds :
    (timeout_sec : ℕ) (percent : ℤ)
    → (1 ≤ cpu_seconds timeout_sec percent)
      × (100 ≤ timeout_sec * pos_part percent
          → cpu_seconds timeout_sec percent * 100 ≤ timeout_sec * pos_part percent)
unfolding cpu_seconds
cpu_seconds_bounds timeout_sec percent = (ground arith, λ h. ground arith)

pos_of_positive : (z : ℤ) → pos 1 ≤ℤ z → (n : ℕ) × (z ≡ pos n)
pos_of_positive (pos n) h = (n, refl)
pos_of_positive (negsuc n) h = absurd (omega arith)

module _ (getrlimit : Rlimit → Option Rlimit) (setrlimit : Rlimit → Rlimit → Rlimit)
    (start : ProcessLimits → Option Str) where
  -- Where the kernel grants every request of the server, as it does for a privileged process, a tool
  -- with any configuration is started under exactly its effective limits, and the server has its own
  -- limits back afterwards.
  start_with_limits_restores :
      (memory percent : ℤ) (timeout_sec : ℕ) (server : ProcessLimits)
      → ((l : Rlimit) → getrlimit l ≡ some l)
      → ((now wanted : Rlimit) → setrlimit now wanted ≡ wanted)
      → let limits = effective_limits memory percent in
        let child : ProcessLimits = record {
          data_limit = both (memory_bytes limits.max_memory_mb);
          cpu_limit = both (cpu_seconds timeout_sec limits.max_cpu_percent);
        } in
        start_with_limits getrlimit setrlimit start limits timeout_sec server
        ≡ (server, started child (start child))
  unfolding start_with_limits run_with
  start_with_limits_restores memory percent timeout_sec server readable granted =
      let (n, e) = pos_of_positive _ (effective_limits_lem memory percent).0 in
      rw e (simp (readable, granted))

  -- Where the kernel lets the server lower a hard limit and, as for a process without privileges, does
  -- not let it raise one, a limit for the child below the server's own stays on the server.
  pub start_with_limits_sticks :
      (memory : ℕ) (percent : ℤ) (timeout_sec : ℕ) (server : ProcessLimits)
      → ((l : Rlimit) → getrlimit l ≡ some l)
      → ((now wanted : Rlimit)
          → wanted.cur ≤ wanted.max
          → wanted.max ≤ now.max
          → setrlimit now wanted ≡ wanted)
      → ((now wanted : Rlimit) → now.max < wanted.max → setrlimit now wanted ≡ now)
      → memory_bytes (pos memory) < server.data_limit.max
      → (start_with_limits getrlimit setrlimit start
          (record { max_memory_mb = pos memory; max_cpu_percent = percent })
          timeout_sec
          server).0.data_limit
        ≡ both (memory_bytes (pos memory))
  unfolding start_with_limits run_with
  start_with_limits_sticks memory percent timeout_sec server readable lower no_raise below =
      let limit = both (memory_bytes (pos memory)) in
      rw (readable server.data_limit) (
        rw (lower server.data_limit limit (omega arith) (omega arith))
          (no_raise limit server.data_limit below))
