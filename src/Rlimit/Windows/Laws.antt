-- ===== src/Rlimit/Windows/Laws.antt =====
-- The rate that the job object is given, and the order of the system calls.
use jig_mcp.Prelude.{
  ◌+◌, ◌%◌, ◌^◌, true, false, List, ◌∷◌, Option, none, some, Bool, ℕ, ◌*◌, ◌≤◌, ◌≡◌, arith,
}
use jig_mcp.Prelude.Int.{ℤ, pos, to_uint}
use jig_mcp.Rlimit.{ResourceLimits}
use jig_mcp.Rlimit.Windows.{
  Answers, Call, Handle, start_suspended, create_job_object, set_information_job_object,
  nt_resume_process, extended_limit, cpu_rate_control, assign_to_job, cpu_rate,
}

-- The rate lies in the range that Windows accepts whatever the percentage, and is the percentage in
-- hundredths from 1 to 100 percent.
cpu_rate_lem :
    (percent : ℤ) (n : ℕ)
    → (1 ≤ cpu_rate percent)
      × (cpu_rate percent ≤ 10000)
      × (1 ≤ n → n ≤ 100 → cpu_rate (pos n) ≡ n * 100)
unfolding cpu_rate
cpu_rate_lem percent n = (ground arith, ground arith, λ low high. ground arith)

abbrev pub is_resume : Call → Bool
is_resume (nt_resume_process h) = true
is_resume _ = false

-- The bytes of the memory limit: uintptr(limits.MaxMemoryMB) * 1024 * 1024.
abbrev memory : ResourceLimits → ℕ
memory limits = to_uint 64 limits.max_memory_mb * 1024 * 1024 % 2 ^ 64

-- The calls that limit the process, if there is a job: both structures are set on it before the process is
-- assigned to it, if its handle was opened, and the memory, the time and the end with the job are limited.
abbrev pub IsLimited : Answers → ResourceLimits → ℕ → ℕ → Option Handle → List Call → Type 0
IsLimited os limits timeout_sec pid none before = Unit
IsLimited os limits timeout_sec pid (some job) before =
    before
    ≡ start_suspended
      ∷ create_job_object
      ∷ set_information_job_object job (
          extended_limit (record {
            limit_flags = 0x100 + 0x2000 + 0x4;
            per_job_user_time_limit = os.ticks timeout_sec limits.max_cpu_percent;
            process_memory_limit = memory limits;
          }))
      ∷ set_information_job_object job
          (cpu_rate_control (record { control_flags = 5; value = cpu_rate limits.max_cpu_percent }))
      ∷ assign_to_job os.open_to_assign job pid
