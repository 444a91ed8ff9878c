-- ===== src/Rlimit/Windows.antt =====
-- internal/rlimit/rlimit_windows.go: StartWithLimits as the sequence of its system calls. The outcome of
-- each call is a parameter; the calls that fail are logged by the program and change nothing else.
pub mod Laws
use jig_mcp.Prelude.{
  ◌+◌, ℕ, ◌*◌, ◌/◌, ◌%◌, ◌^◌, Str, Option, none, some, Bool, true, false, ltb, if◌then◌else◌, List,
  [], ◌∷◌, ◌++◌,
}
use jig_mcp.Prelude.Result.{Result, ok, err}
use jig_mcp.Prelude.Int.{ℤ, pos, negsuc, pos_part, to_uint}
use jig_mcp.Rlimit.{ResourceLimits}

-- The value that setJobCpuRate hands to the kernel, in hundredths of a percent: uint32(pct * 100).
abbrev times_hundred : ℤ → ℤ
times_hundred (pos n) = pos (n * 100)
times_hundred (negsuc n) = negsuc (n * 100 + 99)

unfoldable pub cpu_rate : ℤ → ℕ
cpu_rate percent =
    let rate = to_uint 32 (times_hundred percent) in
    let at_least = if ltb rate 1 then 1 else rate in if ltb 10000 at_least then 10000 else at_least

-- A handle of a job or of a process, as a number; 0 is no job.
abbrev pub Handle : Type 0
Handle = ℕ

-- The fields of jobObjectExtendedLimitInformation that the program sets; the others are zero.
pub record ExtendedLimits : Type 0 where
  pub limit_flags : ℕ
  pub per_job_user_time_limit : ℕ
  pub process_memory_limit : ℕ

pub record CpuRateControl : Type 0 where
  pub control_flags : ℕ
  pub value : ℕ

-- The structure of an information class: 9 or 15.
pub data Information : Type 0 where
  extended_limit : ExtendedLimits → Information
  cpu_rate_control : CpuRateControl → Information

pub data Call : Type 0 where
  start_suspended create_job_object : Call
  set_information_job_object : Handle → Information → Call
  -- the access flags and the process id
  open_process : ℕ → ℕ → Call
  -- the job and the process
  assign_process_to_job_object : Handle → Handle → Call
  nt_resume_process : Handle → Call
  close_handle : Handle → Call

pub data Started : Type 0 where
  start_failed : Str → Started
  -- The job that the returned cleanup closes, if there is one.
  running : Option Handle → Started

abbrev job_limit_job_time : ℕ
job_limit_job_time = 0x4

-- jobObjectLimitProcessMemory | jobObjectLimitKillOnJobClose, two different bits.
abbrev base_limit_flags : ℕ
base_limit_flags = 0x100 + 0x2000

-- The structure that setJobResourceLimits fills; the three flags are different bits, so | is a sum.
unfoldable pub extended_limits : ℕ → ℕ → ExtendedLimits
extended_limits memory_bytes cpu_time_limit_100ns =
    if ltb 0 cpu_time_limit_100ns
    then record {
      limit_flags = base_limit_flags + job_limit_job_time;
      per_job_user_time_limit = cpu_time_limit_100ns;
      process_memory_limit = memory_bytes;
    }
    else record {
      limit_flags = base_limit_flags;
      per_job_user_time_limit = 0;
      process_memory_limit = memory_bytes;
    }

abbrev pub set_job_resource_limits : Handle → ℕ → ℕ → List Call
set_job_resource_limits job memory_bytes cpu_time_limit_100ns =
    set_information_job_object job
      (extended_limit (extended_limits memory_bytes cpu_time_limit_100ns))
    ∷ []

-- jobObjectCpuRateControlEnable | jobObjectCpuRateControlHardCap
abbrev pub set_job_cpu_rate : Handle → ℤ → List Call
set_job_cpu_rate job cpu_percent =
    set_information_job_object job
      (cpu_rate_control (record { control_flags = 0x1 + 0x4; value = cpu_rate cpu_percent }))
    ∷ []

-- processSetQuota | processTerminate; `opened` is the handle that OpenProcess gives.
unfoldable pub assign_to_job : Option Handle → Handle → ℕ → List Call
assign_to_job none job pid = open_process (0x100 + 0x1) pid ∷ []
assign_to_job (some h) job pid =
    open_process (0x100 + 0x1) pid ∷ assign_process_to_job_object job h ∷ close_handle h ∷ []

unfoldable pub resume_process : Option Handle → ℕ → List Call
resume_process none pid = open_process 0x800 pid ∷ []
resume_process (some h) pid = open_process 0x800 pid ∷ nt_resume_process h ∷ close_handle h ∷ []

-- What the calls give: the process id or the error of cmd.Start, the job if it is made, and the handles
-- of the two calls of OpenProcess. `ticks` is the floating-point computation of cpuTime100ns from the timeout
-- in seconds and the percentage, at least 10000000.
pub record Answers : Type 0 where
  pub ticks : ℕ → ℤ → ℕ
  pub start : Result ℕ
  pub create_job : Option Handle
  pub open_to_assign : Option Handle
  pub open_to_resume : Option Handle

abbrev with_job : Answers → ResourceLimits → ℕ → ℕ → Option Handle → List Call × Started
with_job os limits timeout_sec pid none =
    (start_suspended ∷ create_job_object ∷ resume_process os.open_to_resume pid, running none)
with_job os limits timeout_sec pid (some job) = (
  start_suspended
      ∷ create_job_object
      ∷ (set_job_resource_limits job (to_uint 64 limits.max_memory_mb * 1024 * 1024 % 2 ^ 64)
            (os.ticks timeout_sec limits.max_cpu_percent)
          ++ (set_job_cpu_rate job limits.max_cpu_percent
              ++ (assign_to_job os.open_to_assign job pid
                  ++ resume_process os.open_to_resume pid))),
  running (some job),
)

abbrev started_with : Answers → ResourceLimits → ℕ → Result ℕ → List Call × Started
started_with os limits timeout_sec (err e) = (start_suspended ∷ [], start_failed e)
started_with os limits timeout_sec (ok pid) = with_job os limits timeout_sec pid os.create_job

unfoldable pub start_with_limits : Answers → ResourceLimits → ℕ → List Call × Started
start_with_limits os limits timeout_sec = started_with os limits timeout_sec os.start
