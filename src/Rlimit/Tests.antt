-- ===== src/Rlimit/Tests.antt =====
-- Runs of the limits, and the theorems at concrete inputs.
use jig_mcp.Prelude.{◌≡◌, refl, Str, Option, none, some, ltb, if◌then◌else◌, arith, [], ◌∷◌}
use jig_mcp.Prelude.Int.{pos}
use jig_mcp.Prelude.Result.{ok}
use jig_mcp.Rlimit.{effective_limits}
use jig_mcp.Rlimit.Unix.{Rlimit, ProcessLimits, memory_bytes, both, start_with_limits}
use jig_mcp.Rlimit.Unix.Laws.{start_with_limits_sticks}
use jig_mcp.Rlimit.Windows
use jig_mcp.Rlimit.Windows.{
  Answers, extended_limit, cpu_rate_control, extended_limits, assign_to_job, resume_process,
}

abbrev unlimited : ProcessLimits
unlimited = record { data_limit = both 1000000000000; cpu_limit = both 1000000 }

-- A kernel that grants everything, and one that never raises a hard limit.
abbrev grant : Rlimit → Rlimit → Rlimit
grant now wanted = wanted

abbrev never_raise : Rlimit → Rlimit → Rlimit
never_raise now wanted = if ltb now.max wanted.max then now else wanted

abbrev starts : ProcessLimits → Option Str
starts limits = none

abbrev small_child : ProcessLimits
small_child = record { data_limit = both 536870912; cpu_limit = both 27 }

start_with_limits_sticks_example :
    (start_with_limits some never_raise starts
      (record { max_memory_mb = pos 512; max_cpu_percent = pos 90 })
      30
      unlimited).0.data_limit
    ≡ both (memory_bytes (pos 512))
unfolding memory_bytes
start_with_limits_sticks_example =
    start_with_limits_sticks some never_raise starts 512 (pos 90) 30 unlimited (λ l. refl)
      (λ now wanted fits lower. ground arith) (λ now wanted above. ground arith) (omega arith)

abbrev answers : Answers
answers = record {
  ticks = λ t p. 150000000;
  start = ok 7;
  create_job = some 3;
  open_to_assign = some 21;
  open_to_resume = some 22;
}

windows_run : Windows.start_with_limits answers (effective_limits (pos 1) (pos 50)) 30 ≡ (
  Windows.start_suspended
      ∷ Windows.create_job_object
      ∷ Windows.set_information_job_object 3 (
          extended_limit (record {
            limit_flags = 0x2104;
            per_job_user_time_limit = 150000000;
            process_memory_limit = 1048576;
          }))
      ∷ Windows.set_information_job_object 3
          (cpu_rate_control (record { control_flags = 5; value = 5000 }))
      ∷ Windows.open_process 0x101 7
      ∷ Windows.assign_process_to_job_object 3 21
      ∷ Windows.close_handle 21
      ∷ Windows.open_process 0x800 7
      ∷ Windows.nt_resume_process 22
      ∷ Windows.close_handle 22
      ∷ [],
  Windows.running (some 3),
)
unfolding effective_limits Windows.start_with_limits Windows.cpu_rate extended_limits assign_to_job
    resume_process
windows_run = refl
