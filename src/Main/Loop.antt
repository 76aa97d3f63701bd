-- ===== src/Main/Loop.antt =====
-- The loop of `start_tracer` in src/main.c, and what a thread does after it.
use iotrace.Base.{ℕ, none, some, List, [], ◌∷◌, if◌then◌else◌, ℤ, to_int}
use iotrace.Glib.{Glib}
use iotrace.Double.{Double}
use iotrace.FileStat
use iotrace.FileStat.{FileStatTable}
use iotrace.SyscallStat
use iotrace.SyscallStat.{SyscallTable}
use iotrace.Tracer.{Cmd, pure, gets, ◌>>=◌, ◌>>◌}
use iotrace.Tracer.Temporaries.{thread_tmps_remove}
use iotrace.SyscallHandler.Stop.{Stop}
use iotrace.SyscallHandler.Dispatch.{handle_syscall_call, handle_syscall_return}
use iotrace.Main.Wait.{Wait, wait_loop}

-- What one round of the loop meets: the answers of the two waits, the number of the call, and what
-- is read at the two stops. `junk` is what the variable for the status holds at first.
pub record Turn : Type 0 where
  pub junk : ℕ
  pub call_waits : List Wait
  pub orig_rax : ℤ
  pub call : Stop
  pub return_waits : List Wait
  pub return : Stop

-- The end of a wait: go on, or leave the loop, or wait longer.
pub data Next : Type 0 where
  goes_on leaves waits : Next

module _ ⦃g : Glib⦄ ⦃d : Double⦄ where
  abbrev pub wait_for_syscall : ℤ → ℕ → List Wait → Cmd Next
  wait_for_syscall tracee junk answers = do
    waited ← wait_loop tracee junk answers
    pure (elim waited.outcome [ none ↦ waits | some exited ↦ if exited then leaves else goes_on ])

  -- The loop, round by round, as long as it is not left; `none` where there are no more rounds.
  unfoldable pub tracer_loop : ℤ → List Turn → Cmd Next
  unfolding wait_loop
  tracer_loop tracee [] = pure waits
  tracer_loop tracee (r ∷ rs) = do
    let syscall = to_int r.orig_rax
    called ← wait_for_syscall tracee r.junk r.call_waits
    elim called [
      | leaves ↦ pure leaves
      | waits ↦ pure waits
      | goes_on ↦ (do
        handle_syscall_call r.call tracee syscall
        returned ← wait_for_syscall tracee r.junk r.return_waits
        elim returned [
          | leaves ↦ pure leaves
          | waits ↦ pure waits
          | goes_on ↦ (do handle_syscall_return r.return tracee syscall; tracer_loop tracee rs)
        ])
    ]

  -- After the loop the tables of the thread are merged into those of the program, and the record goes.
  unfoldable pub tracer_end : ℤ → FileStatTable → SyscallTable → Cmd (FileStatTable × SyscallTable)
  unfolding thread_tmps_remove
  tracer_end tracee main_file_stat_table main_syscall_table = do
    file_stat_table ← gets (λ s. s.file_stat_table)
    syscall_table ← gets (λ s. s.syscall_table)
    thread_tmps_remove tracee
    pure (
      FileStat.merge main_file_stat_table file_stat_table,
      SyscallStat.merge main_syscall_table syscall_table,
    )
