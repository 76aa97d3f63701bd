-- ===== src/Main/Threads.antt =====
-- `threads_add` and the beginning of `thread_func` in src/main.c. The list of threads, which are joined
-- at the end, and their number are left out.
use iotrace.Base.{Bool, Option, none, some, if◌then◌else◌, ℤ, has_bit}
use iotrace.Glib.{Glib}
use iotrace.Double.{Double}
use iotrace.Tracer.{Address, ThreadTmps, Cmd, pure, ◌>>=◌}
use iotrace.Tracer.Locked.{fd_table_deep_copy}
use iotrace.Tracer.Temporaries.{thread_tmps_insert}
use iotrace.SyscallHandler.Stop.{find_tmps}

-- `thread_start_data`; the count and the mutex are both NULL or neither.
pub record ThreadStart : Type 0 where
  pub tracee : ℤ
  pub fd_table : Address
  pub shared : Option (Address × Address)

-- `(clone_flags & CLONE_FILES) != 0`.
abbrev pub shares_files : ℤ → Bool
shares_files clone_flags = has_bit clone_flags 10

module _ ⦃g : Glib⦄ ⦃d : Double⦄ where
  unfoldable pub threads_add : ℤ → ℤ → ℤ → Cmd ThreadStart
  unfolding find_tmps fd_table_deep_copy
  threads_add tracee parents_tracee clone_flags = do
    tmps ← find_tmps parents_tracee
    if shares_files clone_flags
        then pure (record {
          tracee = tracee;
          fd_table = tmps.fd_table;
          shared = some (tmps.share_count, tmps.fd_mutex);
        })
        else (do
          fd_table ← fd_table_deep_copy tmps.fd_table tmps.fd_mutex
          pure (record { tracee = tracee; fd_table = fd_table; shared = none }))

  -- The insertion at the beginning of `thread_func`.
  unfoldable pub thread_begin : ThreadTmps → ThreadStart → Cmd (Unit {0})
  unfolding thread_tmps_insert
  thread_begin raw start = thread_tmps_insert raw start.tracee start.fd_table start.shared
