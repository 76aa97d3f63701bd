-- ===== src/Main/End.antt =====
-- The end of a thread in src/main.c: what becomes of the table of file descriptors.
use iotrace.Base.{ℕ, ◌-◌, ◌<◌, ◌≡◌, none, some, false, arith, ℤ}
use iotrace.Glib.{Glib}
use iotrace.Glib.Keys.{int_key}
use iotrace.Double.{Double}
use iotrace.FdTable.{FdTable}
use iotrace.FileStat
use iotrace.FileStat.{FileStatTable}
use iotrace.SyscallStat
use iotrace.SyscallStat.{SyscallTable}
use iotrace.Tracer.{ThreadTmps, State, ok}
use iotrace.Main.Runs.{IsShared, last_state, left_state, end-last, end-left}
use iotrace.Main.Loop.{tracer_end}

module _ ⦃g : Glib⦄ ⦃d : Double⦄ (s : State) (tracee : ℤ) (tmps : ThreadTmps) (t : FdTable) (n : ℕ)
    (is : IsShared s tracee tmps t n) (files : FileStatTable) (calls : SyscallTable) where
  removed : g.lookup (g.remove s.thread_tmps_table tracee) tracee ≡ none
  removed =
      ground (arith, int_key.same_refl tracee, g.lookup-remove s.thread_tmps_table tracee tracee)

  -- A tracee that is ready, and the last one that has its table, ends: its statistics are merged, its record is gone,
  -- and the table, the count and the mutex are freed.
  pub tracer_end-last :
      n ≡ 1
      → (s' : State) × (tracer_end tracee files calls s
          ≡ ok (FileStat.merge files s.file_stat_table, SyscallStat.merge calls s.syscall_table) s')
        × (g.lookup s'.thread_tmps_table tracee ≡ none)
        × (s'.fd_tables tmps.fd_table ≡ none)
        × (s'.share_counts tmps.share_count ≡ none)
        × (s'.mutexes tmps.fd_mutex ≡ none)
  tracer_end-last one = (
    last_state s tracee tmps t n,
    end-last s tracee tmps t n is files calls one,
    removed,
    ground arith,
    ground arith,
    ground arith,
  )

  -- A tracee that is ready, and one of several that share its table, ends: its statistics are merged and its record is gone;
  -- the table and the mutex stay as they are for the others, who are one less.
  pub tracer_end-shared :
      1 < n
      → (s' : State) × (tracer_end tracee files calls s
          ≡ ok (FileStat.merge files s.file_stat_table, SyscallStat.merge calls s.syscall_table) s')
        × (g.lookup s'.thread_tmps_table tracee ≡ none)
        × (s'.fd_tables tmps.fd_table ≡ some t)
        × (s'.share_counts tmps.share_count ≡ some (n - 1))
        × (s'.mutexes tmps.fd_mutex ≡ some false)
  tracer_end-shared more = (
    left_state s tracee tmps t n,
    end-left s tracee tmps t n is files calls more,
    removed,
    is.table,
    ground arith,
    is.mutex,
  )
