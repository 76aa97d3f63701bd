-- ===== src/Main/Runs.antt =====
-- The states that new tracees, `execve` and ends of threads lead to, when tables are shared.
use iotrace.Base.{ℕ, ◌+◌, ◌-◌, ◌<◌, ◌≤◌, Bool, Option, ◌≡◌, true, false, none, some, arith, ℤ}
use iotrace.Glib.{Glib}
use iotrace.Glib.Keys.{int_key}
use iotrace.Double.{Double}
use iotrace.FdTable.{FdTable, deep_copy, remove_cloexec}
use iotrace.Tracer.{Address, ThreadTmps, State, Run, ok, and_then}
use iotrace.Tracer.Memory.{update}
use iotrace.Tracer.Locked.{fd_table_deep_copy, fd_table_remove_cloexec}
use iotrace.SyscallHandler.Unconsidered.{after_test, handle_execve_return}
use iotrace.Main.Threads.{shares_files, threads_add, thread_begin}
use iotrace.FileStat
use iotrace.FileStat.{FileStatTable}
use iotrace.SyscallStat
use iotrace.SyscallStat.{SyscallTable}
use iotrace.Main.Loop.{tracer_end}

module _ ⦃g : Glib⦄ ⦃d : Double⦄ where
  -- A tracee that is ready, with a count `n` of the records that share its table, and addresses that
  -- are not those which the next allocations return.
  pub record IsShared (s : State) (tracee : ℤ) (tmps : ThreadTmps) (t : FdTable) (n : ℕ)
      : Type 0 where
    pub found : g.lookup s.thread_tmps_table tracee ≡ some tmps
    pub table : s.fd_tables tmps.fd_table ≡ some t
    pub mutex : s.mutexes tmps.fd_mutex ≡ some false
    pub count : s.share_counts tmps.share_count ≡ some n
    pub old_table : tmps.fd_table < s.next
    pub old_mutex : tmps.fd_mutex < s.next
    pub old_count : tmps.share_count < s.next

-- The records and the states that follow.
module _ ⦃g : Glib⦄ ⦃d : Double⦄ (s : State) (tracee : ℤ) (tmps : ThreadTmps) (t : FdTable)
    (n : ℕ) where
  -- The record of one that shares with the tracee, and of one that is alone with new addresses.
  abbrev pub joined : ThreadTmps → ThreadTmps
  joined raw = record raw {
    fd_table = tmps.fd_table;
    share_count = tmps.share_count;
    fd_mutex = tmps.fd_mutex;
  }

  abbrev pub alone : ThreadTmps → ThreadTmps
  alone raw = record raw { fd_table = s.next; share_count = s.next + 1; fd_mutex = s.next + 1 + 1 }

  abbrev relocked : Address → Option Bool
  relocked = update (update s.mutexes tmps.fd_mutex (some true)) tmps.fd_mutex (some false)

  abbrev pub joined_state : ThreadTmps → ℤ → State
  joined_state raw child = record s {
    share_counts = update s.share_counts tmps.share_count (some (n + 1));
    thread_tmps_table = g.insert s.thread_tmps_table child (joined raw);
  }

  abbrev pub copied_state : ThreadTmps → ℤ → State
  copied_state raw child = record s {
    next = s.next + 1 + 1 + 1;
    fd_tables = update s.fd_tables s.next (some (deep_copy t));
    share_counts = update (update s.share_counts (s.next + 1) (some 0)) (s.next + 1) (some 1);
    mutexes = update relocked (s.next + 1 + 1) (some false);
    thread_tmps_table = g.insert s.thread_tmps_table child (alone raw);
  }

  abbrev pub unshared_state : State
  unshared_state = record s {
    next = s.next + 1 + 1 + 1;
    fd_tables =
        update (update s.fd_tables s.next (some (deep_copy t))) s.next
          (some (remove_cloexec (deep_copy t)));
    share_counts =
        update
          (update (update s.share_counts tmps.share_count (some (n - 1))) (s.next + 1) (some 0))
          (s.next + 1) (some 1);
    mutexes =
        update (update (update relocked (s.next + 1 + 1) (some false)) (s.next + 1 + 1) (some true))
          (s.next + 1 + 1) (some false);
    thread_tmps_table = g.modify s.thread_tmps_table tracee alone;
  }

  -- The record that takes over the count and the mutex, and the state, where all others have left.
  abbrev pub taking : ThreadTmps → ThreadTmps
  taking raw = record raw {
    fd_table = s.next;
    share_count = tmps.share_count;
    fd_mutex = tmps.fd_mutex;
  }

  abbrev pub taken_state : State
  taken_state = record s {
    next = s.next + 1;
    fd_tables =
        update (update (update s.fd_tables s.next (some (deep_copy t))) tmps.fd_table none) s.next
          (some (remove_cloexec (deep_copy t)));
    share_counts =
        update (update s.share_counts tmps.share_count (some 0)) tmps.share_count (some 1);
    mutexes = update (update relocked tmps.fd_mutex (some true)) tmps.fd_mutex (some false);
    thread_tmps_table = g.modify s.thread_tmps_table tracee taking;
  }

  abbrev pub cleaned_state : State
  cleaned_state = record s {
    fd_tables = update s.fd_tables tmps.fd_table (some (remove_cloexec t));
    mutexes = relocked;
  }

  abbrev pub last_state : State
  last_state = record s {
    fd_tables = update s.fd_tables tmps.fd_table none;
    share_counts = update (update s.share_counts tmps.share_count (some 0)) tmps.share_count none;
    mutexes = update s.mutexes tmps.fd_mutex none;
    thread_tmps_table = g.remove s.thread_tmps_table tracee;
  }

  abbrev pub left_state : State
  left_state = record s {
    share_counts = update s.share_counts tmps.share_count (some (n - 1));
    thread_tmps_table = g.remove s.thread_tmps_table tracee;
  }

module _ ⦃g : Glib⦄ ⦃d : Double⦄ (s : State) (tracee : ℤ) (tmps : ThreadTmps) (t : FdTable) (n : ℕ)
    (is : IsShared s tracee tmps t n) where
  abbrev pub begins : ThreadTmps → ℤ → ℤ → Run (Unit {0})
  begins raw child flags = and_then (threads_add child tracee flags s) (thread_begin raw)

  pub begins-joined :
      (raw : ThreadTmps) (child flags : ℤ)
      → shares_files flags ≡ true
      → g.lookup s.thread_tmps_table child ≡ none
      → begins raw child flags ≡ ok tt (joined_state s tracee tmps t n raw child)
  unfolding threads_add thread_begin
  begins-joined raw child flags f new = ground (arith, is.found, is.count, new)

  pub begins-copied :
      (raw : ThreadTmps) (child flags : ℤ)
      → shares_files flags ≡ false
      → g.lookup s.thread_tmps_table child ≡ none
      → begins raw child flags ≡ ok tt (copied_state s tracee tmps t n raw child)
  unfolding threads_add thread_begin
  begins-copied raw child flags f new = ground (arith, is.found, is.table, is.mutex, new)

  pub alone-lookup :
      g.lookup (g.modify s.thread_tmps_table tracee (alone s tracee tmps t n)) tracee
      ≡ some (alone s tracee tmps t n tmps)
  alone-lookup = ground (
    arith,
    is.found,
    int_key.same_refl tracee,
    g.lookup-modify s.thread_tmps_table tracee (alone s tracee tmps t n) tracee,
  )

  pub execve-unshared :
      1 < n → handle_execve_return tracee s ≡ ok tt (unshared_state s tracee tmps t n)
  unfolding handle_execve_return fd_table_deep_copy fd_table_remove_cloexec
  execve-unshared more = ground (arith, is.found, is.table, is.mutex, is.count, alone-lookup)

  pub taking-lookup :
      g.lookup (g.modify s.thread_tmps_table tracee (taking s tracee tmps t n)) tracee
      ≡ some (taking s tracee tmps t n tmps)
  taking-lookup = ground (
    arith,
    is.found,
    int_key.same_refl tracee,
    g.lookup-modify s.thread_tmps_table tracee (taking s tracee tmps t n) tracee,
  )

  -- After a test that found the table shared: it is still, or all others have left.
  pub late-unshared : 1 < n → after_test tracee true s ≡ ok tt (unshared_state s tracee tmps t n)
  unfolding after_test fd_table_deep_copy fd_table_remove_cloexec
  late-unshared more = ground (arith, is.found, is.table, is.mutex, is.count, alone-lookup)

  pub late-taken : n ≡ 1 → after_test tracee true s ≡ ok tt (taken_state s tracee tmps t n)
  unfolding after_test fd_table_deep_copy fd_table_remove_cloexec
  late-taken one =
      ground (arith, is.found, is.table, is.old_table, is.mutex, is.count, taking-lookup)

  pub execve-cleaned :
      n ≤ 1 → handle_execve_return tracee s ≡ ok tt (cleaned_state s tracee tmps t n)
  unfolding handle_execve_return fd_table_remove_cloexec
  execve-cleaned few = ground (arith, is.found, is.table, is.mutex, is.count)

  -- The statistics of the program, with those of the thread.
  abbrev pub merged : FileStatTable → SyscallTable → FileStatTable × SyscallTable
  merged files calls =
      (FileStat.merge files s.file_stat_table, SyscallStat.merge calls s.syscall_table)

  pub end-last :
      (files : FileStatTable) (calls : SyscallTable)
      → n ≡ 1
      → tracer_end tracee files calls s ≡ ok (merged files calls) (last_state s tracee tmps t n)
  unfolding tracer_end
  end-last files calls one = ground (arith, is.found, is.table, is.mutex, is.count)

  pub end-left :
      (files : FileStatTable) (calls : SyscallTable)
      → 1 < n
      → tracer_end tracee files calls s ≡ ok (merged files calls) (left_state s tracee tmps t n)
  unfolding tracer_end
  end-left files calls more = ground (arith, is.found, is.table, is.mutex, is.count)
