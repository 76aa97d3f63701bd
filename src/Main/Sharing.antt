-- ===== src/Main/Sharing.antt =====
-- How the tables of file descriptors come to be shared by new tracees, and cease to be at `execve`.
use iotrace.Base.{ℕ, ◌+◌, ◌-◌, ◌<◌, ◌≡◌, true, false, none, some, arith, ℤ, eq_ℤ, ap, ◌∙◌}
use iotrace.Glib.{Glib}
use iotrace.Glib.Keys.{int_key}
use iotrace.Double.{Double}
use iotrace.FdTable.{FdTable, deep_copy, remove_cloexec}
use iotrace.FdTable.View.{view, kept, deep_copy-view, remove_cloexec-view}
use iotrace.Tracer.{ThreadTmps, State, ok, fault, and_then}
use iotrace.Tracer.Temporaries.{thread_tmps_remove}
use iotrace.SyscallHandler.Unconsidered.{after_test, handle_execve_return}
use iotrace.Main.Threads.{shares_files, threads_add, thread_begin}
use iotrace.Main.Runs.{
  IsShared, joined, alone, joined_state, copied_state, unshared_state, cleaned_state, begins,
  begins-joined, begins-copied, alone-lookup, execve-unshared, execve-cleaned, taking, taken_state,
  taking-lookup, late-taken,
}

module _ ⦃g : Glib⦄ ⦃d : Double⦄ (s : State) (parent : ℤ) (tmps : ThreadTmps) (t : FdTable) (n : ℕ)
    (is : IsShared s parent tmps t n) where
  abbrev joins : ThreadTmps → ThreadTmps
  joins = joined s parent tmps t n

  abbrev leaves_alone : ThreadTmps → ThreadTmps
  leaves_alone = alone s parent tmps t n

  -- The record of a tracee that takes the count and the mutex over.
  abbrev pub takes : ThreadTmps → ThreadTmps
  takes = taking s parent tmps t n

  kept-copy : (fd : ℤ) → view (remove_cloexec (deep_copy t)) fd ≡ kept (view t fd)
  kept-copy fd = remove_cloexec-view (deep_copy t) fd ∙ ap kept (deep_copy-view t fd)

  -- The parent's record after an insertion for another tracee.
  parent-lookup :
      (child : ℤ) (new : ThreadTmps)
      → eq_ℤ child parent ≡ false
      → g.lookup (g.insert s.thread_tmps_table child new) parent ≡ some tmps
  parent-lookup child new other =
      ground (arith, is.found, other, g.lookup-insert s.thread_tmps_table child new parent)

  child-lookup :
      (child : ℤ) (new : ThreadTmps)
      → g.lookup (g.insert s.thread_tmps_table child new) child ≡ some new
  child-lookup child new =
      ground (arith, int_key.same_refl child, g.lookup-insert s.thread_tmps_table child new child)

  -- A new tracee with CLONE_FILES, of a parent that is ready, and without a record so far: both share
  -- the table, the mutex and the count, which is one more; the parent's record stays.
  pub begins-shares :
      (raw : ThreadTmps) (child flags : ℤ)
      → shares_files flags ≡ true
      → eq_ℤ child parent ≡ false
      → g.lookup s.thread_tmps_table child ≡ none
      → (s' : State) × (begins s parent tmps t n is raw child flags ≡ ok tt s')
        × IsShared s' parent tmps t (n + 1)
        × IsShared s' child (joins raw) t (n + 1)
  begins-shares raw child flags f other new = (
    joined_state s parent tmps t n raw child,
    begins-joined s parent tmps t n is raw child flags f new,
    record {
      found = parent-lookup child (joins raw) other;
      table = is.table;
      mutex = is.mutex;
      count = ground arith;
      old_table = is.old_table;
      old_mutex = is.old_mutex;
      old_count = is.old_count;
    },
    record {
      found = child-lookup child (joins raw);
      table = is.table;
      mutex = is.mutex;
      count = ground arith;
      old_table = is.old_table;
      old_mutex = is.old_mutex;
      old_count = is.old_count;
    },
  )

  -- A new tracee without CLONE_FILES, of a parent that is ready, and without a record so far: it has a
  -- table of its own that holds for each descriptor what its parent's table holds, a mutex and a count
  -- of its own, and is alone with them; the parent has what it had.
  pub begins-copies :
      (raw : ThreadTmps) (child flags : ℤ)
      → shares_files flags ≡ false
      → eq_ℤ child parent ≡ false
      → g.lookup s.thread_tmps_table child ≡ none
      → (s' : State) × (begins s parent tmps t n is raw child flags ≡ ok tt s')
        × IsShared s' parent tmps t n
        × ((t' : FdTable) × IsShared s' child (leaves_alone raw) t' 1
            × ((fd : ℤ) → view t' fd ≡ view t fd))
  begins-copies raw child flags f other new = (
    copied_state s parent tmps t n raw child,
    begins-copied s parent tmps t n is raw child flags f new,
    record {
      found = parent-lookup child (leaves_alone raw) other;
      table = ground (arith, is.table, is.old_table);
      mutex = ground (arith, is.mutex, is.old_mutex);
      count = ground (arith, is.count, is.old_count);
      old_table = omega (arith, is.old_table);
      old_mutex = omega (arith, is.old_mutex);
      old_count = omega (arith, is.old_count);
    },
    (
      deep_copy t,
      record {
        found = child-lookup child (leaves_alone raw);
        table = ground arith;
        mutex = ground arith;
        count = ground arith;
        old_table = omega arith;
        old_mutex = omega arith;
        old_count = omega arith;
      },
      deep_copy-view t,
    ),
  )

  -- The return of `execve` in a tracee that is ready and shares its table with others: it gets a table
  -- that holds what the shared one holds for each descriptor, without the entries that are closed on
  -- exec, a mutex and a count of its own, and is alone with them; the others keep their table as it
  -- was, and are one less.
  pub handle_execve_return-unshares :
      1 < n
      → (s' : State) × (handle_execve_return parent s ≡ ok tt s')
        × ((t' : FdTable) × IsShared s' parent (leaves_alone tmps) t' 1
            × ((fd : ℤ) → view t' fd ≡ kept (view t fd)))
        × (s'.fd_tables tmps.fd_table ≡ some t)
        × (s'.share_counts tmps.share_count ≡ some (n - 1))
        × (s'.mutexes tmps.fd_mutex ≡ some false)
  handle_execve_return-unshares more = (
    unshared_state s parent tmps t n,
    execve-unshared s parent tmps t n is more,
    (
      remove_cloexec (deep_copy t),
      record {
        found = alone-lookup s parent tmps t n is;
        table = ground arith;
        mutex = ground arith;
        count = ground arith;
        old_table = omega arith;
        old_mutex = omega arith;
        old_count = omega arith;
      },
      kept-copy,
    ),
    ground (arith, is.table, is.old_table),
    ground (arith, is.count, is.old_count),
    ground (arith, is.mutex, is.old_mutex),
  )

  -- What follows the test of the count at the return of `execve`, where the tracee is ready, saw that
  -- its table was shared, and all others have left the table since then: it gets a table that holds
  -- what the old one holds for each descriptor, without the entries that are closed on exec; it keeps
  -- the mutex and the count, is alone with them, and the old table is freed.
  pub after_test-late :
      n ≡ 1
      → (s' : State) × (after_test parent true s ≡ ok tt s')
        × ((t' : FdTable) × IsShared s' parent (takes tmps) t' 1
            × ((fd : ℤ) → view t' fd ≡ kept (view t fd)))
        × (s'.fd_tables tmps.fd_table ≡ none)
  after_test-late one = (
    taken_state s parent tmps t n,
    late-taken s parent tmps t n is one,
    (
      remove_cloexec (deep_copy t),
      record {
        found = taking-lookup s parent tmps t n is;
        table = ground arith;
        mutex = ground (arith, is.mutex);
        count = ground (arith, is.count, one);
        old_table = omega arith;
        old_mutex = omega (arith, is.old_mutex);
        old_count = omega (arith, is.old_count);
      },
      kept-copy,
    ),
    ground (arith, is.old_table),
  )

  -- The return of `execve` in a tracee that is ready and alone with its table: the close-on-exec
  -- entries are removed there.
  pub handle_execve_return-alone :
      n ≡ 1
      → (s' : State) × (handle_execve_return parent s ≡ ok tt s')
        × IsShared s' parent tmps (remove_cloexec t) 1
  handle_execve_return-alone one = (
    cleaned_state s parent tmps t n,
    execve-cleaned s parent tmps t n is (omega arith),
    record {
      found = is.found;
      table = ground arith;
      mutex = ground arith;
      count = ground (arith, is.count);
      old_table = is.old_table;
      old_mutex = is.old_mutex;
      old_count = is.old_count;
    },
  )

  -- Where the parent, which is ready, is alone with its table and ends between `threads_add` with CLONE_FILES and the
  -- beginning of the new thread, the table, the count and the mutex are freed with the parent's
  -- record, and the new thread faults: the count is raised too late.
  pub begins-late :
      (raw : ThreadTmps) (child flags : ℤ)
      → n ≡ 1
      → shares_files flags ≡ true
      → and_then
          (threads_add child parent flags s)
          (λ start s'. and_then (thread_tmps_remove parent s') (λ _. thread_begin raw start))
        ≡ fault
  unfolding threads_add thread_begin thread_tmps_remove
  begins-late raw child flags one f = ground (arith, is.found, is.table, is.mutex, is.count)
