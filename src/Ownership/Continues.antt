-- ===== src/Ownership/Continues.antt =====
-- The actions that come to their end in any state where the records are in order.
use iotrace.Base.{
  ℕ, ◌≡◌, refl, true, false, some, List, arith, ltb, ℤ, eq_ℤ_iff, sym, inl, inr, Bool-cases,
  Option-cases,
}
use iotrace.Glib.{Glib}
use iotrace.Double.{Double}
use iotrace.FdTable.{FdTable}
use iotrace.FileStat.{FileStatTable}
use iotrace.SyscallStat.{SyscallTable}
use iotrace.Tracer.{Timespec, ThreadTmps, State, Run}
use iotrace.Tracer.Memory.{update}
use iotrace.Tracer.Ready.{relock, update_same}
use iotrace.SyscallHandler.Stop.{Stop}
use iotrace.SyscallHandler.Unconsidered.{handle_execve_return}
use iotrace.SyscallHandler.Dispatch.{handle_syscall_call, handle_syscall_return}
use iotrace.SyscallHandler.Considered.{
  Considered, open_named, open_at, close, read, write, socket, socketpair, pipe, eventfd, epoll,
  accept, kind,
}
use iotrace.SyscallHandler.Returns.{handle_syscall_return-effect}
use iotrace.SyscallHandler.Saves.{saved, HasSaved, handle_syscall_call-HasSaved}
use iotrace.SyscallHandler.OtherSaves.{other_saved, handle_syscall_call-other}
use iotrace.Main.Runs.{execve-unshared, execve-cleaned}
use iotrace.Ownership.Sound.{users, IsSame, IsSound, IsSound-IsShared}
use iotrace.Ownership.Preserved.{kept-IsSound, unshared-IsSound}
use iotrace.Ownership.Actions.{Stops, Calls, GoesOn}

pub saved-IsSame :
    (k : Considered) (stop : Stop) (buffer : List ℕ) (now : Timespec) (tmps : ThreadTmps)
    → IsSame tmps (saved k stop buffer now tmps)
saved-IsSame open_named stop buffer now tmps = record { table = refl; count = refl; mutex = refl }
saved-IsSame open_at stop buffer now tmps = record { table = refl; count = refl; mutex = refl }
saved-IsSame close stop buffer now tmps = record { table = refl; count = refl; mutex = refl }
saved-IsSame read stop buffer now tmps = record { table = refl; count = refl; mutex = refl }
saved-IsSame write stop buffer now tmps = record { table = refl; count = refl; mutex = refl }
saved-IsSame socket stop buffer now tmps = record { table = refl; count = refl; mutex = refl }
saved-IsSame socketpair stop buffer now tmps = record { table = refl; count = refl; mutex = refl }
saved-IsSame (pipe false) stop buffer now tmps = record { table = refl; count = refl; mutex = refl }
saved-IsSame (pipe true) stop buffer now tmps = record { table = refl; count = refl; mutex = refl }
saved-IsSame (eventfd false) stop buffer now tmps = record {
  table = refl;
  count = refl;
  mutex = refl;
}
saved-IsSame (eventfd true) stop buffer now tmps = record {
  table = refl;
  count = refl;
  mutex = refl;
}
saved-IsSame (epoll false) stop buffer now tmps = record {
  table = refl;
  count = refl;
  mutex = refl;
}
saved-IsSame (epoll true) stop buffer now tmps = record { table = refl; count = refl; mutex = refl }
saved-IsSame (accept false) stop buffer now tmps = record {
  table = refl;
  count = refl;
  mutex = refl;
}
saved-IsSame (accept true) stop buffer now tmps = record {
  table = refl;
  count = refl;
  mutex = refl;
}

pub other_saved-IsSame :
    (sc : ℤ) (stop : Stop) (now : Timespec) (tmps : ThreadTmps)
    → IsSame tmps (other_saved sc stop now tmps)
other_saved-IsSame sc stop now tmps = record {
  table = ground arith;
  count = ground arith;
  mutex = ground arith;
}

module _ ⦃g : Glib⦄ ⦃d : Double⦄ (s : State) (h : IsSound s) where
  -- What a call has saved keeps the invariant.
  saved-GoesOn :
      (tracee : ℤ) (tmps tmps' : ThreadTmps) (r : Run (Unit {0}))
      → g.lookup s.thread_tmps_table tracee ≡ some tmps
      → IsSame tmps tmps'
      → HasSaved s tracee tmps' r
      → GoesOn r
  saved-GoesOn tracee tmps tmps' r found same has =
      let is = h.held tracee tmps found in
      (
        record s { thread_tmps_table = has.table },
        has.runs,
        kept-IsSound s h tracee tmps found (record s { thread_tmps_table = has.table }) tmps'
            is.files same (λ j. ground (arith, has.own, has.others j, eq_ℤ_iff tracee j)) refl
            (sym (update_same s.fd_tables tmps.fd_table is.table)) refl refl,
      )

  -- A return that changed the statistics, and the table of the tracee.
  pub table-IsSound :
      (tracee : ℤ) (tmps : ThreadTmps) (t : FdTable) (s' : State)
      → g.lookup s.thread_tmps_table tracee ≡ some tmps
      → s'.thread_tmps_table ≡ s.thread_tmps_table
      → s'.next ≡ s.next
      → s'.fd_tables ≡ update s.fd_tables tmps.fd_table (some t)
      → s'.mutexes ≡ s.mutexes
      → s'.share_counts ≡ s.share_counts
      → IsSound s'
  table-IsSound tracee tmps t s' found same en ef em ec =
      kept-IsSound s h tracee tmps found s' tmps t
        (record { table = refl; count = refl; mutex = refl })
        (λ j. ground (arith, same, found, eq_ℤ_iff tracee j)) en ef em ec

  pub call-GoesOn :
      (tracee sc : ℤ) (stop : Stop)
      → Calls s tracee sc stop
      → GoesOn (handle_syscall_call stop tracee sc s)
  call-GoesOn tracee sc stop c =
      let st = c.stops in
      elim (Option-cases (kind sc)) [
        | inl e ↦
            saved-GoesOn tracee st.tmps _ _ st.found (other_saved-IsSame sc stop st.now st.tmps)
              (handle_syscall_call-other s tracee st.tmps st.found stop st.now st.clock sc e)
        | inr (k, e) ↦
            let (buffer, name) = c.named k e in
            saved-GoesOn tracee st.tmps _ _ st.found (saved-IsSame k stop buffer st.now st.tmps) (
              handle_syscall_call-HasSaved s tracee st.tmps st.found stop st.now st.clock buffer sc
                k e name)
      ]

  pub switch-GoesOn :
      (files : FileStatTable) (sums : SyscallTable)
      → IsSound (record s { file_stat_table = files; syscall_table = sums })
  switch-GoesOn files sums = record {
    held = λ i a e.
        let ha = h.held i a e in
        record {
          files = ha.files;
          table = ha.table;
          mutex = ha.mutex;
          count = ha.count;
          old_table = ha.old_table;
          old_mutex = ha.old_mutex;
          old_count = ha.old_count;
        };
    agreed = h.agreed;
    owners = record {
      table = λ p t e.
          let w = h.owners.table p t e in
          record { tracee = w.tracee; tmps = w.tmps; found = w.found; points = w.points };
      count = λ p n e.
          let w = h.owners.count p n e in
          record { tracee = w.tracee; tmps = w.tmps; found = w.found; points = w.points };
      mutex = λ p b e.
          let w = h.owners.mutex p b e in
          record { tracee = w.tracee; tmps = w.tmps; found = w.found; points = w.points };
    };
  }

  pub execve-GoesOn :
      (tracee : ℤ) (tmps : ThreadTmps)
      → g.lookup s.thread_tmps_table tracee ≡ some tmps
      → GoesOn (handle_execve_return tracee s)
  execve-GoesOn tracee tmps found =
      let (t, is) = IsSound-IsShared s tracee tmps h found in
      let n = users s tmps.share_count in
      elim (Bool-cases (ltb 1 n)) [
        | inl more ↦ (
          _,
          execve-unshared s tracee tmps t n is (ground (arith, more)),
          unshared-IsSound s h tracee tmps found t (ground (arith, more)),
        )
        | inr few ↦ (
          _,
          execve-cleaned s tracee tmps t n is (ground (arith, few)),
          table-IsSound tracee tmps _ _ found refl refl refl
              (relock s.mutexes tmps.fd_mutex is.mutex) refl,
        )
      ]

  pub considered-GoesOn :
      (tracee sc : ℤ) (stop : Stop) (st : Stops s tracee stop) (k : Considered)
      → kind sc ≡ some k
      → GoesOn (handle_syscall_return stop tracee sc s)
  considered-GoesOn tracee sc stop st k e =
      let is = h.held tracee st.tmps st.found in
      let (t', ops, runs) =
        handle_syscall_return-effect s tracee st.tmps is.files
          (record { found = st.found; table = is.table; mutex = is.mutex }) stop st.now st.clock sc
          k e in
      (_, runs, table-IsSound tracee st.tmps t' _ st.found refl refl refl refl refl)
