-- ===== src/Ownership/Outcomes.antt =====
-- What each action of the tracer comes to, in a state where the records are in order.
use mathlib.Core.Path.{subst}
use iotrace.Base.{
  ◌≡◌, ◌⊎◌, refl, false, none, [], ◌∷◌, ℤ, eq_ℤ, eq_ℤ_iff, to_int, sym, inl, inr, Bool-cases,
  Option-cases,
}
use iotrace.Glib.{Glib}
use iotrace.Double.{Double}
use iotrace.FdTable.Refinement.{run}
use iotrace.Tracer.{State}
use iotrace.SyscallHandler.Sys
use iotrace.SyscallHandler.Stop.{Stop, rax, elapsed}
use iotrace.SyscallHandler.Dispatch.{handle_syscall_return, apply_unconsidered}
use iotrace.SyscallHandler.Considered.{kind}
use iotrace.SyscallHandler.Returns.{dispatch, returns}
use iotrace.SyscallHandler.Others.{
  other_ops, counted, Ends, unconsidered-counted, handle_syscall_return-other,
}
use iotrace.Ownership.Sound.{IsSound}
use iotrace.Ownership.Actions.{
  Action, calls, returns_from, execs_late, begins_with, ends, switches, act, Stops, IsAllowed,
  GoesOn, Misses, Outcome,
}
use iotrace.Ownership.Continues.{
  switch-GoesOn, execve-GoesOn, considered-GoesOn, table-IsSound, call-GoesOn,
}
use iotrace.Ownership.Late.{late-GoesOn}
use iotrace.Ownership.Lives.{begin-GoesOn, end-GoesOn}

module _ ⦃g : Glib⦄ ⦃d : Double⦄ (s : State) (h : IsSound s) where
  other-Outcome :
      (tracee sc : ℤ) (stop : Stop) (st : Stops s tracee stop)
      → kind sc ≡ none
      → eq_ℤ sc Sys.execve ≡ false
      → GoesOn (handle_syscall_return stop tracee sc s)
        ⊎ Misses s tracee sc stop (handle_syscall_return stop tracee sc s)
  other-Outcome tracee sc stop st e x =
      let is = h.held tracee st.tmps st.found in
      let seen = counted s ((sc, elapsed st.tmps.start_time st.now) ∷ []) in
      let r = handle_syscall_return stop tracee sc s in
      let (ends_so, refused) =
        handle_syscall_return-other s tracee st.tmps is.files
          (record { found = st.found; table = is.table; mutex = is.mutex }) stop st.now st.clock sc
          e x in
      elim (Option-cases (run is.files (other_ops sc st.tmps (to_int (stop.peek_user rax))))) [
        | inl o ↦ inr (record {
          tmps = st.tmps;
          found = st.found;
          files = is.files;
          table = is.table;
          misses = refused.0 (subst (λ p. Ends seen st.tmps.fd_table p r) o ends_so);
          faults = subst (λ p. Ends seen st.tmps.fd_table p r) o ends_so;
        })
        | inr (t', o) ↦ inl (
          _,
          subst (λ p. Ends seen st.tmps.fd_table p r) o ends_so,
          table-IsSound s h tracee st.tmps t' _ st.found refl refl refl refl refl,
        )
      ]

module _ ⦃g : Glib⦄ ⦃d : Double⦄ (s : State) (h : IsSound s) where
  execve-Outcome :
      (tracee : ℤ) (stop : Stop)
      → Stops s tracee stop
      → GoesOn (handle_syscall_return stop tracee Sys.execve s)
  unfolding apply_unconsidered
  execve-Outcome tracee stop st =
      let is = h.held tracee st.tmps st.found in
      let seen = counted s ((Sys.execve, elapsed st.tmps.start_time st.now) ∷ []) in
      rw
        (
          dispatch stop tracee Sys.execve s,
          returns,
          unconsidered-counted s tracee st.tmps is.files
              (record { found = st.found; table = is.table; mutex = is.mutex }) stop st.now st.clock
              Sys.execve,
        )
        (execve-GoesOn seen (switch-GoesOn s h s.file_stat_table seen.syscall_table) tracee st.tmps
          st.found)

  return-Outcome :
      (tracee sc : ℤ) (stop : Stop)
      → Stops s tracee stop
      → GoesOn (handle_syscall_return stop tracee sc s)
        ⊎ Misses s tracee sc stop (handle_syscall_return stop tracee sc s)
  return-Outcome tracee sc stop st = elim (Option-cases (kind sc)) [
    | inr (k, e) ↦ inl (considered-GoesOn s h tracee sc stop st k e)
    | inl e ↦ elim (Bool-cases (eq_ℤ sc Sys.execve)) [
      | inl x ↦ inl (
          subst (λ n. GoesOn (handle_syscall_return stop tracee n s))
            (sym ((eq_ℤ_iff sc Sys.execve).0 x)) (execve-Outcome tracee stop st))
      | inr x ↦ other-Outcome s h tracee sc stop st e x
    ]
  ]

  -- Any action that can be, in a state where the records are in order, also what follows the test of
  -- the count at the return of execve where the others have left the table since: it comes to its end,
  -- with the records in order again, so that no table, count or mutex is read, locked or freed after it
  -- was freed, and no mutex stays locked. The only faults are at the return of dup, dup2, dup3, fcntl or
  -- ioctl that asks for the entry of a descriptor which the table does not hold, or, for TIOCGPTPEER,
  -- for one with a name of 256 bytes or more.
  pub act-Outcome : (a : Action) → IsAllowed s a → Outcome s a (act a s)
  act-Outcome (calls tracee sc stop) c = call-GoesOn s h tracee sc stop c
  act-Outcome (returns_from tracee sc stop) st = return-Outcome tracee sc stop st
  act-Outcome (execs_late tracee) (tmps, found) = late-GoesOn s h tracee tmps found
  act-Outcome (begins_with raw child parent flags) (tmps, found, new) =
      begin-GoesOn s h raw child parent flags tmps found new
  act-Outcome (ends tracee files sums) (tmps, found) = end-GoesOn s h tracee files sums tmps found
  act-Outcome (switches files sums) p = (_, refl, switch-GoesOn s h files sums)
