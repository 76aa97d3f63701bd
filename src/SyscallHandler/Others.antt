-- ===== src/SyscallHandler/Others.antt =====
-- The returns of the calls that are not in the statistics of files: each is counted, and some change
-- the table of descriptors.
use iotrace.Base.{
  ◌≡◌, refl, true, false, not, ◌&&◌, Option, none, some, List, [], ◌∷◌, arith, if◌then◌else◌, ℤ,
  negsuc, eq_ℤ, nonneg, to_int, Bool-cases, inl, inr, length, ◌≤◌, ◌↔◌,
}
use iotrace.Glib.{Glib}
use iotrace.Double.{Double}
use iotrace.FdTable.{FdTable}
use iotrace.FdTable.View.{view}
use iotrace.FdTable.Refused.{FirstRefused, run-FirstRefused}
use iotrace.FdTable.Refinement.{Op, dups, sets_cloexec, run}
use iotrace.SyscallStat.Summary.{Calls, record_calls}
use iotrace.Tracer.{Address, Timespec, ThreadTmps, State, Run, ok, fault}
use iotrace.Tracer.Ready.{
  IsReady, with_table, update_same, fd_table_insert_dup-ok, fd_table_insert_dup-fault,
  fd_table_set_cloexec-ok, fd_table_set_cloexec-fault,
}
use iotrace.SyscallHandler.Sys
use iotrace.SyscallHandler.Stop.{Stop, rax, elapsed}
use iotrace.SyscallHandler.Unconsidered.{
  f_dupfd, f_dupfd_cloexec, f_setfd, tiocgptpeer, wants_fd_cloexec, handle_dup_return,
  handle_fcntl_return, handle_ioctl_return, handle_unconsidered_return,
}
use iotrace.SyscallHandler.Dispatch.{one_of, dup_calls, handle_syscall_return, apply_unconsidered}
use iotrace.SyscallHandler.Considered.{kind}
use iotrace.SyscallHandler.Returns.{returns, dispatch}

abbrev pub dup_ops : ThreadTmps → ℤ → List Op
dup_ops tmps ret =
    if nonneg tmps.int_a && not (eq_ℤ tmps.int_a ret)
    then dups tmps.int_a ret false false ∷ []
    else []

abbrev pub fcntl_ops : ThreadTmps → ℤ → List Op
fcntl_ops tmps ret =
    if eq_ℤ ret (negsuc 0)
    then []
    else if eq_ℤ tmps.int_b f_dupfd
    then dups tmps.int_a ret false false ∷ []
    else if eq_ℤ tmps.int_b f_dupfd_cloexec
    then dups tmps.int_a ret true false ∷ []
    else if eq_ℤ tmps.int_b f_setfd
    then sets_cloexec tmps.int_a (wants_fd_cloexec tmps.int_c) ∷ []
    else []

abbrev pub ioctl_ops : ThreadTmps → ℤ → List Op
ioctl_ops tmps ret = if eq_ℤ tmps.int_b tiocgptpeer then dups tmps.int_a ret false true ∷ [] else []

-- What a call other than execve, which is not in the statistics, does to the table.
abbrev pub other_ops : ℤ → ThreadTmps → ℤ → List Op
other_ops sc tmps ret =
    if one_of sc dup_calls
    then dup_ops tmps ret
    else if eq_ℤ sc Sys.fcntl
    then fcntl_ops tmps ret
    else if eq_ℤ sc Sys.ioctl
    then ioctl_ops tmps ret
    else []

other_ops-few : (sc : ℤ) (tmps : ThreadTmps) (ret : ℤ) → length (other_ops sc tmps ret) ≤ 1
other_ops-few sc tmps ret = ground arith

module _ ⦃g : Glib⦄ ⦃d : Double⦄ where
  -- The state with another table at an address and one more call counted.
  abbrev pub counted : State → Calls → State
  counted s cs = record s { syscall_table = record_calls s.syscall_table cs }

  -- The result of an operation on the table: `none` is a fault.
  abbrev pub Ends : State → Address → Option FdTable → Run (Unit {0}) → Type 0
  Ends s p none r = r ≡ fault
  Ends s p (some t) r = r ≡ ok tt (with_table s p t)

module _ ⦃g : Glib⦄ ⦃d : Double⦄ (s : State) (tracee : ℤ) (tmps : ThreadTmps) (t : FdTable)
    (ready : IsReady s tracee tmps t) (stop : Stop) where
  abbrev ret : ℤ
  ret = to_int (stop.peek_user rax)

  dup-Ends :
      (o : Option FdTable)
      → run t (dup_ops tmps ret) ≡ o
      → Ends s tmps.fd_table o (handle_dup_return stop tracee s)
  unfolding handle_dup_return run
  dup-Ends none e = ground (
    arith,
    ready.found,
    fd_table_insert_dup-fault s tmps.fd_table tmps.fd_mutex t ready.table ready.mutex tmps.int_a ret
        false false,
  )
  dup-Ends (some t') e = ground (
    arith,
    ready.found,
    update_same s.fd_tables tmps.fd_table ready.table,
    fd_table_insert_dup-ok s tmps.fd_table tmps.fd_mutex t ready.table ready.mutex tmps.int_a ret
        false false t',
  )

  fcntl-Ends :
      (o : Option FdTable)
      → run t (fcntl_ops tmps ret) ≡ o
      → Ends s tmps.fd_table o (handle_fcntl_return stop tracee s)
  unfolding handle_fcntl_return run
  fcntl-Ends none e = ground (
    arith,
    ready.found,
    fd_table_insert_dup-fault s tmps.fd_table tmps.fd_mutex t ready.table ready.mutex tmps.int_a ret
        false false,
    fd_table_insert_dup-fault s tmps.fd_table tmps.fd_mutex t ready.table ready.mutex tmps.int_a ret
        true false,
    fd_table_set_cloexec-fault s tmps.fd_table tmps.fd_mutex t ready.table ready.mutex tmps.int_a
        (wants_fd_cloexec tmps.int_c),
  )
  fcntl-Ends (some t') e = ground (
    arith,
    ready.found,
    update_same s.fd_tables tmps.fd_table ready.table,
    fd_table_insert_dup-ok s tmps.fd_table tmps.fd_mutex t ready.table ready.mutex tmps.int_a ret
        false false t',
    fd_table_insert_dup-ok s tmps.fd_table tmps.fd_mutex t ready.table ready.mutex tmps.int_a ret
        true false t',
    fd_table_set_cloexec-ok s tmps.fd_table tmps.fd_mutex t ready.table ready.mutex tmps.int_a
        (wants_fd_cloexec tmps.int_c) t',
  )

  ioctl-Ends :
      (o : Option FdTable)
      → run t (ioctl_ops tmps ret) ≡ o
      → Ends s tmps.fd_table o (handle_ioctl_return stop tracee s)
  unfolding handle_ioctl_return run
  ioctl-Ends none e = ground (
    arith,
    ready.found,
    fd_table_insert_dup-fault s tmps.fd_table tmps.fd_mutex t ready.table ready.mutex tmps.int_a ret
        false true,
  )
  ioctl-Ends (some t') e = ground (
    arith,
    ready.found,
    update_same s.fd_tables tmps.fd_table ready.table,
    fd_table_insert_dup-ok s tmps.fd_table tmps.fd_mutex t ready.table ready.mutex tmps.int_a ret
        false true t',
  )

  none-Ends : (o : Option FdTable) → run t [] ≡ o → Ends s tmps.fd_table o (ok tt s)
  unfolding run
  none-Ends none e = cc
  none-Ends (some t') e = ground (arith, update_same s.fd_tables tmps.fd_table ready.table)

  apply_unconsidered-Ends :
      (sc : ℤ)
      → eq_ℤ sc Sys.execve ≡ false
      → Ends s tmps.fd_table (run t (other_ops sc tmps ret)) (apply_unconsidered stop tracee sc s)
  unfolding apply_unconsidered
  apply_unconsidered-Ends sc h = elim (Bool-cases (one_of sc dup_calls)) [
    | inl a ↦ rw a (dup-Ends _ refl)
    | inr a ↦ rw a (elim (Bool-cases (eq_ℤ sc Sys.fcntl)) [
      | inl b ↦ rw b (fcntl-Ends _ refl)
      | inr b ↦
          rw (b, h)
            (elim (Bool-cases (eq_ℤ sc Sys.ioctl)) [
              | inl c ↦ rw c (ioctl-Ends _ refl)
              | inr c ↦ rw c (none-Ends _ refl)
            ])
    ])
  ]

module _ ⦃g : Glib⦄ ⦃d : Double⦄ (s : State) (tracee : ℤ) (tmps : ThreadTmps) (t : FdTable)
    (ready : IsReady s tracee tmps t) (stop : Stop) (now : Timespec)
    (clock : stop.clock ≡ some now) where
  pub unconsidered-counted :
      (sc : ℤ)
      → handle_unconsidered_return stop tracee sc s
        ≡ ok tt (counted s ((sc, elapsed tmps.start_time now) ∷ []))
  unfolding handle_unconsidered_return record_calls
  unconsidered-counted sc = ground (arith, ready.found)

  Ends-fault :
      (u : State) (p : Address) (o : Option FdTable) (r : Run (Unit {0}))
      → Ends u p o r
      → (r ≡ fault) ↔ (o ≡ none)
  Ends-fault u p none r e = (λ f. refl, λ f. e)
  Ends-fault u p (some t') r e = (λ f. absurd cc, λ f. absurd cc)

  -- The return of a call other than execve that is not in the statistics of files, with the tracee's
  -- record and table in place, the mutex free and a clock that works: the call is counted with its
  -- time, and the table of descriptors changes as dup, dup2, dup3, fcntl or ioctl ask; the statistics
  -- of files do not change. The run faults exactly where that change asks for the entry of a
  -- descriptor that the table does not hold, or, for TIOCGPTPEER, where the entry has a name of 256
  -- bytes or more.
  pub handle_syscall_return-other :
      (sc : ℤ)
      → kind sc ≡ none
      → eq_ℤ sc Sys.execve ≡ false
      → Ends
          (counted s ((sc, elapsed tmps.start_time now) ∷ []))
          tmps.fd_table
          (run t (other_ops sc tmps (to_int (stop.peek_user rax))))
          (handle_syscall_return stop tracee sc s)
        × ((handle_syscall_return stop tracee sc s ≡ fault)
            ↔ FirstRefused (view t) (other_ops sc tmps (to_int (stop.peek_user rax))))
  handle_syscall_return-other sc e h =
      let seen = counted s ((sc, elapsed tmps.start_time now) ∷ []) in
      let ops = other_ops sc tmps (to_int (stop.peek_user rax)) in
      let ends_so : Ends seen tmps.fd_table (run t ops) (handle_syscall_return stop tracee sc s) =
        rw (dispatch stop tracee sc s, e, returns, unconsidered-counted sc)
          (apply_unconsidered-Ends seen tracee tmps t
            (record { found = ready.found; table = ready.table; mutex = ready.mutex }) stop sc h) in
      let faults = Ends-fault seen tmps.fd_table (run t ops) _ ends_so in
      let refused = run-FirstRefused t ops (other_ops-few sc tmps (to_int (stop.peek_user rax))) in
      (ends_so, (λ p. refused.0 (faults.0 p), λ p. faults.1 (refused.1 p)))
