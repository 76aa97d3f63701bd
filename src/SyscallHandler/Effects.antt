-- ===== src/SyscallHandler/Effects.antt =====
-- What the returns of the calls in the statistics of files do to the state of the tracer.
use iotrace.Base.{
  ℕ, ◌≡◌, refl, Bool, false, some, arith, ℤ, pos, eq_ℤ, nonneg, to_int, CString, ap, ◌∙◌,
  Bool-cases, inl, inr,
}
use iotrace.Glib.{Glib}
use iotrace.Double.{Double}
use iotrace.FdTable
use iotrace.FdTable.{FdTable}
use iotrace.FdTable.Refinement.{run}
use iotrace.FileStat.History.{Events, record_event, record_events}
use iotrace.Tracer.{Address, Timespec, ThreadTmps, State, Run, ok}
use iotrace.Tracer.Memory.{update}
use iotrace.Tracer.Locked.{fd_table_insert, fd_table_lookup}
use iotrace.Tracer.Ready.{
  relock, update_same, update_here, update-update, IsReady, with_table, fd_table_insert-ok,
  fd_table_remove-ok,
}
use iotrace.SyscallHandler.Stop.{Stop, rax, elapsed, c_string, peeked}
use iotrace.SyscallHandler.Files.{
  wants_cloexec, known_name, handle_open_return, handle_close_return, handle_read_return,
  handle_write_return,
}
use iotrace.SyscallHandler.Descriptors.{
  second_int, socket_name, pipe_r_name, pipe_w_name, descriptor_return, handle_pipe_return,
  handle_socket_return, handle_socketpair_return,
}
use iotrace.SyscallHandler.Considered.{
  open_named, close, read, write, socketpair, pipe, Effect, one_opened, flagged, effect,
}

module _ ⦃g : Glib⦄ ⦃d : Double⦄ where
  -- The state with another table at an address and more events in the statistics.
  abbrev pub affected : State → Address → FdTable → Events → State
  affected s p t es = record s {
    fd_tables = update s.fd_tables p (some t);
    file_stat_table = record_events s.file_stat_table es;
  }

  abbrev pub with_events : State → Events → State
  with_events s es = record s { file_stat_table = record_events s.file_stat_table es }

  -- A run ends well, and all that it did is an effect.
  abbrev pub HasEffect : State → Address → FdTable → Effect → Run (Unit {0}) → Type 0
  HasEffect s p t e r =
      (t' : FdTable) × (run t e.ops ≡ some t') × (r ≡ ok tt (affected s p t' e.events))

module _ ⦃g : Glib⦄ ⦃d : Double⦄ (s : State) (tracee : ℤ) (tmps : ThreadTmps) (t : FdTable)
    (ready : IsReady s tracee tmps t) (stop : Stop) (now : Timespec)
    (clock : stop.clock ≡ some now) where
  abbrev pub ns : ℕ
  ns = elapsed tmps.start_time now

  abbrev pub name : CString
  name = known_name (FdTable.lookup t tmps.int_a)

  abbrev pub Has : Effect → Run (Unit {0}) → Type 0
  Has e r = HasEffect s tmps.fd_table t e r

  pub read-effect : Has (effect read stop tmps name ns) (handle_read_return stop tracee s)
  unfolding handle_read_return fd_table_lookup run record_events record_event
  read-effect = (
    t,
    refl,
    ground (
      arith,
      ready.found,
      ready.table,
      ready.mutex,
      relock s.mutexes tmps.fd_mutex ready.mutex,
      update_same s.fd_tables tmps.fd_table ready.table,
    ),
  )

  pub write-effect : Has (effect write stop tmps name ns) (handle_write_return stop tracee s)
  unfolding handle_write_return fd_table_lookup run record_events record_event
  write-effect = (
    t,
    refl,
    ground (
      arith,
      ready.found,
      ready.table,
      ready.mutex,
      relock s.mutexes tmps.fd_mutex ready.mutex,
      update_same s.fd_tables tmps.fd_table ready.table,
    ),
  )

  pub close-effect : Has (effect close stop tmps name ns) (handle_close_return stop tracee s)
  unfolding handle_close_return fd_table_lookup run record_events record_event
  close-effect = (
    (FdTable.remove t tmps.int_a).1,
    refl,
    ground (
      arith,
      ready.found,
      ready.table,
      ready.mutex,
      relock s.mutexes tmps.fd_mutex ready.mutex,
      fd_table_remove-ok (with_events s (effect close stop tmps name ns).events) tmps.fd_table
          tmps.fd_mutex t ready.table ready.mutex tmps.int_a,
    ),
  )

  pub descriptor-effect :
      (n : CString) (flags : Bool)
      → Has
          (one_opened (stop.peek_user rax) n (flagged flags tmps) ns)
          (descriptor_return stop tracee n flags s)
  unfolding handle_socket_return run record_events record_event
  descriptor-effect n flags = elim (Bool-cases (nonneg (stop.peek_user rax))) [
    | inl e ↦ (
      FdTable.insert t (to_int (stop.peek_user rax)) n (flagged flags tmps),
      ground arith,
      ground (
        arith,
        ready.found,
        fd_table_insert-ok s tmps.fd_table tmps.fd_mutex t ready.table ready.mutex
            (to_int (stop.peek_user rax)) n (flagged flags tmps),
      ),
    )
    | inr e ↦ (
      t,
      ground arith,
      ground (arith, ready.found, update_same s.fd_tables tmps.fd_table ready.table),
    )
  ]

  pub open-effect : Has (effect open_named stop tmps name ns) (handle_open_return stop tracee s)
  unfolding handle_open_return run record_events record_event
  open-effect = elim (Bool-cases (nonneg (stop.peek_user rax))) [
    | inl e ↦ (
      FdTable.insert t (to_int (stop.peek_user rax)) (c_string tmps.filename_buffer)
          (wants_cloexec tmps.int_a),
      ground arith,
      ground (
        arith,
        ready.found,
        fd_table_insert-ok s tmps.fd_table tmps.fd_mutex t ready.table ready.mutex
            (to_int (stop.peek_user rax)) (c_string tmps.filename_buffer)
            (wants_cloexec tmps.int_a),
      ),
    )
    | inr e ↦ (
      t,
      ground arith,
      ground (arith, ready.found, update_same s.fd_tables tmps.fd_table ready.table),
    )
  ]

  abbrev first : CString → Bool → FdTable
  first n c = FdTable.insert t (to_int (peeked stop tmps.ptr)) n c

  abbrev second : CString → CString → Bool → FdTable
  second n n' c = FdTable.insert (first n c) (to_int (peeked stop (second_int tmps.ptr))) n' c

  -- Two insertions, one after the other.
  two-inserts :
      (n n' : CString) (c : Bool)
      → fd_table_insert tmps.fd_table tmps.fd_mutex
          (to_int (peeked stop (second_int tmps.ptr)))
          n'
          c
          (with_table s tmps.fd_table (first n c))
        ≡ ok tt (with_table s tmps.fd_table (second n n' c))
  two-inserts n n' c =
      fd_table_insert-ok (with_table s tmps.fd_table (first n c)) tmps.fd_table tmps.fd_mutex
        (first n c) (update_here s.fd_tables tmps.fd_table (some (first n c))) ready.mutex
        (to_int (peeked stop (second_int tmps.ptr))) n' c
      ∙ ap (λ m. ok tt (record s { fd_tables = m }))
          (update-update s.fd_tables tmps.fd_table (some (first n c)) (some (second n n' c)))

  pub pipe-effect :
      (newer : Bool)
      → Has (effect (pipe newer) stop tmps name ns) (handle_pipe_return stop tracee newer s)
  unfolding handle_pipe_return run record_events record_event
  pipe-effect newer = elim (Bool-cases (eq_ℤ (stop.peek_user rax) (pos 0))) [
    | inl e ↦ (
      second pipe_r_name pipe_w_name (flagged newer tmps),
      ground arith,
      ground (
        arith,
        ready.found,
        fd_table_insert-ok s tmps.fd_table tmps.fd_mutex t ready.table ready.mutex
            (to_int (peeked stop tmps.ptr)) pipe_r_name (flagged newer tmps),
        two-inserts pipe_r_name pipe_w_name (flagged newer tmps),
      ),
    )
    | inr e ↦ (
      t,
      ground arith,
      ground (arith, ready.found, update_same s.fd_tables tmps.fd_table ready.table),
    )
  ]

  pub socketpair-effect :
      Has (effect socketpair stop tmps name ns) (handle_socketpair_return stop tracee s)
  unfolding handle_socketpair_return run record_events record_event
  socketpair-effect = elim (Bool-cases (eq_ℤ (stop.peek_user rax) (pos 0))) [
    | inl e ↦ (
      second socket_name socket_name false,
      ground arith,
      ground (
        arith,
        ready.found,
        fd_table_insert-ok s tmps.fd_table tmps.fd_mutex t ready.table ready.mutex
            (to_int (peeked stop tmps.ptr)) socket_name false,
        two-inserts socket_name socket_name false,
      ),
    )
    | inr e ↦ (
      t,
      ground arith,
      ground (arith, ready.found, update_same s.fd_tables tmps.fd_table ready.table),
    )
  ]
