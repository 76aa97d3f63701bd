-- ===== src/SyscallHandler/Saves.antt =====
-- What the calls in the statistics of files save for their returns.
use iotrace.Base.{
  ℕ, ◌≡◌, refl, true, false, Option, none, some, List, [], ◌∷◌, arith, ℤ, eq_ℤ, to_int,
}
use iotrace.Glib.{Glib}
use iotrace.Glib.Keys.{int_key}
use iotrace.Double.{Double}
use iotrace.FdTable.{filename_buff_size}
use iotrace.Tracer.{and_then, Timespec, ThreadTmps, State, Run, ok, Cmd}
use iotrace.SyscallHandler.Stop.{Stop, low64, read_string, rdi, rsi, rdx, r10}
use iotrace.SyscallHandler.Files.{
  handle_open_call, handle_close_call, handle_read_call, handle_write_call,
}
use iotrace.SyscallHandler.Descriptors.{
  handle_pipe_call, handle_socket_call, handle_socketpair_call, handle_eventfd_call,
  handle_epollcreate_call, handle_accept_call,
}
use iotrace.SyscallHandler.Unconsidered.{handle_unconsidered_call}
use iotrace.SyscallHandler.Dispatch.{handle_syscall_call, save_unconsidered}
use iotrace.SyscallHandler.Considered.{
  Considered, open_named, open_at, close, read, write, socket, socketpair, pipe, eventfd, epoll,
  accept, kind,
}

-- The arguments that are kept: `buffer` is what `read_string` leaves in the buffer for the name.
abbrev pub arguments : Considered → Stop → List ℕ → ThreadTmps → ThreadTmps
arguments open_named stop buffer tmps = record tmps {
  int_a = to_int (stop.peek_user rsi);
  filename_buffer = buffer;
}
arguments open_at stop buffer tmps = record tmps {
  int_a = to_int (stop.peek_user rdx);
  filename_buffer = buffer;
}
arguments close stop buffer tmps = record tmps { int_a = to_int (stop.peek_user rdi) }
arguments read stop buffer tmps = record tmps { int_a = to_int (stop.peek_user rdi) }
arguments write stop buffer tmps = record tmps { int_a = to_int (stop.peek_user rdi) }
arguments socket stop buffer tmps = record tmps { int_a = to_int (stop.peek_user rsi) }
arguments socketpair stop buffer tmps = record tmps { ptr = low64 (stop.peek_user r10) }
arguments (pipe false) stop buffer tmps = record tmps { ptr = low64 (stop.peek_user rdi) }
arguments (pipe true) stop buffer tmps = record tmps {
  ptr = low64 (stop.peek_user rdi);
  int_a = to_int (stop.peek_user rsi);
}
arguments (eventfd false) stop buffer tmps = tmps
arguments (eventfd true) stop buffer tmps = record tmps { int_a = to_int (stop.peek_user rsi) }
arguments (epoll false) stop buffer tmps = tmps
arguments (epoll true) stop buffer tmps = record tmps { int_a = to_int (stop.peek_user rdi) }
arguments (accept false) stop buffer tmps = tmps
arguments (accept true) stop buffer tmps = record tmps { int_a = to_int (stop.peek_user r10) }

abbrev pub saved : Considered → Stop → List ℕ → Timespec → ThreadTmps → ThreadTmps
saved k stop buffer now tmps = record (arguments k stop buffer tmps) { start_time = now }

-- Where the name of the file stands, for an open.
abbrev pub NameRead : Considered → Stop → ThreadTmps → List ℕ → Type 0
NameRead open_named stop tmps buffer =
    read_string stop (low64 (stop.peek_user rdi)) tmps.filename_buffer filename_buff_size
    ≡ some buffer
NameRead open_at stop tmps buffer =
    read_string stop (low64 (stop.peek_user rsi)) tmps.filename_buffer filename_buff_size
    ≡ some buffer
NameRead close stop tmps buffer = Unit
NameRead read stop tmps buffer = Unit
NameRead write stop tmps buffer = Unit
NameRead socket stop tmps buffer = Unit
NameRead socketpair stop tmps buffer = Unit
NameRead (pipe newer) stop tmps buffer = Unit
NameRead (eventfd newer) stop tmps buffer = Unit
NameRead (epoll newer) stop tmps buffer = Unit
NameRead (accept newer) stop tmps buffer = Unit

module _ ⦃g : Glib⦄ ⦃d : Double⦄ where
  abbrev pub call_handler : Stop → ℤ → Considered → Cmd (Unit {0})
  call_handler stop tracee open_named = handle_open_call stop tracee false
  call_handler stop tracee open_at = handle_open_call stop tracee true
  call_handler stop tracee close = handle_close_call stop tracee
  call_handler stop tracee read = handle_read_call stop tracee
  call_handler stop tracee write = handle_write_call stop tracee
  call_handler stop tracee socket = handle_socket_call stop tracee
  call_handler stop tracee socketpair = handle_socketpair_call stop tracee
  call_handler stop tracee (pipe newer) = handle_pipe_call stop tracee newer
  call_handler stop tracee (eventfd newer) = handle_eventfd_call stop tracee newer
  call_handler stop tracee (epoll newer) = handle_epollcreate_call stop tracee newer
  call_handler stop tracee (accept newer) = handle_accept_call stop tracee newer

  abbrev pub calls : Stop → ℤ → ℤ → Option Considered → Cmd (Unit {0})
  calls stop tracee sc none s =
      and_then (save_unconsidered stop tracee sc s) (λ _. handle_unconsidered_call stop tracee)
  calls stop tracee sc (some k) s = call_handler stop tracee k s

  pub dispatch_call :
      (stop : Stop) (tracee sc : ℤ) (s : State)
      → handle_syscall_call stop tracee sc s ≡ calls stop tracee sc (kind sc) s
  unfolding handle_syscall_call
  dispatch_call stop tracee sc s = ground arith

  -- A run ends well; of the records only the tracee's has changed, and nothing else has.
  pub record HasSaved (s : State) (tracee : ℤ) (tmps : ThreadTmps) (r : Run (Unit {0}))
      : Type 0 where
    pub table : g.Table int_key ThreadTmps
    pub runs : r ≡ ok tt (record s { thread_tmps_table = table })
    pub own : g.lookup table tracee ≡ some tmps
    pub others :
        (other : ℤ)
        → eq_ℤ tracee other ≡ false
        → g.lookup table other ≡ g.lookup s.thread_tmps_table other

-- Changes through the pointer to one record.
module _ ⦃g : Glib⦄ ⦃d : Double⦄ (s : State) (tracee : ℤ) where
  abbrev changed : List (ThreadTmps → ThreadTmps) → g.Table int_key ThreadTmps
  changed [] = s.thread_tmps_table
  changed (f ∷ fs) = g.modify (changed fs) tracee f

  abbrev after : List (ThreadTmps → ThreadTmps) → ThreadTmps → ThreadTmps
  after [] tmps = tmps
  after (f ∷ fs) tmps = f (after fs tmps)

  pub changed-own :
      (tmps : ThreadTmps) (fs : List (ThreadTmps → ThreadTmps))
      → g.lookup s.thread_tmps_table tracee ≡ some tmps
      → g.lookup (changed fs) tracee ≡ some (after fs tmps)
  changed-own tmps [] found = found
  changed-own tmps (f ∷ fs) found = ground (
    arith,
    changed-own tmps fs found,
    g.lookup-modify (changed fs) tracee f tracee,
    int_key.same_refl tracee,
  )

  changed-others :
      (fs : List (ThreadTmps → ThreadTmps)) (other : ℤ)
      → eq_ℤ tracee other ≡ false
      → g.lookup (changed fs) other ≡ g.lookup s.thread_tmps_table other
  changed-others [] other h = refl
  changed-others (f ∷ fs) other h =
      ground (arith, changed-others fs other h, g.lookup-modify (changed fs) tracee f other)

  pub changes-HasSaved :
      (tmps : ThreadTmps) (fs : List (ThreadTmps → ThreadTmps)) (r : Run (Unit {0}))
      → g.lookup s.thread_tmps_table tracee ≡ some tmps
      → r ≡ ok tt (record s { thread_tmps_table = changed fs })
      → HasSaved s tracee (after fs tmps) r
  changes-HasSaved tmps fs r found e = record {
    table = changed fs;
    runs = e;
    own = changed-own tmps fs found;
    others = changed-others fs;
  }

-- Each handler of a call, as the changes it makes to the record.
module _ ⦃g : Glib⦄ ⦃d : Double⦄ (s : State) (tracee : ℤ) (tmps : ThreadTmps)
    (found : g.lookup s.thread_tmps_table tracee ≡ some tmps) (stop : Stop) (now : Timespec)
    (clock : stop.clock ≡ some now) (buffer : List ℕ) where
  abbrev timed : ThreadTmps → ThreadTmps
  timed t = record t { start_time = now }

  changes :
      (fs : List (ThreadTmps → ThreadTmps)) (r : Run (Unit {0}))
      → r ≡ ok tt (record s { thread_tmps_table = changed s tracee (timed ∷ fs) })
      → HasSaved s tracee (timed (after s tracee fs tmps)) r
  changes fs r = changes-HasSaved s tracee tmps (timed ∷ fs) r found

  call-HasSaved :
      (k : Considered)
      → NameRead k stop tmps buffer
      → HasSaved s tracee (saved k stop buffer now tmps) (call_handler stop tracee k s)
  unfolding handle_read_call handle_write_call handle_close_call handle_open_call handle_pipe_call
      handle_socket_call handle_socketpair_call handle_eventfd_call handle_epollcreate_call
      handle_accept_call
  call-HasSaved read n = changes (arguments read stop buffer ∷ []) _ (ground (arith, found))
  call-HasSaved write n = changes (arguments read stop buffer ∷ []) _ (ground (arith, found))
  call-HasSaved close n = changes (arguments read stop buffer ∷ []) _ (ground (arith, found))
  call-HasSaved open_named n =
      changes
        ((λ t. record t { filename_buffer = buffer })
          ∷ (λ t. record t { int_a = to_int (stop.peek_user rsi) })
          ∷ [])
        _ (ground (arith, found))
  call-HasSaved open_at n =
      changes
        ((λ t. record t { filename_buffer = buffer })
          ∷ (λ t. record t { int_a = to_int (stop.peek_user rdx) })
          ∷ [])
        _ (ground (arith, found))
  call-HasSaved socket n = changes (arguments socket stop buffer ∷ []) _ (ground (arith, found))
  call-HasSaved socketpair n =
      changes (arguments socketpair stop buffer ∷ []) _ (ground (arith, found))
  call-HasSaved (pipe false) n = changes (arguments (pipe false) stop buffer ∷ []) _ (
      ground
        (arith, found, changed-own s tracee tmps (arguments (pipe false) stop buffer ∷ []) found))
  call-HasSaved (pipe true) n =
      changes (arguments socket stop buffer ∷ arguments (pipe false) stop buffer ∷ []) _ (
        ground
          (arith, found, changed-own s tracee tmps (arguments (pipe false) stop buffer ∷ []) found))
  call-HasSaved (eventfd false) n = changes ([]) _ (ground (arith, found))
  call-HasSaved (eventfd true) n =
      changes (arguments (eventfd true) stop buffer ∷ []) _ (ground (arith, found))
  call-HasSaved (epoll false) n = changes ([]) _ (ground (arith, found))
  call-HasSaved (epoll true) n =
      changes (arguments (epoll true) stop buffer ∷ []) _ (ground (arith, found))
  call-HasSaved (accept false) n = changes ([]) _ (ground (arith, found))
  call-HasSaved (accept true) n =
      changes (arguments (accept true) stop buffer ∷ []) _ (ground (arith, found))

  -- A call that is in the statistics of files, of a tracee that has a record, with a clock that works
  -- and, for an open, a name that can be read: the run ends well; the record holds the time and the
  -- arguments that the return needs, and otherwise what it held; the records of the other tracees
  -- and the rest of the state are as they were.
  pub handle_syscall_call-HasSaved :
      (sc : ℤ) (k : Considered)
      → kind sc ≡ some k
      → NameRead k stop tmps buffer
      → HasSaved s tracee (saved k stop buffer now tmps) (handle_syscall_call stop tracee sc s)
  handle_syscall_call-HasSaved sc k e n =
      rw (dispatch_call stop tracee sc s, e, calls) (call-HasSaved k n)
