-- ===== src/SyscallHandler/Returns.antt =====
-- `handle_syscall_return` of src/syscall_handler.c against the specification of its effects.
use iotrace.Base.{◌≡◌, true, Option, none, some, arith, ℤ}
use iotrace.Glib.{Glib}
use iotrace.Double.{Double}
use iotrace.FdTable
use iotrace.FdTable.{FdTable}
use iotrace.Tracer.{and_then, Timespec, ThreadTmps, State, Run, Cmd}
use iotrace.Tracer.Ready.{IsReady}
use iotrace.SyscallHandler.Stop.{Stop, elapsed}
use iotrace.SyscallHandler.Files.{
  known_name, handle_open_return, handle_close_return, handle_read_return, handle_write_return,
}
use iotrace.SyscallHandler.Descriptors.{
  socket_name, eventfd_name, epoll_name, accept_name, handle_pipe_return, handle_socket_return,
  handle_socketpair_return, handle_eventfd_return, handle_epollcreate_return, handle_accept_return,
}
use iotrace.SyscallHandler.Unconsidered.{handle_unconsidered_return}
use iotrace.SyscallHandler.Dispatch.{handle_syscall_return, apply_unconsidered}
use iotrace.SyscallHandler.Considered.{
  Considered, open_named, open_at, close, read, write, socket, socketpair, pipe, eventfd, epoll,
  accept, kind, effect,
}
use iotrace.SyscallHandler.Effects.{
  HasEffect, read-effect, write-effect, close-effect, open-effect, descriptor-effect, pipe-effect,
  socketpair-effect,
}

module _ ⦃g : Glib⦄ ⦃d : Double⦄ (stop : Stop) (tracee : ℤ) where
  abbrev pub return_handler : Considered → Cmd (Unit {0})
  return_handler open_named = handle_open_return stop tracee
  return_handler open_at = handle_open_return stop tracee
  return_handler close = handle_close_return stop tracee
  return_handler read = handle_read_return stop tracee
  return_handler write = handle_write_return stop tracee
  return_handler socket = handle_socket_return stop tracee
  return_handler socketpair = handle_socketpair_return stop tracee
  return_handler (pipe newer) = handle_pipe_return stop tracee newer
  return_handler (eventfd newer) = handle_eventfd_return stop tracee newer
  return_handler (epoll newer) = handle_epollcreate_return stop tracee newer
  return_handler (accept newer) = handle_accept_return stop tracee newer

  -- The handler of a call that is in the statistics, or of one that is not.
  abbrev pub returns : ℤ → Option Considered → Cmd (Unit {0})
  returns sc none s =
      and_then (handle_unconsidered_return stop tracee sc s)
        (λ _. apply_unconsidered stop tracee sc)
  returns sc (some k) s = return_handler k s

  pub dispatch :
      (sc : ℤ) (s : State) → handle_syscall_return stop tracee sc s ≡ returns sc (kind sc) s
  unfolding handle_syscall_return
  dispatch sc s = ground arith

-- The names that a handler of open uses are the same in both variants.
module _ ⦃g : Glib⦄ ⦃d : Double⦄ (s : State) (tracee : ℤ) (tmps : ThreadTmps) (t : FdTable)
    (ready : IsReady s tracee tmps t) (stop : Stop) (now : Timespec)
    (clock : stop.clock ≡ some now) where
  abbrev Does : Considered → Run (Unit {0}) → Type 0
  Does k r =
      HasEffect s tmps.fd_table t
        (effect k stop tmps (known_name (FdTable.lookup t tmps.int_a))
          (elapsed tmps.start_time now))
        r

  handler-Does : (k : Considered) → Does k (return_handler stop tracee k s)
  unfolding handle_socket_return handle_eventfd_return handle_epollcreate_return
      handle_accept_return
  handler-Does open_named = open-effect s tracee tmps t ready stop now clock
  handler-Does open_at = open-effect s tracee tmps t ready stop now clock
  handler-Does close = close-effect s tracee tmps t ready stop now clock
  handler-Does read = read-effect s tracee tmps t ready stop now clock
  handler-Does write = write-effect s tracee tmps t ready stop now clock
  handler-Does socket = descriptor-effect s tracee tmps t ready stop now clock socket_name true
  handler-Does socketpair = socketpair-effect s tracee tmps t ready stop now clock
  handler-Does (pipe newer) = pipe-effect s tracee tmps t ready stop now clock newer
  handler-Does (eventfd newer) =
      descriptor-effect s tracee tmps t ready stop now clock eventfd_name newer
  handler-Does (epoll newer) =
      descriptor-effect s tracee tmps t ready stop now clock epoll_name newer
  handler-Does (accept newer) =
      descriptor-effect s tracee tmps t ready stop now clock accept_name newer

  -- The return of a call that is in the statistics of files, with the tracee's record and table in
  -- place, the mutex free and a clock that works: the run neither faults nor blocks nor exits; the
  -- table of descriptors and the statistics change by the call's effect, and nothing else changes,
  -- so that the mutex is free again.
  pub handle_syscall_return-effect :
      (sc : ℤ) (k : Considered)
      → kind sc ≡ some k
      → HasEffect s tmps.fd_table t
          (effect k stop tmps
            (known_name (FdTable.lookup t tmps.int_a))
            (elapsed tmps.start_time now))
          (handle_syscall_return stop tracee sc s)
  handle_syscall_return-effect sc k e = rw (dispatch stop tracee sc s, e, returns) (handler-Does k)
