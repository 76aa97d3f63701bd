-- ===== src/SyscallHandler/Considered.antt =====
-- What the calls in the statistics of files mean: a specification of src/syscall_handler.c that
-- knows nothing of registers, locks and tables.
use iotrace.Base.{
  ℕ, ◌/◌, Bool, true, false, ◌||◌, Option, none, some, List, [], ◌∷◌, if◌then◌else◌, ℤ, pos, nonneg,
  eq_ℤ, to_int, CString,
}
use iotrace.FdTable.Refinement.{Op, inserts, removes}
use iotrace.FileStat.History.{Events, opened, closed, has_read, has_written}
use iotrace.Tracer.{ThreadTmps}
use iotrace.SyscallHandler.Stop.{Stop, rax, c_string, peeked}
use iotrace.SyscallHandler.Files.{wants_cloexec}
use iotrace.SyscallHandler.Descriptors.{
  second_int, pipe_r_name, pipe_w_name, socket_name, eventfd_name, epoll_name, accept_name,
}
use iotrace.SyscallHandler.Sys

-- A flag tells the newer variant of a call, which takes flags.
pub data Considered : Type 0 where
  open_named open_at close read write socket socketpair : Considered
  pipe eventfd epoll accept : Bool → Considered

-- The number of a call decides what it is; `none` stands for the calls of which only the time is
-- kept.
abbrev pub kind : ℤ → Option Considered
kind sc =
    if eq_ℤ sc Sys.open_file
    then some open_named
    else if eq_ℤ sc Sys.openat
    then some open_at
    else if eq_ℤ sc Sys.close
    then some close
    else if eq_ℤ sc Sys.read
        || (eq_ℤ sc Sys.readv
            || (eq_ℤ sc Sys.preadv || (eq_ℤ sc Sys.preadv2 || eq_ℤ sc Sys.pread64)))
    then some read
    else if eq_ℤ sc Sys.write
        || (eq_ℤ sc Sys.writev
            || (eq_ℤ sc Sys.pwritev || (eq_ℤ sc Sys.pwritev2 || eq_ℤ sc Sys.pwrite64)))
    then some write
    else if eq_ℤ sc Sys.pipe
    then some (pipe false)
    else if eq_ℤ sc Sys.pipe2
    then some (pipe true)
    else if eq_ℤ sc Sys.socket
    then some socket
    else if eq_ℤ sc Sys.socketpair
    then some socketpair
    else if eq_ℤ sc Sys.eventfd
    then some (eventfd false)
    else if eq_ℤ sc Sys.eventfd2
    then some (eventfd true)
    else if eq_ℤ sc Sys.epoll_create
    then some (epoll false)
    else if eq_ℤ sc Sys.epoll_create1
    then some (epoll true)
    else if eq_ℤ sc Sys.accept
    then some (accept false)
    else if eq_ℤ sc Sys.accept4
    then some (accept true)
    else none

-- What a return does to the table of descriptors, and what it adds to the statistics.
pub record Effect : Type 0 where
  pub ops : List Op
  pub events : Events

abbrev pub no_effect : Effect
no_effect = record { ops = []; events = [] }

-- One descriptor, returned by the call: it is entered if the call did not fail, and the call counts
-- as an open in any case.
abbrev pub one_opened : ℤ → CString → Bool → ℕ → Effect
one_opened ret name cloexec ns = record {
  ops = if nonneg ret then inserts (to_int ret) name cloexec ∷ [] else [];
  events = (name, opened ns) ∷ [];
}

-- Two descriptors, written to memory by a call that returns 0; each open counts half of the time.
abbrev pub two_opened : Stop → ThreadTmps → CString → CString → Bool → ℕ → Effect
two_opened stop tmps name_1 name_2 cloexec ns =
    if eq_ℤ (stop.peek_user rax) (pos 0)
    then record {
      ops =
          inserts (to_int (peeked stop tmps.ptr)) name_1 cloexec
          ∷ inserts (to_int (peeked stop (second_int tmps.ptr))) name_2 cloexec
          ∷ [];
      events = (name_1, opened (ns / 2)) ∷ (name_2, opened (ns / 2)) ∷ [];
    }
    else no_effect

abbrev pub flagged : Bool → ThreadTmps → Bool
flagged newer tmps = if newer then wants_cloexec tmps.int_a else false

-- `name` is that of the descriptor which the call was made with.
abbrev pub effect : Considered → Stop → ThreadTmps → CString → ℕ → Effect
effect open_named stop tmps name ns =
    one_opened (stop.peek_user rax) (c_string tmps.filename_buffer) (wants_cloexec tmps.int_a) ns
effect open_at stop tmps name ns =
    one_opened (stop.peek_user rax) (c_string tmps.filename_buffer) (wants_cloexec tmps.int_a) ns
effect close stop tmps name ns = record {
  ops = removes tmps.int_a ∷ [];
  events = (name, closed ns) ∷ [];
}
effect read stop tmps name ns = record {
  ops = [];
  events = (name, has_read ns (stop.peek_user rax)) ∷ [];
}
effect write stop tmps name ns = record {
  ops = [];
  events = (name, has_written ns (stop.peek_user rax)) ∷ [];
}
effect socket stop tmps name ns =
    one_opened (stop.peek_user rax) socket_name (wants_cloexec tmps.int_a) ns
effect socketpair stop tmps name ns = two_opened stop tmps socket_name socket_name false ns
effect (pipe newer) stop tmps name ns =
    two_opened stop tmps pipe_r_name pipe_w_name (flagged newer tmps) ns
effect (eventfd newer) stop tmps name ns =
    one_opened (stop.peek_user rax) eventfd_name (flagged newer tmps) ns
effect (epoll newer) stop tmps name ns =
    one_opened (stop.peek_user rax) epoll_name (flagged newer tmps) ns
effect (accept newer) stop tmps name ns =
    one_opened (stop.peek_user rax) accept_name (flagged newer tmps) ns
