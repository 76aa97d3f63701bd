-- ===== src/SyscallHandler/Dispatch.antt =====
-- `handle_syscall_call` and `handle_syscall_return` of src/syscall_handler.c.
use iotrace.Base.{Bool, true, false, ◌||◌, if◌then◌else◌, List, [], ◌∷◌, ℤ, eq_ℤ}
use iotrace.Glib.{Glib}
use iotrace.Double.{Double}
use iotrace.Tracer.{Cmd, pure, ◌>>◌}
use iotrace.SyscallHandler.Sys
use iotrace.SyscallHandler.Stop.{Stop}
use iotrace.SyscallHandler.Files.{
  handle_open_call, handle_open_return, handle_close_call, handle_close_return, handle_read_call,
  handle_read_return, handle_write_call, handle_write_return,
}
use iotrace.SyscallHandler.Descriptors.{
  handle_pipe_call, handle_pipe_return, handle_socket_call, handle_socket_return,
  handle_socketpair_call, handle_socketpair_return, handle_eventfd_call, handle_eventfd_return,
  handle_epollcreate_call, handle_epollcreate_return, handle_accept_call, handle_accept_return,
}
use iotrace.SyscallHandler.Unconsidered.{
  handle_dup_call, handle_dup_return, handle_fcntl_call, handle_fcntl_return, handle_execve_return,
  handle_ioctl_call, handle_ioctl_return, handle_unconsidered_call, handle_unconsidered_return,
}

-- The `case` labels before one body.
abbrev pub one_of : ℤ → List ℤ → Bool
one_of sc [] = false
one_of sc (k ∷ ks) = eq_ℤ sc k || one_of sc ks

abbrev pub read_calls : List ℤ
read_calls = Sys.read ∷ Sys.readv ∷ Sys.preadv ∷ Sys.preadv2 ∷ Sys.pread64 ∷ []

abbrev pub write_calls : List ℤ
write_calls = Sys.write ∷ Sys.writev ∷ Sys.pwritev ∷ Sys.pwritev2 ∷ Sys.pwrite64 ∷ []

abbrev pub dup_calls : List ℤ
dup_calls = Sys.dup ∷ Sys.dup2 ∷ Sys.dup3 ∷ []

module _ ⦃g : Glib⦄ ⦃d : Double⦄ where
  -- The second `switch` of `handle_syscall_call`.
  unfoldable pub save_unconsidered : Stop → ℤ → ℤ → Cmd (Unit {0})
  save_unconsidered stop tracee sc =
      if one_of sc dup_calls
      then handle_dup_call stop tracee
      else if eq_ℤ sc Sys.fcntl
      then handle_fcntl_call stop tracee
      else if eq_ℤ sc Sys.ioctl
      then handle_ioctl_call stop tracee
      else pure tt

  unfoldable pub handle_syscall_call : Stop → ℤ → ℤ → Cmd (Unit {0})
  unfolding save_unconsidered
  handle_syscall_call stop tracee sc =
      if eq_ℤ sc Sys.open_file
      then handle_open_call stop tracee false
      else if eq_ℤ sc Sys.openat
      then handle_open_call stop tracee true
      else if eq_ℤ sc Sys.close
      then handle_close_call stop tracee
      else if one_of sc read_calls
      then handle_read_call stop tracee
      else if one_of sc write_calls
      then handle_write_call stop tracee
      else if eq_ℤ sc Sys.pipe
      then handle_pipe_call stop tracee false
      else if eq_ℤ sc Sys.pipe2
      then handle_pipe_call stop tracee true
      else if eq_ℤ sc Sys.socket
      then handle_socket_call stop tracee
      else if eq_ℤ sc Sys.socketpair
      then handle_socketpair_call stop tracee
      else if eq_ℤ sc Sys.eventfd
      then handle_eventfd_call stop tracee false
      else if eq_ℤ sc Sys.eventfd2
      then handle_eventfd_call stop tracee true
      else if eq_ℤ sc Sys.epoll_create
      then handle_epollcreate_call stop tracee false
      else if eq_ℤ sc Sys.epoll_create1
      then handle_epollcreate_call stop tracee true
      else if eq_ℤ sc Sys.accept
      then handle_accept_call stop tracee false
      else if eq_ℤ sc Sys.accept4
      then handle_accept_call stop tracee true
      else save_unconsidered stop tracee sc >> handle_unconsidered_call stop tracee

  -- The second `switch` of `handle_syscall_return`.
  unfoldable pub apply_unconsidered : Stop → ℤ → ℤ → Cmd (Unit {0})
  apply_unconsidered stop tracee sc =
      if one_of sc dup_calls
      then handle_dup_return stop tracee
      else if eq_ℤ sc Sys.fcntl
      then handle_fcntl_return stop tracee
      else if eq_ℤ sc Sys.execve
      then handle_execve_return tracee
      else if eq_ℤ sc Sys.ioctl
      then handle_ioctl_return stop tracee
      else pure tt

  unfoldable pub handle_syscall_return : Stop → ℤ → ℤ → Cmd (Unit {0})
  unfolding apply_unconsidered
  handle_syscall_return stop tracee sc =
      if eq_ℤ sc Sys.open_file
      then handle_open_return stop tracee
      else if eq_ℤ sc Sys.openat
      then handle_open_return stop tracee
      else if eq_ℤ sc Sys.close
      then handle_close_return stop tracee
      else if one_of sc read_calls
      then handle_read_return stop tracee
      else if one_of sc write_calls
      then handle_write_return stop tracee
      else if eq_ℤ sc Sys.pipe
      then handle_pipe_return stop tracee false
      else if eq_ℤ sc Sys.pipe2
      then handle_pipe_return stop tracee true
      else if eq_ℤ sc Sys.socket
      then handle_socket_return stop tracee
      else if eq_ℤ sc Sys.socketpair
      then handle_socketpair_return stop tracee
      else if eq_ℤ sc Sys.eventfd
      then handle_eventfd_return stop tracee false
      else if eq_ℤ sc Sys.eventfd2
      then handle_eventfd_return stop tracee true
      else if eq_ℤ sc Sys.epoll_create
      then handle_epollcreate_return stop tracee false
      else if eq_ℤ sc Sys.epoll_create1
      then handle_epollcreate_return stop tracee true
      else if eq_ℤ sc Sys.accept
      then handle_accept_return stop tracee false
      else if eq_ℤ sc Sys.accept4
      then handle_accept_return stop tracee true
      else handle_unconsidered_return stop tracee sc >> apply_unconsidered stop tracee sc
