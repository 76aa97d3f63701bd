-- ===== src/SyscallHandler/Descriptors.antt =====
-- The handlers of src/syscall_handler.c for the other calls that open descriptors.
use iotrace.Base.{
  ◌+◌, ◌/◌, ◌%◌, ◌^◌, Bool, true, false, if◌then◌else◌, ℤ, pos, eq_ℤ, nonneg, to_int, CString,
  codes,
}
use iotrace.Glib.{Glib}
use iotrace.Double.{Double}
use iotrace.FileStat.{incr_open}
use iotrace.Tracer.{Address, Cmd, pure, ◌>>=◌, ◌>>◌}
use iotrace.Tracer.Locked.{fd_table_insert}
use iotrace.Tracer.Temporaries.{set_tmps}
use iotrace.SyscallHandler.Stop.{
  Register, rdi, rsi, r10, rax, Stop, low64, peeked, save_current_time, find_tmps, calc_elapsed_ns,
}
use iotrace.SyscallHandler.Files.{wants_cloexec, file_stats}

-- `pipefd + 1`: the address of the second `int`.
abbrev pub second_int : Address → Address
second_int p = (p + 4) % 2 ^ 64

-- PIPE_R, PIPE_W, SOCKET, EVENTFD, EPOLL and ACCEPT.
abbrev pub pipe_r_name : CString
pipe_r_name = codes "pipe_r"

abbrev pub pipe_w_name : CString
pipe_w_name = codes "pipe_w"

abbrev pub socket_name : CString
socket_name = codes "socket"

abbrev pub eventfd_name : CString
eventfd_name = codes "eventfd"

abbrev pub epoll_name : CString
epoll_name = codes "epoll"

abbrev pub accept_name : CString
accept_name = codes "accept"

module _ ⦃g : Glib⦄ ⦃d : Double⦄ where
  -- `tmps->int_a` is set to an argument; or nothing is done but the lookup.
  abbrev pub save_flags : Stop → ℤ → Bool → Register → Cmd (Unit {0})
  save_flags stop tracee saved reg = do
    find_tmps tracee
    if saved
        then set_tmps tracee (λ tmps. record tmps { int_a = to_int (stop.peek_user reg) })
        else pure tt

  abbrev pub save_ptr : Stop → ℤ → Register → Cmd (Unit {0})
  save_ptr stop tracee reg = do
    find_tmps tracee
    set_tmps tracee (λ tmps. record tmps { ptr = low64 (stop.peek_user reg) })

  unfoldable pub handle_pipe_call : Stop → ℤ → Bool → Cmd (Unit {0})
  unfolding find_tmps set_tmps save_current_time
  handle_pipe_call stop tracee pipe2 = do
    save_ptr stop tracee rdi
    save_flags stop tracee pipe2 rsi
    save_current_time stop tracee

  unfoldable pub handle_pipe_return : Stop → ℤ → Bool → Cmd (Unit {0})
  unfolding calc_elapsed_ns
  handle_pipe_return stop tracee pipe2 = do
    (tmps, elapsed_ns) ← calc_elapsed_ns stop tracee
    if eq_ℤ (stop.peek_user rax) (pos 0)
        then (do
          let pipefd_read = to_int (peeked stop tmps.ptr)
          let pipefd_write = to_int (peeked stop (second_int tmps.ptr))
          let cloexec = if pipe2 then wants_cloexec tmps.int_a else false
          fd_table_insert tmps.fd_table tmps.fd_mutex pipefd_read pipe_r_name cloexec
          fd_table_insert tmps.fd_table tmps.fd_mutex pipefd_write pipe_w_name cloexec
          file_stats (λ t. incr_open t pipe_r_name (elapsed_ns / 2))
          file_stats (λ t. incr_open t pipe_w_name (elapsed_ns / 2)))
        else pure tt

  unfoldable pub handle_socketpair_call : Stop → ℤ → Cmd (Unit {0})
  unfolding find_tmps set_tmps save_current_time
  handle_socketpair_call stop tracee = save_ptr stop tracee r10 >> save_current_time stop tracee

  unfoldable pub handle_socketpair_return : Stop → ℤ → Cmd (Unit {0})
  unfolding calc_elapsed_ns
  handle_socketpair_return stop tracee = do
    (tmps, elapsed_ns) ← calc_elapsed_ns stop tracee
    if eq_ℤ (stop.peek_user rax) (pos 0)
        then (do
          let socket_a = to_int (peeked stop tmps.ptr)
          let socket_b = to_int (peeked stop (second_int tmps.ptr))
          fd_table_insert tmps.fd_table tmps.fd_mutex socket_a socket_name false
          fd_table_insert tmps.fd_table tmps.fd_mutex socket_b socket_name false
          file_stats (λ t. incr_open t socket_name (elapsed_ns / 2))
          file_stats (λ t. incr_open t socket_name (elapsed_ns / 2)))
        else pure tt

  -- The common part of the returns of socket, eventfd, epoll_create and accept: the descriptor that
  -- the call returned is entered under a fixed name. `flags` tells whether `int_a` holds flags.
  abbrev pub descriptor_return : Stop → ℤ → CString → Bool → Cmd (Unit {0})
  descriptor_return stop tracee name flags = do
    (tmps, elapsed_ns) ← calc_elapsed_ns stop tracee
    let ret_fd = stop.peek_user rax
    let cloexec = if flags then wants_cloexec tmps.int_a else false
    if nonneg ret_fd
        then fd_table_insert tmps.fd_table tmps.fd_mutex (to_int ret_fd) name cloexec
        else pure tt
    file_stats (λ t. incr_open t name elapsed_ns)

  unfoldable pub handle_socket_call : Stop → ℤ → Cmd (Unit {0})
  unfolding find_tmps set_tmps save_current_time
  handle_socket_call stop tracee = save_flags stop tracee true rsi >> save_current_time stop tracee

  unfoldable pub handle_socket_return : Stop → ℤ → Cmd (Unit {0})
  unfolding calc_elapsed_ns
  handle_socket_return stop tracee = descriptor_return stop tracee socket_name true

  unfoldable pub handle_eventfd_call : Stop → ℤ → Bool → Cmd (Unit {0})
  unfolding find_tmps set_tmps save_current_time
  handle_eventfd_call stop tracee eventfd2 =
      save_flags stop tracee eventfd2 rsi >> save_current_time stop tracee

  unfoldable pub handle_eventfd_return : Stop → ℤ → Bool → Cmd (Unit {0})
  unfolding calc_elapsed_ns
  handle_eventfd_return stop tracee eventfd2 = descriptor_return stop tracee eventfd_name eventfd2

  unfoldable pub handle_epollcreate_call : Stop → ℤ → Bool → Cmd (Unit {0})
  unfolding find_tmps set_tmps save_current_time
  handle_epollcreate_call stop tracee epoll_create1 =
      save_flags stop tracee epoll_create1 rdi >> save_current_time stop tracee

  unfoldable pub handle_epollcreate_return : Stop → ℤ → Bool → Cmd (Unit {0})
  unfolding calc_elapsed_ns
  handle_epollcreate_return stop tracee epoll_create1 =
      descriptor_return stop tracee epoll_name epoll_create1

  unfoldable pub handle_accept_call : Stop → ℤ → Bool → Cmd (Unit {0})
  unfolding find_tmps set_tmps save_current_time
  handle_accept_call stop tracee accept4 =
      save_flags stop tracee accept4 r10 >> save_current_time stop tracee

  unfoldable pub handle_accept_return : Stop → ℤ → Bool → Cmd (Unit {0})
  unfolding calc_elapsed_ns
  handle_accept_return stop tracee accept4 = descriptor_return stop tracee accept_name accept4
