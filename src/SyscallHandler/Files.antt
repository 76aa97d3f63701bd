-- ===== src/SyscallHandler/Files.antt =====
-- The handlers of open, close, read and write of src/syscall_handler.c. Each call saves what the
-- return needs in the record of the tracee.
use iotrace.Base.{
  ℕ, Bool, Option, none, some, if◌then◌else◌, ℤ, nonneg, to_int, has_bit, CString, codes, or_else,
}
use iotrace.Glib.{Glib}
use iotrace.Double.{Double}
use iotrace.FdTable.{filename_buff_size}
use iotrace.FileStat.{FileStatTable, incr_open, incr_close, incr_read, incr_write}
use iotrace.Tracer.{Cmd, pure, exit, ◌>>=◌, ◌>>◌, puts}
use iotrace.Tracer.Memory.{lock, unlock}
use iotrace.Tracer.Locked.{fd_table_insert, fd_table_remove, fd_table_lookup}
use iotrace.Tracer.Temporaries.{set_tmps}
use iotrace.SyscallHandler.Stop.{
  rdi, rsi, rdx, rax, Stop, low64, read_string, c_string, save_current_time, find_tmps,
  calc_elapsed_ns,
}

-- O_CLOEXEC is this bit, and so are SOCK_CLOEXEC, EFD_CLOEXEC and EPOLL_CLOEXEC.
abbrev pub cloexec_bit : ℕ
cloexec_bit = 19

-- `(flags & O_CLOEXEC) != 0`.
abbrev pub wants_cloexec : ℤ → Bool
wants_cloexec flags = has_bit flags cloexec_bit

module _ ⦃g : Glib⦄ ⦃d : Double⦄ where
  abbrev pub file_stats : (FileStatTable → FileStatTable) → Cmd (Unit {0})
  file_stats f = puts (λ s. record s { file_stat_table = f s.file_stat_table })

  unfoldable pub handle_open_call : Stop → ℤ → Bool → Cmd (Unit {0})
  unfolding find_tmps set_tmps save_current_time
  handle_open_call stop tracee openat = do
    let name_reg = if openat then rsi else rdi
    let flags_reg = if openat then rdx else rsi
    tmps ← find_tmps tracee
    set_tmps tracee (λ tmps. record tmps { int_a = to_int (stop.peek_user flags_reg) })
    let base = low64 (stop.peek_user name_reg)
    buffer ← elim (read_string stop base tmps.filename_buffer filename_buff_size) [
      | none ↦ exit
      | some buffer ↦ pure buffer
    ]
    set_tmps tracee (λ tmps. record tmps { filename_buffer = buffer })
    save_current_time stop tracee

  unfoldable pub handle_open_return : Stop → ℤ → Cmd (Unit {0})
  unfolding calc_elapsed_ns
  handle_open_return stop tracee = do
    (tmps, elapsed_ns) ← calc_elapsed_ns stop tracee
    let ret_fd = stop.peek_user rax
    let filename = c_string tmps.filename_buffer
    if nonneg ret_fd
        then fd_table_insert tmps.fd_table tmps.fd_mutex (to_int ret_fd) filename
            (wants_cloexec tmps.int_a)
        else pure tt
    file_stats (λ t. incr_open t filename elapsed_ns)

  -- The first argument is the descriptor, in close, read and write.
  unfoldable pub save_fd : Stop → ℤ → Cmd (Unit {0})
  unfolding find_tmps set_tmps
  save_fd stop tracee = do
    find_tmps tracee
    set_tmps tracee (λ tmps. record tmps { int_a = to_int (stop.peek_user rdi) })

  unfoldable pub handle_close_call : Stop → ℤ → Cmd (Unit {0})
  unfolding save_fd save_current_time
  handle_close_call stop tracee = save_fd stop tracee >> save_current_time stop tracee

  -- The name of the descriptor in `int_a`, or "NULL".
  abbrev pub known_name : Option CString → CString
  known_name filename = or_else filename (codes "NULL")

  unfoldable pub handle_close_return : Stop → ℤ → Cmd (Unit {0})
  unfolding calc_elapsed_ns
  handle_close_return stop tracee = do
    (tmps, elapsed_ns) ← calc_elapsed_ns stop tracee
    lock tmps.fd_mutex
    filename ← fd_table_lookup tmps.fd_table tmps.int_a
    file_stats (λ t. incr_close t (known_name filename) elapsed_ns)
    unlock tmps.fd_mutex
    fd_table_remove tmps.fd_table tmps.fd_mutex tmps.int_a
    pure tt

  unfoldable pub handle_read_call : Stop → ℤ → Cmd (Unit {0})
  unfolding save_fd save_current_time
  handle_read_call stop tracee = save_fd stop tracee >> save_current_time stop tracee

  unfoldable pub handle_read_return : Stop → ℤ → Cmd (Unit {0})
  unfolding calc_elapsed_ns
  handle_read_return stop tracee = do
    (tmps, elapsed_ns) ← calc_elapsed_ns stop tracee
    let ret_bytes = stop.peek_user rax
    lock tmps.fd_mutex
    filename ← fd_table_lookup tmps.fd_table tmps.int_a
    file_stats (λ t. incr_read t (known_name filename) elapsed_ns ret_bytes)
    unlock tmps.fd_mutex

  unfoldable pub handle_write_call : Stop → ℤ → Cmd (Unit {0})
  unfolding save_fd save_current_time
  handle_write_call stop tracee = save_fd stop tracee >> save_current_time stop tracee

  unfoldable pub handle_write_return : Stop → ℤ → Cmd (Unit {0})
  unfolding calc_elapsed_ns
  handle_write_return stop tracee = do
    (tmps, elapsed_ns) ← calc_elapsed_ns stop tracee
    let ret_bytes = stop.peek_user rax
    lock tmps.fd_mutex
    filename ← fd_table_lookup tmps.fd_table tmps.int_a
    file_stats (λ t. incr_write t (known_name filename) elapsed_ns ret_bytes)
    unlock tmps.fd_mutex
