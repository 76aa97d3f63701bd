-- ===== src/SyscallHandler/Unconsidered.antt =====
-- The handlers of src/syscall_handler.c for the calls that are not in the statistics of files, some
-- of which change the table of file descriptors.
use iotrace.Base.{
  Bool, true, false, ◌&&◌, not, ltb, if◌then◌else◌, ℤ, pos, negsuc, eq_ℤ, nonneg, to_int, has_bit,
}
use iotrace.Glib.{Glib}
use iotrace.Double.{Double}
use iotrace.SyscallStat
use iotrace.Tracer.{Address, ThreadTmps, Cmd, pure, ◌>>=◌, ◌>>◌, puts}
use iotrace.Tracer.Memory.{load_count, store_count, malloc, new_mutex, free_table}
use iotrace.Tracer.Locked.{
  fd_table_insert_dup, fd_table_set_cloexec, fd_table_deep_copy, fd_table_remove_cloexec,
}
use iotrace.Tracer.Temporaries.{set_tmps, inc_count, dec_and_test}
use iotrace.SyscallHandler.Stop.{
  rdi, rsi, rdx, rax, Stop, save_current_time, find_tmps, calc_elapsed_ns,
}

-- Constants of fcntl.h and of asm/ioctls.h.
abbrev pub f_dupfd : ℤ
f_dupfd = pos 0

abbrev pub f_setfd : ℤ
f_setfd = pos 2

abbrev pub f_dupfd_cloexec : ℤ
f_dupfd_cloexec = pos 1030

abbrev pub tiocgptpeer : ℤ
tiocgptpeer = pos 0x5441

-- `(flags & FD_CLOEXEC) != 0`.
abbrev pub wants_fd_cloexec : ℤ → Bool
wants_fd_cloexec flags = has_bit flags 0

module _ ⦃g : Glib⦄ ⦃d : Double⦄ where
  unfoldable pub handle_dup_call : Stop → ℤ → Cmd (Unit {0})
  unfolding find_tmps set_tmps
  handle_dup_call stop tracee = do
    find_tmps tracee
    set_tmps tracee (λ tmps. record tmps { int_a = to_int (stop.peek_user rdi) })

  unfoldable pub handle_dup_return : Stop → ℤ → Cmd (Unit {0})
  unfolding find_tmps
  handle_dup_return stop tracee = do
    tmps ← find_tmps tracee
    let ret_fd = to_int (stop.peek_user rax)
    if nonneg tmps.int_a && not (eq_ℤ tmps.int_a ret_fd)
        then fd_table_insert_dup tmps.fd_table tmps.fd_mutex tmps.int_a ret_fd false false
        else pure tt

  unfoldable pub handle_fcntl_call : Stop → ℤ → Cmd (Unit {0})
  unfolding find_tmps set_tmps
  handle_fcntl_call stop tracee = do
    find_tmps tracee
    set_tmps tracee (λ tmps. record tmps {
      int_a = to_int (stop.peek_user rdi);
      int_b = to_int (stop.peek_user rsi);
      int_c = to_int (stop.peek_user rdx);
    })

  unfoldable pub handle_fcntl_return : Stop → ℤ → Cmd (Unit {0})
  unfolding find_tmps
  handle_fcntl_return stop tracee =
      let ret_fd = to_int (stop.peek_user rax) in
      if eq_ℤ ret_fd (negsuc 0) then pure tt else do
        tmps ← find_tmps tracee
        if eq_ℤ tmps.int_b f_dupfd
            then fd_table_insert_dup tmps.fd_table tmps.fd_mutex tmps.int_a ret_fd false false
            else if eq_ℤ tmps.int_b f_dupfd_cloexec
            then fd_table_insert_dup tmps.fd_table tmps.fd_mutex tmps.int_a ret_fd true false
            else if eq_ℤ tmps.int_b f_setfd
            then fd_table_set_cloexec tmps.fd_table tmps.fd_mutex tmps.int_a
                (wants_fd_cloexec tmps.int_c)
            else pure tt

  -- The count and the mutex of a thread that leaves a shared table: the old ones if all others have
  -- left in the meantime, else new ones.
  leave_shared : ThreadTmps → Cmd (Address × Address)
  leave_shared tmps = do
    last ← dec_and_test tmps.share_count
    if last then (do free_table tmps.fd_table; pure (tmps.share_count, tmps.fd_mutex)) else (do
      share_count ← malloc
      store_count share_count 0
      fd_mutex ← new_mutex
      pure (share_count, fd_mutex))

  -- A table that is shared is replaced by a copy before it is changed.
  unfoldable pub unshare : ℤ → ThreadTmps → Cmd (Unit {0})
  unfolding set_tmps leave_shared
  unshare tracee tmps = do
    fd_copy ← fd_table_deep_copy tmps.fd_table tmps.fd_mutex
    (share_count, fd_mutex) ← leave_shared tmps
    set_tmps tracee
        (λ tmps. record tmps { fd_table = fd_copy; share_count = share_count; fd_mutex = fd_mutex })
    inc_count share_count

  -- What follows the test of the count. Other threads may have left the table since then.
  unfoldable pub after_test : ℤ → Bool → Cmd (Unit {0})
  unfolding find_tmps unshare
  after_test tracee shared = do
    if shared then (do tmps ← find_tmps tracee; unshare tracee tmps) else pure tt
    tmps ← find_tmps tracee
    fd_table_remove_cloexec tmps.fd_table tmps.fd_mutex

  unfoldable pub handle_execve_return : ℤ → Cmd (Unit {0})
  unfolding find_tmps after_test
  handle_execve_return tracee = do
    tmps ← find_tmps tracee
    share_count ← load_count tmps.share_count
    after_test tracee (ltb 1 share_count)

  unfoldable pub handle_ioctl_call : Stop → ℤ → Cmd (Unit {0})
  unfolding find_tmps set_tmps
  handle_ioctl_call stop tracee = do
    find_tmps tracee
    set_tmps tracee (λ tmps. record tmps {
      int_a = to_int (stop.peek_user rdi);
      int_b = to_int (stop.peek_user rsi);
    })

  unfoldable pub handle_ioctl_return : Stop → ℤ → Cmd (Unit {0})
  unfolding find_tmps
  handle_ioctl_return stop tracee = do
    tmps ← find_tmps tracee
    let ret_fd = to_int (stop.peek_user rax)
    if eq_ℤ tmps.int_b tiocgptpeer
        then fd_table_insert_dup tmps.fd_table tmps.fd_mutex tmps.int_a ret_fd false true
        else pure tt

  unfoldable pub handle_unconsidered_call : Stop → ℤ → Cmd (Unit {0})
  unfolding find_tmps save_current_time
  handle_unconsidered_call stop tracee = do find_tmps tracee; save_current_time stop tracee

  unfoldable pub handle_unconsidered_return : Stop → ℤ → ℤ → Cmd (Unit {0})
  unfolding calc_elapsed_ns
  handle_unconsidered_return stop tracee sc = do
    (tmps, elapsed_ns) ← calc_elapsed_ns stop tracee
    puts (λ s. record s { syscall_table = SyscallStat.incr s.syscall_table sc elapsed_ns })
