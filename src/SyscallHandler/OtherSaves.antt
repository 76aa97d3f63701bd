-- ===== src/SyscallHandler/OtherSaves.antt =====
-- What the calls that are not in the statistics of files save for their returns.
use iotrace.Base.{
  ◌≡◌, none, some, [], ◌∷◌, arith, if◌then◌else◌, ℤ, eq_ℤ, to_int, Bool-cases, inl, inr,
}
use iotrace.Glib.{Glib}
use iotrace.Double.{Double}
use iotrace.Tracer.{Timespec, ThreadTmps, State, and_then}
use iotrace.SyscallHandler.Sys
use iotrace.SyscallHandler.Stop.{Stop, rdi, rsi, rdx}
use iotrace.SyscallHandler.Unconsidered.{
  handle_unconsidered_call, handle_dup_call, handle_fcntl_call, handle_ioctl_call,
}
use iotrace.SyscallHandler.Dispatch.{one_of, dup_calls, save_unconsidered, handle_syscall_call}
use iotrace.SyscallHandler.Considered.{kind}
use iotrace.SyscallHandler.Saves.{calls, dispatch_call, HasSaved, changes-HasSaved, changed-own}

-- The arguments that are kept.
abbrev one_int : Stop → ThreadTmps → ThreadTmps
one_int stop tmps = record tmps { int_a = to_int (stop.peek_user rdi) }

abbrev two_ints : Stop → ThreadTmps → ThreadTmps
two_ints stop tmps = record tmps {
  int_a = to_int (stop.peek_user rdi);
  int_b = to_int (stop.peek_user rsi);
}

abbrev three_ints : Stop → ThreadTmps → ThreadTmps
three_ints stop tmps = record tmps {
  int_a = to_int (stop.peek_user rdi);
  int_b = to_int (stop.peek_user rsi);
  int_c = to_int (stop.peek_user rdx);
}

abbrev pub other_arguments : ℤ → Stop → ThreadTmps → ThreadTmps
other_arguments sc stop tmps =
    if one_of sc dup_calls
    then one_int stop tmps
    else if eq_ℤ sc Sys.fcntl
    then three_ints stop tmps
    else if eq_ℤ sc Sys.ioctl
    then two_ints stop tmps
    else tmps

abbrev pub other_saved : ℤ → Stop → Timespec → ThreadTmps → ThreadTmps
other_saved sc stop now tmps = record (other_arguments sc stop tmps) { start_time = now }

module _ ⦃g : Glib⦄ ⦃d : Double⦄ (s : State) (tracee : ℤ) (tmps : ThreadTmps)
    (found : g.lookup s.thread_tmps_table tracee ≡ some tmps) (stop : Stop) (now : Timespec)
    (clock : stop.clock ≡ some now) where
  abbrev timed : ThreadTmps → ThreadTmps
  timed t = record t { start_time = now }

  abbrev Saves : ℤ → ThreadTmps → Type 0
  Saves sc t =
      HasSaved s tracee (timed t)
        (and_then (save_unconsidered stop tracee sc s) (λ _. handle_unconsidered_call stop tracee))

  save-HasSaved : (sc : ℤ) → Saves sc (other_arguments sc stop tmps)
  unfolding save_unconsidered handle_unconsidered_call handle_dup_call handle_fcntl_call
      handle_ioctl_call
  save-HasSaved sc = elim (Bool-cases (one_of sc dup_calls)) [
    | inl a ↦ rw a (
        changes-HasSaved s tracee tmps (timed ∷ one_int stop ∷ []) _ found
          (ground (arith, found, changed-own s tracee tmps (one_int stop ∷ []) found)))
    | inr a ↦ rw a (elim (Bool-cases (eq_ℤ sc Sys.fcntl)) [
      | inl b ↦ rw b (
          changes-HasSaved s tracee tmps (timed ∷ three_ints stop ∷ []) _ found
            (ground (arith, found, changed-own s tracee tmps (three_ints stop ∷ []) found)))
      | inr b ↦ rw b (elim (Bool-cases (eq_ℤ sc Sys.ioctl)) [
        | inl c ↦ rw c (
            changes-HasSaved s tracee tmps (timed ∷ two_ints stop ∷ []) _ found
              (ground (arith, found, changed-own s tracee tmps (two_ints stop ∷ []) found)))
        | inr c ↦ rw c (changes-HasSaved s tracee tmps (timed ∷ []) _ found (ground (arith, found)))
      ])
    ])
  ]

  -- Any other call, of a tracee that has a record, with a clock that works: the run ends well; the
  -- record holds the time, for dup, fcntl and ioctl the arguments too, and otherwise what it held; the
  -- records of the other tracees and the rest of the state are as they were.
  pub handle_syscall_call-other :
      (sc : ℤ)
      → kind sc ≡ none
      → HasSaved s tracee (other_saved sc stop now tmps) (handle_syscall_call stop tracee sc s)
  handle_syscall_call-other sc e = rw (dispatch_call stop tracee sc s, e, calls) (save-HasSaved sc)
