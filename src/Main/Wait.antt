-- ===== src/Main/Wait.antt =====
-- `wait_for_syscall` of src/main.c: the loop over the stops of a tracee.
use iotrace.Base.{
  ℕ, zero, suc, ◌+◌, ◌*◌, ◌/◌, ◌%◌, ◌<◌, ◌≡◌, refl, Bool, true, false, ◌&&◌, ◌||◌, Option, none,
  some, List, [], ◌∷◌, ◌++◌, arith, ◌==◌, if◌then◌else◌, ℤ, nonneg, to_int, or_else, is_some,
}
use iotrace.Glib.{Glib}
use iotrace.Double.{Double}
use iotrace.Tracer.{State, ok, Cmd, pure, ◌>>=◌}
use iotrace.Main.Threads.{ThreadStart, threads_add}

-- What `waitpid` and the requests after it answer in one round of the loop: the status of the tracee
-- (`none` where `waitpid` fails and leaves the variable as it was), the flags in the register, the
-- message of an event, and the status of the new tracee.
pub record Wait : Type 0 where
  pub status : Option ℕ
  pub clone_flags : ℤ
  pub new_child : ℤ
  pub child_status : Option ℕ

-- WIFSTOPPED, WSTOPSIG and WIFEXITED of sys/wait.h.
abbrev pub is_stopped : ℕ → Bool
is_stopped status = status % 256 == 127

abbrev pub stop_signal : ℕ → ℕ
stop_signal status = status / 256 % 256

abbrev pub is_exited : ℕ → Bool
is_exited status = status % 128 == 0

abbrev pub sigtrap : ℕ
sigtrap = 5

-- PTRACE_EVENT_CLONE, PTRACE_EVENT_FORK and PTRACE_EVENT_VFORK are 3, 1 and 2.
abbrev pub is_clone : ℕ → Bool
is_clone status =
    (status / 256 == sigtrap + 3 * 256)
    || ((status / 256 == sigtrap + 1 * 256) || (status / 256 == sigtrap + 2 * 256))

abbrev pub is_syscall_stop : ℕ → Bool
is_syscall_stop status = is_stopped status && (stop_signal status == sigtrap + 128)

-- What a wait has come to: 0 (`false`), 1 (`true`) or no return so far; the answers that are left;
-- the tracers started and the signals passed on, in their order.
pub record Waited : Type 0 where
  pub outcome : Option Bool
  pub rest : List Wait
  pub started : List ThreadStart
  pub signals : List ℕ

abbrev pub returned : Bool → List Wait → List ThreadStart → Waited
returned exited rest new = record {
  outcome = some exited;
  rest = rest;
  started = new;
  signals = [];
}

module _ ⦃g : Glib⦄ ⦃d : Double⦄ where
  -- The body under the event of a clone, and the status after it.
  abbrev pub new_tracee : ℤ → ℕ → Wait → Cmd (ℕ × List ThreadStart)
  new_tracee tracee status w =
      if is_clone status && nonneg w.new_child
      then (do
        start ← threads_add w.new_child tracee (to_int w.clone_flags)
        pure (or_else w.child_status status, start ∷ []))
      else pure (status, [])

  -- The signal that the tracee is resumed with.
  abbrev pub resume_signal : ℕ → ℕ
  resume_signal status = if is_stopped status then stop_signal status else 0

  -- The loop from a status on, as long as there are answers.
  unfoldable pub wait_loop : ℤ → ℕ → List Wait → Cmd Waited
  unfolding threads_add
  wait_loop tracee status [] =
      pure (record { outcome = none; rest = []; started = []; signals = [] })
  wait_loop tracee old (w ∷ ws) = do
    (status, new) ← new_tracee tracee (or_else w.status old) w
    if is_syscall_stop status
        then pure (returned false ws new)
        else if is_exited status
        then pure (returned true ws new)
        else (do
          later ← wait_loop tracee status ws
          pure (record later {
            started = new ++ later.started;
            signals = resume_signal status ∷ later.signals;
          }))

-- A stop of the tracee by a signal, and one at a system call.
abbrev pub quiet : Option ℕ → Wait
quiet status = record {
  status = status;
  clone_flags = ℤ.pos 0;
  new_child = ℤ.negsuc 0;
  child_status = none;
}

abbrev pub signal_stop : ℕ → Wait
signal_stop signal = quiet (some (signal * 256 + 127))

abbrev pub syscall_stop : Wait
syscall_stop = signal_stop (sigtrap + 128)

-- The stop at a system call, or the exit with a code.
abbrev pub last_stop : Option ℕ → Wait
last_stop none = syscall_stop
last_stop (some code) = quiet (some (code * 256))

abbrev pub AreSignals : List ℕ → Type 0
AreSignals [] = Unit
AreSignals (n ∷ ns) = (n < 128) × AreSignals ns

abbrev pub signal_stops : List ℕ → List Wait → List Wait
signal_stops [] ws = ws
signal_stops (n ∷ ns) ws = signal_stop n ∷ signal_stops ns ws

abbrev pub failures : ℕ → List Wait
failures zero = []
failures (suc k) = quiet none ∷ failures k

abbrev pub zeros : ℕ → List ℕ
zeros zero = []
zeros (suc k) = 0 ∷ zeros k

module _ ⦃g : Glib⦄ ⦃d : Double⦄ (s : State) (tracee : ℤ) where
  -- Stops by signals and then a stop at a system call, or the exit of the tracee: each signal is
  -- passed on, in its order, the wait ends with 0 or with 1, and the state is as it was.
  pub wait_loop-signal_stops :
      (old : ℕ) (ns : List ℕ) (code : Option ℕ) (ws : List Wait)
      → AreSignals ns
      → wait_loop tracee old (signal_stops ns (last_stop code ∷ ws)) s
        ≡ ok (record { outcome = some (is_some code); rest = ws; started = []; signals = ns }) s
  unfolding wait_loop
  wait_loop-signal_stops old [] none ws h = ground arith
  wait_loop-signal_stops old [] (some c) ws h = ground arith
  wait_loop-signal_stops old (n ∷ ns) code ws h =
      ground (arith, wait_loop-signal_stops (n * 256 + 127) ns code ws h.1)

  failing :
      (signal k : ℕ)
      → 0 < signal
      → signal < 127
      → wait_loop tracee signal (failures k) s
        ≡ ok (record { outcome = none; rest = []; started = []; signals = zeros k }) s
  unfolding wait_loop
  failing signal zero p q = refl
  failing signal (suc k) p q = ground (arith, failing signal k p q)

  -- A tracee that is killed by a signal below 127, without a core dump, after which `waitpid` fails, since there is nothing to wait
  -- for: the wait has not ended after any number of rounds.
  pub wait_loop-killed :
      (old signal k : ℕ)
      → 0 < signal
      → signal < 127
      → wait_loop tracee old (quiet (some signal) ∷ failures k) s
        ≡ ok (record { outcome = none; rest = []; started = []; signals = 0 ∷ zeros k }) s
  unfolding wait_loop
  wait_loop-killed old signal k p q = ground (arith, failing signal k p q)
