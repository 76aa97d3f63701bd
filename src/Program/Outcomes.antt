-- ===== src/Program/Outcomes.antt =====
-- What the threads of src/main.c do next, in any order: none of them finds its record missing, or waits
-- for a mutex for ever.
use iotrace.Base.{ℕ, ◌≡◌, List, ◌∷◌, ◌++◌, true, none, some, ℤ}
use iotrace.Glib.{Glib}
use iotrace.Double.{Double}
use iotrace.FileStat.{FileStatTable}
use iotrace.FileStat.History.{Events}
use iotrace.SyscallStat.{SyscallTable}
use iotrace.SyscallStat.Summary.{Calls}
use iotrace.Tracer.{Timespec, ThreadTmps, State, ok}
use iotrace.SyscallHandler.Stop.{Stop}
use iotrace.SyscallHandler.Considered.{Considered, kind}
use iotrace.SyscallHandler.Saves.{NameRead}
use iotrace.Ownership.Actions.{
  act, Action, IsAllowed, Outcome, calls, returns_from, execs_late, begins_with, ends,
}
use iotrace.Ownership.Outcomes.{act-Outcome}
use iotrace.Ownership.Reach.{main_start, blank}
use iotrace.Program.{Tracer, Program, Steps, first_program, seen_by}
use iotrace.Program.Orderly.{live, live-found}
use iotrace.Program.Kept.{seen_by-IsSound, Steps-IsOrderly}
use iotrace.Program.Finished.{main_start-IsOrderly}

-- What a thread can come to: the call of a system call, its return, what follows the test of the count
-- at the return of execve, a new tracee of its own, or the end of its tracee.
pub data Attempt : Type 0 where
  at_call at_return : ℤ → Stop → Attempt
  at_child : ThreadTmps → ℤ → ℤ → Attempt
  at_late_execve at_end : Attempt

module _ ⦃g : Glib⦄ ⦃d : Double⦄ where
  abbrev pub action_of : Tracer → Attempt → Action
  action_of t (at_call sc stop) = calls t.tracee sc stop
  action_of t (at_return sc stop) = returns_from t.tracee sc stop
  action_of t (at_child raw child flags) = begins_with raw child t.tracee flags
  action_of t at_late_execve = execs_late t.tracee
  action_of t at_end = ends t.tracee t.file_stat_table t.syscall_table

  -- The clock works, the name of the file can be read into the record that the thread's tracee has,
  -- and a new tracee has no record. That the thread's tracee has a record is not part of it.
  abbrev pub CanBe : State → Tracer → Attempt → Type 0
  CanBe s t (at_call sc stop) =
      (now : Timespec) × (stop.clock ≡ some now)
      × ((tmps : ThreadTmps)
          → g.lookup s.thread_tmps_table t.tracee ≡ some tmps
          → (k : Considered) → kind sc ≡ some k
          → (buffer : List ℕ) × NameRead k stop tmps buffer)
  CanBe s t (at_return sc stop) = (now : Timespec) × (stop.clock ≡ some now)
  CanBe s t (at_child raw child flags) = g.lookup s.thread_tmps_table child ≡ none
  CanBe s t at_late_execve = Unit
  CanBe s t at_end = Unit

  CanBe-IsAllowed :
      (s : State) (t : Tracer) (tmps : ThreadTmps)
      → g.lookup s.thread_tmps_table t.tracee ≡ some tmps
      → (a : Attempt) → CanBe s t a
      → IsAllowed s (action_of t a)
  CanBe-IsAllowed s t tmps found (at_call sc stop) (now, clock, named) = record {
    stops = record { tmps = tmps; found = found; now = now; clock = clock };
    named = named tmps found;
  }
  CanBe-IsAllowed s t tmps found (at_return sc stop) (now, clock) = record {
    tmps = tmps;
    found = found;
    now = now;
    clock = clock;
  }
  CanBe-IsAllowed s t tmps found (at_child raw child flags) new = (tmps, found, new)
  CanBe-IsAllowed s t tmps found at_late_execve c = (tmps, found)
  CanBe-IsAllowed s t tmps found at_end c = (tmps, found)

  -- From where `main_tracer` comes to its call of `start_tracer`, after any steps of any threads, in
  -- any order: what a thread comes to whose record is not removed, at a stop where the clock works and
  -- the name of a file can be read, or with a new tracee that has no record, or after its test of the
  -- count at the return of execve, ends well with the records
  -- in order, except for a return that asks for the entry of a descriptor which the table does not
  -- hold, or, for TIOCGPTPEER, for one with a name of 256 bytes or more, and which faults.
  pub Steps-Outcome :
      (raw : ThreadTmps) (tracee : ℤ) (files : FileStatTable) (sums : SyscallTable) (s : State)
      → main_start raw tracee (blank files sums) ≡ ok tt s
      → (p : Program) (es : Events) (cs : Calls) → Steps (first_program tracee s) es cs p
      → (before after : List Tracer) (t : Tracer) → p.tracers ≡ before ++ t ∷ after
      → live t.stage ≡ true
      → (a : Attempt) → CanBe (seen_by t p.shared) t a
      → Outcome (seen_by t p.shared) (action_of t a) (act (action_of t a) (seen_by t p.shared))
  Steps-Outcome raw tracee files sums s e p es cs r before after t split l a c =
      let o = Steps-IsOrderly r (main_start-IsOrderly raw tracee files sums s e) in
      let (tmps, found) = live-found o before after t split l in
      act-Outcome (seen_by t p.shared) (seen_by-IsSound t p.shared o.sound) (action_of t a)
        (CanBe-IsAllowed (seen_by t p.shared) t tmps found a c)
