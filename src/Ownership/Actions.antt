-- ===== src/Ownership/Actions.antt =====
-- The tracer as a whole: the actions of the threads on the records that they share, one at a time and
-- in any order. At the return of execve other threads may go on after its test of the count: then
-- what follows the test is an action of its own, `execs_late`, in any state that they have left.
use iotrace.Base.{ℕ, ◌≡◌, ◌⊎◌, true, none, some, List, ℤ, to_int}
use iotrace.Glib.{Glib}
use iotrace.Double.{Double}
use iotrace.FdTable.{FdTable}
use iotrace.FdTable.View.{view}
use iotrace.FdTable.Refused.{FirstRefused}
use iotrace.FileStat.{FileStatTable}
use iotrace.SyscallStat.{SyscallTable}
use iotrace.Tracer.{Timespec, ThreadTmps, State, Run, ok, fault, Cmd, pure, puts, ◌>>=◌, ◌>>◌}
use iotrace.SyscallHandler.Stop.{Stop, rax}
use iotrace.SyscallHandler.Dispatch.{handle_syscall_call, handle_syscall_return}
use iotrace.SyscallHandler.Considered.{Considered, kind}
use iotrace.SyscallHandler.Unconsidered.{after_test}
use iotrace.SyscallHandler.Others.{other_ops}
use iotrace.SyscallHandler.Saves.{NameRead}
use iotrace.Main.Threads.{threads_add, thread_begin}
use iotrace.Main.Loop.{tracer_end}
use iotrace.Ownership.Sound.{IsSound}

module _ ⦃g : Glib⦄ ⦃d : Double⦄ where
  -- One thread runs from one of its stops to the next, or goes on in the return of execve where it saw
  -- that its table was shared, or begins, or ends; and another one goes on, with its own statistics.
  pub data Action : Type 0 where
    calls : ℤ → ℤ → Stop → Action
    returns_from : ℤ → ℤ → Stop → Action
    execs_late : ℤ → Action
    begins_with : ThreadTmps → ℤ → ℤ → ℤ → Action
    ends : ℤ → FileStatTable → SyscallTable → Action
    switches : FileStatTable → SyscallTable → Action

  abbrev pub act : Action → Cmd (Unit {0})
  act (calls tracee sc stop) = handle_syscall_call stop tracee sc
  act (returns_from tracee sc stop) = handle_syscall_return stop tracee sc
  act (execs_late tracee) = after_test tracee true
  act (begins_with raw child parent flags) = threads_add child parent flags >>= thread_begin raw
  act (ends tracee files sums) = tracer_end tracee files sums >> pure tt
  act (switches files sums) = puts (λ s. record s { file_stat_table = files; syscall_table = sums })

  -- A tracee that has a record, at a stop where the clock works.
  pub record Stops (s : State) (tracee : ℤ) (stop : Stop) : Type 0 where
    pub tmps : ThreadTmps
    pub found : g.lookup s.thread_tmps_table tracee ≡ some tmps
    pub now : Timespec
    pub clock : stop.clock ≡ some now

  pub record Calls (s : State) (tracee sc : ℤ) (stop : Stop) : Type 0 where
    pub stops : Stops s tracee stop
    pub named :
        (k : Considered) → kind sc ≡ some k → (buffer : List ℕ) × NameRead k stop stops.tmps buffer

  -- When an action can be: the tracee has a record, the clock works, the name of a file can be read,
  -- and a new tracee has no record.
  abbrev pub IsAllowed : State → Action → Type 0
  IsAllowed s (calls tracee sc stop) = Calls s tracee sc stop
  IsAllowed s (returns_from tracee sc stop) = Stops s tracee stop
  IsAllowed s (execs_late tracee) =
      (tmps : ThreadTmps) × (g.lookup s.thread_tmps_table tracee ≡ some tmps)
  IsAllowed s (begins_with raw child parent flags) =
      (tmps : ThreadTmps) × (g.lookup s.thread_tmps_table parent ≡ some tmps)
      × (g.lookup s.thread_tmps_table child ≡ none)
  IsAllowed s (ends tracee files sums) =
      (tmps : ThreadTmps) × (g.lookup s.thread_tmps_table tracee ≡ some tmps)
  IsAllowed s (switches files sums) = Unit

  abbrev pub GoesOn : Run (Unit {0}) → Type 0
  GoesOn r = (s' : State) × (r ≡ ok tt s') × IsSound s'

  -- A return that asks for the entry of a descriptor which the table does not hold, or, for
  -- TIOCGPTPEER, for an entry with a name that does not fit the buffer.
  pub record Misses (s : State) (tracee sc : ℤ) (stop : Stop) (r : Run (Unit {0})) : Type 0 where
    pub tmps : ThreadTmps
    pub found : g.lookup s.thread_tmps_table tracee ≡ some tmps
    pub files : FdTable
    pub table : s.fd_tables tmps.fd_table ≡ some files
    pub misses : FirstRefused (view files) (other_ops sc tmps (to_int (stop.peek_user rax)))
    pub faults : r ≡ fault

  abbrev pub Outcome : State → Action → Run (Unit {0}) → Type 0
  Outcome s (calls tracee sc stop) r = GoesOn r
  Outcome s (returns_from tracee sc stop) r = GoesOn r ⊎ Misses s tracee sc stop r
  Outcome s (execs_late tracee) r = GoesOn r
  Outcome s (begins_with raw child parent flags) r = GoesOn r
  Outcome s (ends tracee files sums) r = GoesOn r
  Outcome s (switches files sums) r = GoesOn r
