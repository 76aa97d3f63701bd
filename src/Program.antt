-- ===== src/Program.antt =====
-- src/main.c as a whole: the threads, each with a tracee and statistics of its own, on the records,
-- the tables of descriptors, the counts and the mutexes that they share.
pub mod Runs
pub mod Records
pub mod Orderly
pub mod Kept
pub mod Logs
pub mod Accounts
pub mod Changes
pub mod Finished
pub mod Outcomes
pub mod Ends
pub mod Joined
pub mod Descriptors
pub mod Tables
pub mod Lone
pub mod Handled
pub mod Moved
use iotrace.Base.{
  ℕ, ◌+◌, ◌-◌, ◌%◌, ◌^◌, ◌≡◌, Bool, true, false, not, ◌&&◌, ◌||◌, ◌==◌, Option, none, some, List,
  [], ◌∷◌, ◌++◌, if◌then◌else◌, ℤ,
}
use iotrace.Glib.{Glib}
use iotrace.Double.{Double}
use iotrace.FdTable
use iotrace.FdTable.{FdTable}
use iotrace.FileStat
use iotrace.FileStat.{FileStatTable}
use iotrace.FileStat.History.{Events}
use iotrace.SyscallStat
use iotrace.SyscallStat.{SyscallTable}
use iotrace.SyscallStat.Summary.{Calls}
use iotrace.Tracer.{Timespec, ThreadTmps, State, ok, and_then}
use iotrace.Tracer.Temporaries.{thread_tmps_remove}
use iotrace.SyscallHandler.Stop.{Stop, elapsed}
use iotrace.SyscallHandler.Files.{known_name}
use iotrace.SyscallHandler.Sys
use iotrace.SyscallHandler.Unconsidered.{after_test, handle_unconsidered_return}
use iotrace.SyscallHandler.Dispatch.{handle_syscall_call, handle_syscall_return}
use iotrace.SyscallHandler.Considered.{kind, effect}
use iotrace.Main.Threads.{threads_add, thread_begin}
use iotrace.Main.Wait.{Wait}
use iotrace.Main.Loop.{leaves, wait_for_syscall}
use iotrace.Ownership.Actions
use iotrace.Ownership.Actions.{Stops}

-- Where a thread is: in the loop of `start_tracer`, after the merge of its statistics of files, after
-- that of the other calls, or after `thread_tmps_remove`.
pub data Stage : Type 0 where
  tracing files_merged both_merged record_removed : Stage

abbrev pub adds_calls : ℤ → ThreadTmps → Timespec → Calls
adds_calls sc tmps now = elim (kind sc) [
  | none ↦ (sc, elapsed tmps.start_time now) ∷ []
  | some k ↦ []
]

module _ ⦃g : Glib⦄ ⦃d : Double⦄ where
  -- What a return adds to the statistics, as the specification of the calls has it.
  abbrev pub adds_events : ℤ → Stop → ThreadTmps → FdTable → Timespec → Events
  adds_events sc stop tmps files now = elim (kind sc) [
    | none ↦ []
    | some k ↦
        let name = known_name (FdTable.lookup files tmps.int_a) in
        (effect k stop tmps name (elapsed tmps.start_time now)).events
  ]

  -- A thread; `own` is that of `main_tracer` itself, which is not counted as active.
  pub record Tracer : Type 0 where
    pub tracee : ℤ
    pub own : Bool
    pub stage : Stage
    pub file_stat_table : FileStatTable
    pub syscall_table : SyscallTable

  -- `shared` is what all threads work on, `tracers` are the threads that have not ended.
  pub record Program : Type 0 where
    pub shared : State
    pub active_threads : ℕ
    pub threads : List ℤ
    pub tracers : List Tracer
    pub main_file_stat_table : FileStatTable
    pub main_syscall_table : SyscallTable

  -- `start_tracer` begins with empty tables.
  abbrev pub new_tracer : ℤ → Bool → Tracer
  new_tracer tracee own = record {
    tracee = tracee;
    own = own;
    stage = tracing;
    file_stat_table = FileStat.create;
    syscall_table = SyscallStat.create;
  }

  -- `main_tracer` before its call of `start_tracer`.
  abbrev pub first_program : ℤ → State → Program
  first_program tracee s = record {
    shared = s;
    active_threads = 0;
    threads = [];
    tracers = new_tracer tracee true ∷ [];
    main_file_stat_table = FileStat.create;
    main_syscall_table = SyscallStat.create;
  }

  -- The state as a thread sees it, and the thread after a run.
  abbrev pub seen_by : Tracer → State → State
  seen_by t s = record s { file_stat_table = t.file_stat_table; syscall_table = t.syscall_table }

  abbrev pub stopped : Tracer → State → Tracer
  stopped t s = record t { file_stat_table = s.file_stat_table; syscall_table = s.syscall_table }

  abbrev pub at_stage : Stage → Tracer → Tracer
  at_stage stage t = record t { stage = stage }

  -- The threads that are active once a thread has ended.
  abbrev pub fewer : Bool → ℕ → ℕ
  fewer own active = if own then active else (active + (2 ^ 32 - 1)) % 2 ^ 32

  abbrev pub any_own : List Tracer → Bool
  any_own [] = false
  any_own (t ∷ ts) = t.own || any_own ts

  -- `start_tracer` has returned in `main_tracer`, and its loop that waits for the threads ends.
  abbrev pub waits_over : Program → Bool
  waits_over p = not (any_own p.tracers) && p.active_threads == 0

  -- One thread goes on, where the run of it ends well; it leaves the loop of `start_tracer` where the
  -- last answers to a wait of it make it do so. At the
  -- return of execve other threads may have gone on after its test of the count, which is then not
  -- made again. The lists are what its return adds to its statistics. A new tracee is one that has no record, and its thread takes its record before the
  -- thread of its parent goes on, which src/main.c does not see to.
  pub data Step (p : Program) : Events → Calls → Program → Type 0 where
    calls :
        (before after : List Tracer) (t : Tracer)
        → p.tracers ≡ before ++ t ∷ after
        → t.stage ≡ tracing
        → (sc : ℤ) (stop : Stop) → Actions.Calls (seen_by t p.shared) t.tracee sc stop
        → (s : State) → handle_syscall_call stop t.tracee sc (seen_by t p.shared) ≡ ok tt s
        → Step p [] [] (record p { shared = s; tracers = before ++ stopped t s ∷ after })
    returns :
        (before after : List Tracer) (t : Tracer)
        → p.tracers ≡ before ++ t ∷ after
        → t.stage ≡ tracing
        → (sc : ℤ) (stop : Stop) (st : Stops (seen_by t p.shared) t.tracee stop) (files : FdTable)
        → p.shared.fd_tables st.tmps.fd_table ≡ some files
        → (s : State) → handle_syscall_return stop t.tracee sc (seen_by t p.shared) ≡ ok tt s
        → Step p
            (adds_events sc stop st.tmps files st.now)
            (adds_calls sc st.tmps st.now)
            (record p { shared = s; tracers = before ++ stopped t s ∷ after })
    executes_late :
        (before after : List Tracer) (t : Tracer)
        → p.tracers ≡ before ++ t ∷ after
        → t.stage ≡ tracing
        → (stop : Stop) (st : Stops (seen_by t p.shared) t.tracee stop) → (s : State)
        → and_then
            (handle_unconsidered_return stop t.tracee Sys.execve (seen_by t p.shared))
            (λ _. after_test t.tracee true)
          ≡ ok tt s
        → Step p []
            ((Sys.execve, elapsed st.tmps.start_time st.now) ∷ [])
            (record p { shared = s; tracers = before ++ stopped t s ∷ after })
    begins :
        (before after : List Tracer) (t : Tracer)
        → p.tracers ≡ before ++ t ∷ after
        → t.stage ≡ tracing
        → (raw : ThreadTmps) (child flags : ℤ) → g.lookup p.shared.thread_tmps_table child ≡ none
        → (s : State)
        → and_then (threads_add child t.tracee flags p.shared) (thread_begin raw) ≡ ok tt s
        → Step p [] [] (record p {
          shared = s;
          active_threads = (p.active_threads + 1) % 2 ^ 32;
          threads = child ∷ p.threads;
          tracers = new_tracer child false ∷ p.tracers;
        })
    merges_files :
        (before after : List Tracer) (t : Tracer)
        → p.tracers ≡ before ++ t ∷ after
        → t.stage ≡ tracing
        → (junk : ℕ) (answers : List Wait)
        → wait_for_syscall t.tracee junk answers (seen_by t p.shared)
          ≡ ok leaves (seen_by t p.shared)
        → Step p [] [] (record p {
          tracers = before ++ at_stage files_merged t ∷ after;
          main_file_stat_table = FileStat.merge p.main_file_stat_table t.file_stat_table;
        })
    merges_calls :
        (before after : List Tracer) (t : Tracer)
        → p.tracers ≡ before ++ t ∷ after
        → t.stage ≡ files_merged
        → Step p [] [] (record p {
          tracers = before ++ at_stage both_merged t ∷ after;
          main_syscall_table = SyscallStat.merge p.main_syscall_table t.syscall_table;
        })
    removes :
        (before after : List Tracer) (t : Tracer)
        → p.tracers ≡ before ++ t ∷ after
        → t.stage ≡ both_merged
        → (b : Bool) (s : State) → thread_tmps_remove t.tracee p.shared ≡ ok b s
        → Step p [] []
            (record p { shared = s; tracers = before ++ at_stage record_removed t ∷ after })
    finishes :
        (before after : List Tracer) (t : Tracer)
        → p.tracers ≡ before ++ t ∷ after
        → t.stage ≡ record_removed
        → Step p [] []
            (record p { active_threads = fewer t.own p.active_threads; tracers = before ++ after })

  -- Any steps, with all that the returns on the way added.
  pub data Steps (p : Program) : Events → Calls → Program → Type 0 where
    here : Steps p [] [] p
    further :
        {es fs : Events} {cs ds : Calls} {q r : Program}
        → Steps p es cs q
        → Step q fs ds r
        → Steps p (es ++ fs) (cs ++ ds) r
