-- ===== src/Program/Joined.antt =====
-- The end of `main_tracer` in src/main.c, after the loop that waits for the threads: they are joined,
-- the statistics are printed, and what is left of the records is released.
use iotrace.Base.{
  ℕ, List, [], ◌∷◌, Bool, true, false, not, ◌&&◌, ◌||◌, ℤ, eq_ℤ, CString, Option, none, some,
  if◌then◌else◌,
}
use mathlib.Core.Option
use iotrace.Glib.{Glib}
use iotrace.Double.{Double}
use iotrace.Stdio.{Printf}
use iotrace.FileStat.{FileStatTable}
use iotrace.SyscallStat
use iotrace.SyscallStat.{SyscallStat, SyscallTable}
use iotrace.Json.{Call}
use iotrace.Tracer.{State, Run, ok, exited, fault, blocked}
use iotrace.Tracer.Temporaries.{thread_tmps_free}
use iotrace.Main.Output.{◌>>=◌, print_results}
use iotrace.Program.{Tracer, Program}

module _ ⦃g : Glib⦄ ⦃d : Double⦄ where
  -- Whether the thread of a tracee has not ended; that of `main_tracer` itself is not joined.
  abbrev pub runs : List Tracer → ℤ → Bool
  runs [] tracee = false
  runs (t ∷ tracers) tracee = (not t.own && eq_ℤ t.tracee tracee) || runs tracers tracee

  abbrev left_by : Run (Unit {0}) → Option State
  left_by (ok a s) = some s
  left_by exited = none
  left_by fault = none
  left_by blocked = none

  -- What `main_tracer` has to release, next to what the records point to: the table of records, the
  -- list of threads and the statistics; `false` and `none` where they are freed.
  pub record Heap : Type 0 where
    pub shared : State
    pub records : Bool
    pub threads : Option (List ℤ)
    pub main_file_stat_table : Option FileStatTable
    pub main_syscall_table : Option SyscallTable

  abbrev pub heap_of : Program → Heap
  heap_of p = record {
    shared = p.shared;
    records = true;
    threads = some p.threads;
    main_file_stat_table = some p.main_file_stat_table;
    main_syscall_table = some p.main_syscall_table;
  }

  -- The releases, in their order; `none` where something is freed twice.
  abbrev g_list_free : Heap → Heap
  g_list_free h = record h { threads = none }

  abbrev records_free : Heap → Option Heap
  records_free h =
      if h.records
      then Option.map (λ s. record h { shared = s; records = false })
          (left_by (thread_tmps_free h.shared))
      else none

  abbrev file_stat_free : Heap → Option Heap
  file_stat_free h =
      Option.map (λ files. record h { main_file_stat_table = none }) h.main_file_stat_table

  abbrev syscall_stat_free : Heap → Option Heap
  syscall_stat_free h =
      Option.map (λ calls. record h { main_syscall_table = none }) h.main_syscall_table

  -- What `main_tracer` printed, what it returns, the threads it joined and what it leaves.
  pub record Ended : Type 0 where
    pub lines : List Printf
    pub err : ℕ
    pub joined : List ℤ
    pub heap : Heap

-- `g_thread_join` is a parameter: `none` is where it waits for a thread that does not end.
module _ ⦃g : Glib⦄ ⦃d : Double⦄ (g_thread_join : List Tracer → ℤ → Option (Unit {0})) where
  -- The loop over the list, which gives the threads that were joined; the first thread is joined before
  -- the test of `next`.
  join_loop : List Tracer → ℤ → List ℤ → Option (List ℤ)
  join_loop tracers thread [] = do _ ← g_thread_join tracers thread; some (thread ∷ [])
  join_loop tracers thread (next ∷ list) = do
    _ ← g_thread_join tracers thread
    joined ← join_loop tracers next list
    some (thread ∷ joined)

  unfoldable pub join_threads : List Tracer → List ℤ → Option (List ℤ)
  unfolding join_loop
  join_threads tracers [] = some []
  join_threads tracers (thread ∷ list) = join_loop tracers thread list

  -- `to_file` writes the JSON output; `none` is where `main_tracer` does not come to its end.
  module _ (to_file : CString → List Call → Bool) (getenv : CString → Option CString)
      (hostname : CString) (verbose : Bool) where
    unfoldable pub main_tracer_end : CString → ℕ → Program → Option Ended
    unfolding join_threads
    main_tracer_end trace_id err p = do
      joined ← join_threads p.tracers p.threads
      (lines, err) ←
          print_results to_file getenv hostname verbose trace_id err p.main_file_stat_table
            p.main_syscall_table
      heap ← records_free (g_list_free (heap_of p))
      heap ← file_stat_free heap
      heap ← syscall_stat_free heap
      some (record { lines = lines; err = err; joined = joined; heap = heap })
