-- ===== src/Main/Pool.antt =====
-- The threads of src/main.c as a whole: how many are active, which ones are joined at the end, and the
-- statistics that each of them merges into those of the program when its tracee has ended.
pub mod Progress
pub mod Counted
pub mod Finished
use iotrace.Base.{
  ℕ, ◌+◌, ◌-◌, ◌%◌, ◌^◌, ◌≡◌, ◌⊎◌, Bool, ◌==◌, Option, none, some, List, [], ◌∷◌, ◌++◌, ℤ,
}
use iotrace.Glib.{Glib}
use iotrace.Double.{Double}
use iotrace.FileStat
use iotrace.FileStat.{FileStatTable}
use iotrace.FileStat.History.{Events}
use iotrace.SyscallStat
use iotrace.SyscallStat.{SyscallTable}
use iotrace.SyscallStat.Summary.{Calls}
use iotrace.Main.Together.{merge_files, merge_calls}

-- Where a thread is: in the loop of `start_tracer`, after its statistics of files were merged, or
-- after both were.
pub data Phase : Type 0 where
  tracing half_merged merged : Phase

module _ ⦃g : Glib⦄ ⦃d : Double⦄ where
  -- `active_threads`, `threads`, the two tables of the program, and where each thread is that has not
  -- ended, and `main_tracer` itself.
  pub record Pool : Type 0 where
    pub active_threads : ℕ
    pub threads : List ℤ
    pub unfinished : List (ℤ × Phase)
    pub own : Phase
    pub main_file_stat_table : FileStatTable
    pub main_syscall_table : SyscallTable

  abbrev pub first_pool : Pool
  first_pool = record {
    active_threads = 0;
    threads = [];
    unfinished = [];
    own = tracing;
    main_file_stat_table = FileStat.create;
    main_syscall_table = SyscallStat.create;
  }

  -- `threads_add`: the count, which is a `guint`, and the list.
  abbrev pub thread_added : ℤ → Pool → Pool
  thread_added tracee p = record p {
    active_threads = (p.active_threads + 1) % 2 ^ 32;
    threads = tracee ∷ p.threads;
    unfinished = (tracee, tracing) ∷ p.unfinished;
  }

  -- The end of `thread_func`; `rest` are the other threads.
  abbrev pub thread_finished : List (ℤ × Phase) → Pool → Pool
  thread_finished rest p = record p {
    active_threads = (p.active_threads + (2 ^ 32 - 1)) % 2 ^ 32;
    unfinished = rest;
  }

  -- The test of the loop in `main_tracer` that waits for the threads.
  abbrev pub no_thread : Pool → Bool
  no_thread p = p.active_threads == 0

  -- A tracee runs, so that it can have children.
  abbrev pub IsTracing : Pool → Type 0
  IsTracing p =
      (p.own ≡ tracing)
      ⊎ ((k : ℤ) × (before after : List (ℤ × Phase)) × (p.unfinished
            ≡ before ++ (k, tracing) ∷ after))

  -- `events` and `calls` are what the thread of each tracee sees in all, and `none` stands for the
  -- first tracee, whose thread is `main_tracer` itself.
  module _ (events : Option ℤ → Events) (calls : Option ℤ → Calls) where
    -- What happens next. Each merge is done under a lock of its own, so that the threads may come in
    -- any order at each of them.
    pub data Step (p : Pool) : Pool → Type 0 where
      adds : (k : ℤ) → IsTracing p → Step p (thread_added k p)
      merges_files :
          (before after : List (ℤ × Phase)) (k : ℤ)
          → p.unfinished ≡ before ++ (k, tracing) ∷ after
          → Step p (record p {
            unfinished = before ++ (k, half_merged) ∷ after;
            main_file_stat_table = merge_files p.main_file_stat_table (events (some k));
          })
      merges_calls :
          (before after : List (ℤ × Phase)) (k : ℤ)
          → p.unfinished ≡ before ++ (k, half_merged) ∷ after
          → Step p (record p {
            unfinished = before ++ (k, merged) ∷ after;
            main_syscall_table = merge_calls p.main_syscall_table (calls (some k));
          })
      finishes :
          (before after : List (ℤ × Phase)) (k : ℤ)
          → p.unfinished ≡ before ++ (k, merged) ∷ after
          → Step p (thread_finished (before ++ after) p)
      merges_own_files :
          p.own ≡ tracing
          → Step p (record p {
            own = half_merged;
            main_file_stat_table = merge_files p.main_file_stat_table (events none);
          })
      merges_own_calls :
          p.own ≡ half_merged
          → Step p (record p {
            own = merged;
            main_syscall_table = merge_calls p.main_syscall_table (calls none);
          })

    pub data Steps (p : Pool) : Pool → Type 0 where
      here : Steps p p
      further : {q r : Pool} → Steps p q → Step q r → Steps p r
