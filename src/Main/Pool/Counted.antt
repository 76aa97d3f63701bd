-- ===== src/Main/Pool/Counted.antt =====
-- The steps of the threads of src/main.c keep count of what was merged.
use iotrace.Base.{
  ◌≡◌, refl, none, some, List, [], ◌∷◌, ◌++◌, arith, foldl, foldl-append, ap, sym, ◌∙◌, ℤ,
}
use iotrace.Glib.{Glib}
use iotrace.Double.{Double}
use iotrace.FileStat
use iotrace.FileStat.{FileStatTable}
use iotrace.FileStat.History.{Events}
use iotrace.SyscallStat
use iotrace.SyscallStat.{SyscallTable}
use iotrace.SyscallStat.Summary.{Calls}
use iotrace.Main.Together.{merge_files, merge_calls, merged_files, merged_calls}
use iotrace.Main.Pool.Progress.{
  Who, each, each-append, late_files, late_calls, Progress, added-Progress, kept-Progress,
  merged-Progress, finished-Progress, own_kept-Progress, own_merged-Progress, IsActive,
  kept-IsActive, finished-IsActive,
}
use iotrace.Main.Pool.{
  tracing, half_merged, merged, Pool, first_pool, thread_added, Step, adds, merges_files,
  merges_calls, finishes, merges_own_files, merges_own_calls, Steps, here, further,
}

module _ ⦃g : Glib⦄ ⦃d : Double⦄ (events : Who → Events) (calls : Who → Calls) where
  merged_files-append :
      (order : List Who) (who : Who)
      → merged_files (each events (order ++ who ∷ []))
        ≡ merge_files (merged_files (each events order)) (events who)
  unfolding merged_files foldl
  merged_files-append order who =
      rw (each-append events order (who ∷ []))
        (foldl-append merge_files FileStat.create (each events order) (events who ∷ []))

  merged_calls-append :
      (order : List Who) (who : Who)
      → merged_calls (each calls (order ++ who ∷ []))
        ≡ merge_calls (merged_calls (each calls order)) (calls who)
  unfolding merged_calls foldl
  merged_calls-append order who =
      rw (each-append calls order (who ∷ []))
        (foldl-append merge_calls SyscallStat.create (each calls order) (calls who ∷ []))

  -- What the two tables hold so far, in which order it came there, and who is still to come; and what
  -- the count is.
  pub record IsCounted (p : Pool) : Type 0 where
    pub files_order : List Who
    pub calls_order : List Who
    pub files : p.main_file_stat_table ≡ merged_files (each events files_order)
    pub sums : p.main_syscall_table ≡ merged_calls (each calls calls_order)
    pub files_all : Progress late_files files_order p.own p.unfinished p.threads
    pub calls_all : Progress late_calls calls_order p.own p.unfinished p.threads
    pub count : IsActive p.active_threads p.unfinished p.threads

  pub first-IsCounted : IsCounted first_pool
  unfolding merged_files merged_calls foldl
  first-IsCounted = record {
    files_order = [];
    calls_order = [];
    files = refl;
    sums = refl;
    files_all = record { all = λ test. omega arith };
    calls_all = record { all = λ test. omega arith };
    count = record { same = omega arith; few = omega arith };
  }

  added-IsCounted : {p : Pool} → IsCounted p → (k : ℤ) → IsCounted (thread_added k p)
  added-IsCounted c k = record {
    files_order = c.files_order;
    calls_order = c.calls_order;
    files = c.files;
    sums = c.sums;
    files_all = added-Progress c.files_all k refl;
    calls_all = added-Progress c.calls_all k refl;
    count = record { same = omega (arith, c.count.same); few = omega (arith, c.count.few) };
  }

  Step-IsCounted : {p q : Pool} → IsCounted p → Step events calls p q → IsCounted q
  Step-IsCounted c (adds k runs) = added-IsCounted c k
  Step-IsCounted {p} c (merges_files before after k e) = record {
    files_order = c.files_order ++ some k ∷ [];
    calls_order = c.calls_order;
    files =
        ap (λ t. merge_files t (events (some k))) c.files
        ∙ sym (merged_files-append c.files_order (some k));
    sums = c.sums;
    files_all = merged-Progress c.files_all before after k tracing half_merged e refl refl;
    calls_all = kept-Progress c.calls_all before after k tracing half_merged e refl;
    count = kept-IsActive c.count before after k tracing half_merged e;
  }
  Step-IsCounted {p} c (merges_calls before after k e) = record {
    files_order = c.files_order;
    calls_order = c.calls_order ++ some k ∷ [];
    files = c.files;
    sums =
        ap (λ t. merge_calls t (calls (some k))) c.sums
        ∙ sym (merged_calls-append c.calls_order (some k));
    files_all = kept-Progress c.files_all before after k half_merged merged e refl;
    calls_all = merged-Progress c.calls_all before after k half_merged merged e refl refl;
    count = kept-IsActive c.count before after k half_merged merged e;
  }
  Step-IsCounted {p} c (finishes before after k e) = record {
    files_order = c.files_order;
    calls_order = c.calls_order;
    files = c.files;
    sums = c.sums;
    files_all = finished-Progress c.files_all before after k merged e refl;
    calls_all = finished-Progress c.calls_all before after k merged e refl;
    count = finished-IsActive c.count before after k merged e;
  }
  Step-IsCounted {p} c (merges_own_files e) = record {
    files_order = c.files_order ++ none ∷ [];
    calls_order = c.calls_order;
    files =
        ap (λ t. merge_files t (events none)) c.files
        ∙ sym (merged_files-append c.files_order none);
    sums = c.sums;
    files_all = own_merged-Progress c.files_all half_merged (ap late_files e) refl;
    calls_all = own_kept-Progress c.calls_all half_merged (ap late_calls e);
    count = c.count;
  }
  Step-IsCounted {p} c (merges_own_calls e) = record {
    files_order = c.files_order;
    calls_order = c.calls_order ++ none ∷ [];
    files = c.files;
    sums =
        ap (λ t. merge_calls t (calls none)) c.sums ∙ sym (merged_calls-append c.calls_order none);
    files_all = own_kept-Progress c.files_all merged (ap late_files e);
    calls_all = own_merged-Progress c.calls_all merged (ap late_calls e) refl;
    count = c.count;
  }

  pub Steps-IsCounted : {p q : Pool} → IsCounted p → Steps events calls p q → IsCounted q
  Steps-IsCounted c here = c
  Steps-IsCounted c (further rest step) = Step-IsCounted (Steps-IsCounted c rest) step
