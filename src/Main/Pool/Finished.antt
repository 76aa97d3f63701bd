-- ===== src/Main/Pool/Finished.antt =====
-- When the loop in `main_tracer` of src/main.c has waited for all threads: what they left.
use iotrace.Base.{
  ◌<◌, ◌^◌, ◌≡◌, refl, Bool, true, none, List, [], ◌∷◌, ◌++◌, arith, length, ap, ◌∙◌, ℤ, CString,
  inl, inr,
}
use iotrace.Glib.{Glib}
use iotrace.Double.{Double}
use iotrace.FileStat
use iotrace.FileStat.{FileStatTable}
use iotrace.FileStat.History.{Events, record_events, get_view}
use iotrace.SyscallStat
use iotrace.SyscallStat.{SyscallTable}
use iotrace.SyscallStat.Summary.{Calls, record_calls}
use iotrace.Main.Together.{all_of, merged_files-merged_calls}
use iotrace.Main.Pool.Progress.{Who, tally, others, each, length-split}
use iotrace.Main.Pool.Counted.{first-IsCounted, Steps-IsCounted}
use iotrace.Main.Pool.{
  Phase, tracing, half_merged, merged, Pool, first_pool, no_thread, Step, adds, merges_files,
  merges_calls, finishes, merges_own_files, merges_own_calls, Steps,
}

module _ ⦃g : Glib⦄ ⦃d : Double⦄ (events : Who → Events) (calls : Who → Calls) where
  -- All that was seen is in the tables, and nothing happens any more.
  pub record AllMerged (p : Pool) : Type 0 where
    pub files_order : List Who
    pub calls_order : List Who
    pub files_each :
        (test : Who → Bool) → tally test files_order ≡ tally test (none ∷ others p.threads)
    pub calls_each :
        (test : Who → Bool) → tally test calls_order ≡ tally test (none ∷ others p.threads)
    pub files :
        (f : CString)
        → get_view p.main_file_stat_table f
          ≡ get_view (record_events FileStat.create (all_of (each events files_order))) f
    pub sums :
        (sc : ℤ)
        → SyscallStat.get p.main_syscall_table sc
          ≡ SyscallStat.get (record_calls SyscallStat.create (all_of (each calls calls_order))) sc
    pub rests : (q : Pool) → ¬ Step events calls p q

  nobody_left : (us : List (ℤ × Phase)) → length us ≡ 0 → us ≡ []
  nobody_left [] e = refl
  nobody_left (u ∷ us) e = absurd (omega (arith, e))

  not_split :
      (us before after : List (ℤ × Phase)) (k : ℤ) (phase : Phase)
      → us ≡ []
      → ¬ (us ≡ before ++ (k, phase) ∷ after)
  not_split us before after k phase o e =
      omega (arith, ap length o, length-split us before after k phase e)

  rests-when :
      (p : Pool) → p.own ≡ merged → p.unfinished ≡ [] → (q : Pool) → ¬ Step events calls p q
  rests-when p own o q (adds k (inl e)) = ground (arith, own, e)
  rests-when p own o q (adds k (inr (j, before, after, e))) =
      not_split p.unfinished before after j tracing o e
  rests-when p own o q (merges_files before after k e) =
      not_split p.unfinished before after k tracing o e
  rests-when p own o q (merges_calls before after k e) =
      not_split p.unfinished before after k half_merged o e
  rests-when p own o q (finishes before after k e) =
      not_split p.unfinished before after k merged o e
  rests-when p own o q (merges_own_files e) = ground (arith, own, e)
  rests-when p own o q (merges_own_calls e) = ground (arith, own, e)

  -- In any order of the threads' beginnings, merges and ends, with fewer than 2 ^ 32 threads: once
  -- the first tracee has ended and `main_tracer` sees no active thread, no thread runs or begins any
  -- more, each thread has merged its statistics once, and the statistics of the program are those of
  -- one thread that saw what all of them saw.
  pub waited-AllMerged :
      (p : Pool)
      → Steps events calls first_pool p
      → p.own ≡ merged
      → length p.threads < 2 ^ 32
      → no_thread p ≡ true
      → AllMerged p
  waited-AllMerged p steps own small none_active =
      let c = Steps-IsCounted events calls (first-IsCounted events calls) steps in
      let empty =
        nobody_left p.unfinished (ground (arith, c.count.same, c.count.few, small, none_active)) in
      let all = merged_files-merged_calls (each events c.files_order) (each calls c.calls_order) in
      record {
        files_order = c.files_order;
        calls_order = c.calls_order;
        files_each = λ test. ground (arith, c.files_all.all test, own, empty);
        calls_each = λ test. ground (arith, c.calls_all.all test, own, empty);
        files = λ f. ap (λ t. get_view t f) c.files ∙ all.0 f;
        sums = λ sc. ap (λ t. SyscallStat.get t sc) c.sums ∙ all.1 sc;
        rests = rests-when p own empty;
      }
