-- ===== src/Program/Accounts.antt =====
-- What the statistics of src/main.c hold while its threads go on: the tables of the program are those
-- of the logs that were merged, and these logs with those that are not merged yet are all that the
-- returns added.
use iotrace.Base.{
  ℕ, ◌+◌, ◌≡◌, refl, List, [], ◌∷◌, ◌++◌, arith, foldl, foldl-append, total, total-append, ap, Bool,
  true, false, ℤ, CString,
}
use iotrace.Glib.{Glib}
use iotrace.Double.{Double}
use iotrace.FileStat
use iotrace.FileStat.{FileStatTable}
use iotrace.FileStat.History.{Event, Events, record_events}
use iotrace.SyscallStat
use iotrace.SyscallStat.{SyscallTable}
use iotrace.SyscallStat.Summary.{Calls, record_calls}
use iotrace.Main.Together.{all_of, merged_files, merged_calls, merge_files, merge_calls}
use iotrace.Program.{Tracer, new_tracer}
use iotrace.Program.Logs.{Entry, tracers_of, IsOwn, AreOwn, late_files, late_calls}

module _ ⦃g : Glib⦄ ⦃d : Double⦄ where
  pub record Accounts (ts : List Tracer) (files : FileStatTable) (sums : SyscallTable) (es : Events)
      (cs : Calls) : Type 0 where
    pub entries : List Entry
    pub merged_es : List Events
    pub merged_cs : List Calls
    pub threads : tracers_of entries ≡ ts
    pub own : AreOwn entries
    pub main_files : files ≡ merged_files merged_es
    pub main_calls : sums ≡ merged_calls merged_cs
    pub all_files :
        (w : CString × Event → ℕ)
        → total w (all_of merged_es) + total (late_files w) entries ≡ total w es
    pub all_calls :
        (w : ℤ × ℕ → ℕ) → total w (all_of merged_cs) + total (late_calls w) entries ≡ total w cs

  pub merged_files-append :
      (ess : List Events) (es : Events)
      → merged_files (ess ++ es ∷ []) ≡ merge_files (merged_files ess) es
  unfolding merged_files foldl
  merged_files-append ess es = foldl-append merge_files FileStat.create ess (es ∷ [])

  pub merged_calls-append :
      (css : List Calls) (cs : Calls)
      → merged_calls (css ++ cs ∷ []) ≡ merge_calls (merged_calls css) cs
  unfolding merged_calls foldl
  merged_calls-append css cs = foldl-append merge_calls SyscallStat.create css (cs ∷ [])

  new-IsOwn : (tracee : ℤ) (own : Bool) → IsOwn (new_tracer tracee own, ([], []))
  unfolding record_events record_calls foldl
  new-IsOwn tracee own = (refl, refl)

  pub first-Accounts :
      (tracee : ℤ) → Accounts (new_tracer tracee true ∷ []) FileStat.create SyscallStat.create [] []
  unfolding merged_files merged_calls foldl
  first-Accounts tracee = record {
    entries = (new_tracer tracee true, ([], [])) ∷ [];
    merged_es = [];
    merged_cs = [];
    threads = refl;
    own = (new-IsOwn tracee true, tt);
    main_files = refl;
    main_calls = refl;
    all_files = λ w. refl;
    all_calls = λ w. refl;
  }

module _ ⦃g : Glib⦄ ⦃d : Double⦄ {ts : List Tracer} {files : FileStatTable} {sums : SyscallTable}
    {es : Events} {cs : Calls} (a : Accounts ts files sums es cs) where
  pub begun-Accounts :
      (child : ℤ) → Accounts (new_tracer child false ∷ ts) files sums (es ++ []) (cs ++ [])
  begun-Accounts child = record {
    entries = (new_tracer child false, ([], [])) ∷ a.entries;
    merged_es = a.merged_es;
    merged_cs = a.merged_cs;
    threads = ap (λ l. new_tracer child false ∷ l) a.threads;
    own = (new-IsOwn child false, a.own);
    main_files = a.main_files;
    main_calls = a.main_calls;
    all_files = λ w. omega (arith, a.all_files w, total-append w es []);
    all_calls = λ w. omega (arith, a.all_calls w, total-append w cs []);
  }
