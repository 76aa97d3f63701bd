-- ===== src/Main/Together.antt =====
-- The statistics of the whole program in src/main.c: those of all its threads, which are merged into
-- `main_file_stat_table` and `main_syscall_table` as one thread after the other ends.
use mathlib.Core.List.{append_assoc, append-nil}
use iotrace.Base.{◌≡◌, refl, List, [], ◌∷◌, ◌++◌, foldl, ap, sym, ◌∙◌, ℤ, CString}
use iotrace.Glib.{Glib}
use iotrace.Double.{Double}
use iotrace.FileStat
use iotrace.FileStat.{FileStatTable}
use iotrace.FileStat.History.{Events, record_events, get_view, join, get_view-merge}
use iotrace.FileStat.Merge.{merge-record_events}
use iotrace.SyscallStat
use iotrace.SyscallStat.{SyscallTable}
use iotrace.SyscallStat.Summary
use iotrace.SyscallStat.Summary.{Calls, record_calls, get-merge, merge-record_calls}

-- What the threads saw, one after the other.
abbrev pub all_of : {A : Type 0} → List (List A) → List A
all_of [] = []
all_of (xs ∷ rest) = xs ++ all_of rest

module _ ⦃g : Glib⦄ ⦃d : Double⦄ where
  abbrev pub merge_files : FileStatTable → Events → FileStatTable
  merge_files main_file_stat_table es =
      FileStat.merge main_file_stat_table (record_events FileStat.create es)

  abbrev pub merge_calls : SyscallTable → Calls → SyscallTable
  merge_calls main_syscall_table cs =
      SyscallStat.merge main_syscall_table (record_calls SyscallStat.create cs)

  unfoldable pub merged_files : List Events → FileStatTable
  unfolding foldl
  merged_files threads = foldl merge_files FileStat.create threads

  unfoldable pub merged_calls : List Calls → SyscallTable
  unfolding foldl
  merged_calls threads = foldl merge_calls SyscallStat.create threads

  files-step :
      (t : FileStatTable) (before : Events) (threads : List Events) (f : CString)
      → get_view t f ≡ get_view (record_events FileStat.create before) f
      → get_view (foldl merge_files t threads) f
        ≡ get_view (record_events FileStat.create (before ++ all_of threads)) f
  unfolding foldl
  files-step t before [] f e =
      e ∙ ap (λ es. get_view (record_events FileStat.create es) f) (sym (append-nil before))
  files-step t before (es ∷ rest) f e =
      let own = record_events FileStat.create es in
      files-step (merge_files t es) (before ++ es) rest f (
        get_view-merge t own f
        ∙ ap (λ o. join o (get_view own f)) e
        ∙ sym (get_view-merge (record_events FileStat.create before) own f)
        ∙ merge-record_events before es f)
      ∙ ap (λ l. get_view (record_events FileStat.create l) f)
          (append_assoc before es (all_of rest))

  calls-step :
      (t : SyscallTable) (before : Calls) (threads : List Calls) (sc : ℤ)
      → SyscallStat.get t sc ≡ SyscallStat.get (record_calls SyscallStat.create before) sc
      → SyscallStat.get (foldl merge_calls t threads) sc
        ≡ SyscallStat.get (record_calls SyscallStat.create (before ++ all_of threads)) sc
  unfolding foldl
  calls-step t before [] sc e =
      e
      ∙ ap (λ cs. SyscallStat.get (record_calls SyscallStat.create cs) sc) (sym (append-nil before))
  calls-step t before (cs ∷ rest) sc e =
      let own = record_calls SyscallStat.create cs in
      calls-step (merge_calls t cs) (before ++ cs) rest sc (
        get-merge t own sc
        ∙ ap (λ o. Summary.join o (SyscallStat.get own sc)) e
        ∙ sym (get-merge (record_calls SyscallStat.create before) own sc)
        ∙ merge-record_calls before cs sc)
      ∙ ap (λ l. SyscallStat.get (record_calls SyscallStat.create l) sc)
          (append_assoc before cs (all_of rest))

  -- When any number of threads have ended, each with statistics of its own, the statistics of the
  -- program are, for each file and each other system call, those that one thread would have which saw
  -- what all of them saw, in the order of their ends.
  pub merged_files-merged_calls :
      (files : List Events) (calls : List Calls)
      → ((f : CString)
          → get_view (merged_files files) f
            ≡ get_view (record_events FileStat.create (all_of files)) f)
        × ((sc : ℤ)
            → SyscallStat.get (merged_calls calls) sc
              ≡ SyscallStat.get (record_calls SyscallStat.create (all_of calls)) sc)
  unfolding merged_files merged_calls record_events record_calls
  merged_files-merged_calls files calls = (
    λ f. files-step FileStat.create [] files f refl,
    λ sc. calls-step SyscallStat.create [] calls sc refl,
  )
