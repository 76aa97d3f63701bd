-- ===== src/Program/Changes.antt =====
-- What a thread of src/main.c makes of the accounts of its statistics: it goes on in its loop, merges
-- them, or ends.
use mathlib.Core.Path.{subst}
use iotrace.Base.{
  ℕ, ◌+◌, ◌≡◌, List, [], ◌∷◌, ◌++◌, arith, foldl-append, total, total-append, ap, sym, ◌∙◌, ℤ,
  CString,
}
use iotrace.Glib.{Glib}
use iotrace.Double.{Double}
use iotrace.FileStat
use iotrace.FileStat.{FileStatTable}
use iotrace.FileStat.History.{Event, Events, record_event, record_events}
use iotrace.SyscallStat
use iotrace.SyscallStat.{SyscallTable}
use iotrace.SyscallStat.Summary.{Calls, incr_call, record_calls}
use iotrace.Main.Together.{all_of, merged_files, merged_calls}
use iotrace.Program.{tracing, files_merged, both_merged, record_removed, Tracer}
use iotrace.Program.Logs.{
  keeps_files, keeps_calls, total-all_of, Entry, IsOwn, AreOwn, AreOwn-append, AreOwn-parts,
  tracers_of-append, late_files, late_calls, Place, place,
}
use iotrace.Program.Accounts.{Accounts, merged_files-append, merged_calls-append}

module _ ⦃g : Glib⦄ ⦃d : Double⦄ {ts : List Tracer} {files : FileStatTable} {sums : SyscallTable}
    {es : Events} {cs : Calls} (a : Accounts ts files sums es cs) (before after : List Tracer)
    (t : Tracer) (split : ts ≡ before ++ t ∷ after) where
  abbrev spot : Place a.entries before after t
  spot = place a.entries before after t (a.threads ∙ split)

  parts-AreOwn : AreOwn spot.left × AreOwn ((t, spot.log) ∷ spot.right)
  parts-AreOwn = AreOwn-parts spot.left ((t, spot.log) ∷ spot.right) (subst AreOwn spot.whole a.own)

  -- The total of a weight over the threads.
  total-spot :
      (w : Entry → ℕ)
      → total w a.entries ≡ total w spot.left + (w (t, spot.log) + total w spot.right)
  total-spot w = ap (total w) spot.whole ∙ total-append w spot.left ((t, spot.log) ∷ spot.right)

  -- A thread's entry is changed, logs are merged, and the returns added some, so that the totals are
  -- the same on both sides.
  changed-Accounts :
      (u : Tracer) (log : Events × Calls) (ess : List Events) (css : List Calls)
      (files' : FileStatTable) (sums' : SyscallTable) (fs : Events) (ds : Calls)
      → IsOwn (u, log)
      → files' ≡ merged_files ess
      → sums' ≡ merged_calls css
      → ((w : CString × Event → ℕ)
          → total w (all_of ess) + late_files w (u, log)
            ≡ total w (all_of a.merged_es) + late_files w (t, spot.log) + total w fs)
      → ((w : ℤ × ℕ → ℕ)
          → total w (all_of css) + late_calls w (u, log)
            ≡ total w (all_of a.merged_cs) + late_calls w (t, spot.log) + total w ds)
      → Accounts (before ++ u ∷ after) files' sums' (es ++ fs) (cs ++ ds)
  changed-Accounts u log ess css files' sums' fs ds own main_files main_calls more_files
        more_calls =
      let (l, (x, r)) = parts-AreOwn in
      let rest = (u, log) ∷ spot.right in
      record {
        entries = spot.left ++ rest;
        merged_es = ess;
        merged_cs = css;
        threads = tracers_of-append spot.left rest ∙ (λ i. spot.is_left i ++ u ∷ spot.is_right i);
        own = AreOwn-append spot.left rest l (own, r);
        main_files = main_files;
        main_calls = main_calls;
        all_files = λ w. omega (
          arith,
          a.all_files w,
          more_files w,
          total-spot (late_files w),
          total-append (late_files w) spot.left rest,
          total-append w es fs,
        );
        all_calls = λ w. omega (
          arith,
          a.all_calls w,
          more_calls w,
          total-spot (late_calls w),
          total-append (late_calls w) spot.left rest,
          total-append w cs ds,
        );
      }

  own_files : t.file_stat_table ≡ record_events FileStat.create spot.log.0
  own_files = let (l, ((f, c), r)) = parts-AreOwn in f

  own_calls : t.syscall_table ≡ record_calls SyscallStat.create spot.log.1
  own_calls = let (l, ((f, c), r)) = parts-AreOwn in c

  -- A thread went on in its loop.
  pub went-Accounts :
      (u : Tracer) (fs : Events) (ds : Calls)
      → t.stage ≡ tracing
      → u.stage ≡ t.stage
      → u.file_stat_table ≡ record_events t.file_stat_table fs
      → u.syscall_table ≡ record_calls t.syscall_table ds
      → Accounts (before ++ u ∷ after) files sums (es ++ fs) (cs ++ ds)
  unfolding record_events record_calls
  went-Accounts u fs ds stage same more_files more_calls =
      changed-Accounts u (spot.log.0 ++ fs, spot.log.1 ++ ds) a.merged_es a.merged_cs files sums fs
        ds
        (
          more_files
              ∙ ap (λ x. record_events x fs) own_files
              ∙ sym (foldl-append record_event FileStat.create spot.log.0 fs),
          more_calls
              ∙ ap (λ x. record_calls x ds) own_calls
              ∙ sym (foldl-append incr_call SyscallStat.create spot.log.1 ds),
        )
        a.main_files a.main_calls
        (λ w.
          ground (arith, ap keeps_files stage, ap keeps_files same, total-append w spot.log.0 fs))
        (λ w.
          ground (arith, ap keeps_calls stage, ap keeps_calls same, total-append w spot.log.1 ds))

  -- A thread's statistics of files were merged.
  pub files-Accounts :
      (u : Tracer)
      → t.stage ≡ tracing
      → u.stage ≡ files_merged
      → u.file_stat_table ≡ t.file_stat_table
      → u.syscall_table ≡ t.syscall_table
      → Accounts
          (before ++ u ∷ after)
          (FileStat.merge files t.file_stat_table)
          sums
          (es ++ [])
          (cs ++ [])
  files-Accounts u stage now same_files same_calls =
      changed-Accounts u spot.log (a.merged_es ++ spot.log.0 ∷ []) a.merged_cs _ sums [] []
        (same_files ∙ own_files, same_calls ∙ own_calls)
        ((λ i. FileStat.merge (a.main_files i) (own_files i))
          ∙ sym (merged_files-append a.merged_es spot.log.0))
        a.main_calls
        (λ w.
          ground (
            arith,
            ap keeps_files stage,
            ap keeps_files now,
            total-all_of w a.merged_es spot.log.0,
          ))
        (λ w. ground (arith, ap keeps_calls stage, ap keeps_calls now))

  -- A thread's statistics of other calls were merged.
  pub calls-Accounts :
      (u : Tracer)
      → t.stage ≡ files_merged
      → u.stage ≡ both_merged
      → u.file_stat_table ≡ t.file_stat_table
      → u.syscall_table ≡ t.syscall_table
      → Accounts
          (before ++ u ∷ after)
          files
          (SyscallStat.merge sums t.syscall_table)
          (es ++ [])
          (cs ++ [])
  calls-Accounts u stage now same_files same_calls =
      changed-Accounts u spot.log a.merged_es (a.merged_cs ++ spot.log.1 ∷ []) files _ [] []
        (same_files ∙ own_files, same_calls ∙ own_calls) a.main_files
        ((λ i. SyscallStat.merge (a.main_calls i) (own_calls i))
          ∙ sym (merged_calls-append a.merged_cs spot.log.1))
        (λ w. ground (arith, ap keeps_files stage, ap keeps_files now))
        (λ w.
          ground (
            arith,
            ap keeps_calls stage,
            ap keeps_calls now,
            total-all_of w a.merged_cs spot.log.1,
          ))

  -- A thread's record was removed.
  pub removed-Accounts :
      (u : Tracer)
      → t.stage ≡ both_merged
      → u.stage ≡ record_removed
      → u.file_stat_table ≡ t.file_stat_table
      → u.syscall_table ≡ t.syscall_table
      → Accounts (before ++ u ∷ after) files sums (es ++ []) (cs ++ [])
  removed-Accounts u stage now same_files same_calls =
      changed-Accounts u spot.log a.merged_es a.merged_cs files sums [] []
        (same_files ∙ own_files, same_calls ∙ own_calls) a.main_files a.main_calls
        (λ w. ground (arith, ap keeps_files stage, ap keeps_files now))
        (λ w. ground (arith, ap keeps_calls stage, ap keeps_calls now))

  -- A thread ended.
  pub finished-Accounts :
      t.stage ≡ record_removed → Accounts (before ++ after) files sums (es ++ []) (cs ++ [])
  finished-Accounts stage =
      let (l, (x, r)) = parts-AreOwn in
      record {
        entries = spot.left ++ spot.right;
        merged_es = a.merged_es;
        merged_cs = a.merged_cs;
        threads = tracers_of-append spot.left spot.right ∙ (λ i. spot.is_left i ++ spot.is_right i);
        own = AreOwn-append spot.left spot.right l r;
        main_files = a.main_files;
        main_calls = a.main_calls;
        all_files = λ w. ground (
          arith,
          ap keeps_files stage,
          a.all_files w,
          total-spot (late_files w),
          total-append (late_files w) spot.left spot.right,
          total-append w es [],
        );
        all_calls = λ w. ground (
          arith,
          ap keeps_calls stage,
          a.all_calls w,
          total-spot (late_calls w),
          total-append (late_calls w) spot.left spot.right,
          total-append w cs [],
        );
      }
