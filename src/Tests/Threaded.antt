-- ===== src/Tests/Threaded.antt =====
-- A run of the threads of src/main.c: the first tracee has a child, and both end.
use iotrace.Base.{refl, none, some, [], ◌∷◌, arith, pos, inl}
use iotrace.Glib.Lists.{list_glib}
use iotrace.FileStat.History.{Events}
use iotrace.SyscallStat.Summary.{Calls}
use iotrace.Main.Together.{merge_files, merge_calls}
use iotrace.Main.Pool.{
  half_merged, merged, Pool, first_pool, thread_added, thread_finished, adds, merges_files,
  merges_calls, finishes, merges_own_files, merges_own_calls, Steps, here, further,
}
use iotrace.Main.Pool.Progress.{Who}
use iotrace.Main.Pool.Finished.{AllMerged, waited-AllMerged}
use iotrace.Tests.Data.{whole_double, some_events, more_events, some_calls, more_calls}

abbrev who_events : Who → Events
who_events none = some_events
who_events (some k) = more_events

abbrev who_calls : Who → Calls
who_calls none = some_calls
who_calls (some k) = more_calls

abbrev born : Pool
born = thread_added (pos 43) first_pool

-- The child's files come first, then those of the first tracee.
abbrev child_half : Pool
child_half = record born {
  unfinished = (pos 43, half_merged) ∷ [];
  main_file_stat_table = merge_files born.main_file_stat_table more_events;
}

abbrev both_half : Pool
both_half = record child_half {
  own = half_merged;
  main_file_stat_table = merge_files child_half.main_file_stat_table some_events;
}

abbrev own_done : Pool
own_done = record both_half {
  own = merged;
  main_syscall_table = merge_calls both_half.main_syscall_table some_calls;
}

abbrev both_done : Pool
both_done = record own_done {
  unfinished = (pos 43, merged) ∷ [];
  main_syscall_table = merge_calls own_done.main_syscall_table more_calls;
}

abbrev over : Pool
over = thread_finished [] both_done

over-Steps : Steps who_events who_calls first_pool over
over-Steps =
    further
      (further
        (further
          (further
            (further (further here (adds (pos 43) (inl refl))) (merges_files [] [] (pos 43) refl))
            (merges_own_files refl))
          (merges_own_calls refl))
        (merges_calls [] [] (pos 43) refl))
      (finishes [] [] (pos 43) refl)

waited-AllMerged_example : AllMerged who_events who_calls over
waited-AllMerged_example =
    waited-AllMerged who_events who_calls over over-Steps refl (omega arith) refl
