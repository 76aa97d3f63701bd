-- ===== src/Tests/Tables.antt =====
-- Runs of src/fd_table.c, src/file_stat.c and src/unconsidered_syscall_stat.c.
use mathlib.Core.Option
use iotrace.Base.{◌≡◌, ◌↔◌, true, false, none, ◌++◌, arith, pos}
use iotrace.Glib.{assoc}
use iotrace.Glib.Lists.{list_glib}
use iotrace.FdTable.{insert_dup}
use iotrace.FdTable.View.{view}
use iotrace.FdTable.Refinement.{run, run_spec, run-refines}
use iotrace.FdTable.Short.{Short, ShortOps, ShortResult, run-Short, insert_dup-eq-none_iff}
use iotrace.FileStat
use iotrace.FileStat.History.{record_events, get_view}
use iotrace.FileStat.Merge.{merge-record_events}
use iotrace.Tests.Data.{whole_double, data_file, table, some_ops, some_events, more_events}

table-Short : Short (view table)
unfolding assoc
table-Short fd = ground arith

some_ops-Short : ShortOps some_ops
some_ops-Short = (omega arith, (tt, (tt, (tt, (tt, (tt, tt))))))

run-refines_example : Option.map view (run table some_ops) ≡ run_spec (view table) some_ops
run-refines_example = run-refines table some_ops

run-Short_example : ShortResult (Option.map view (run table some_ops))
run-Short_example = run-Short table some_ops table-Short some_ops-Short

insert_dup-eq-none_iff_example :
    (insert_dup table (pos 4) (pos 5) false true ≡ none) ↔ (view table (pos 4) ≡ none)
insert_dup-eq-none_iff_example = insert_dup-eq-none_iff table (pos 4) (pos 5) false true table-Short

merge-record_events_example :
    get_view
      (FileStat.merge
        (record_events FileStat.create some_events)
        (record_events FileStat.create more_events))
      data_file
    ≡ get_view (record_events FileStat.create (some_events ++ more_events)) data_file
merge-record_events_example = merge-record_events some_events more_events data_file
