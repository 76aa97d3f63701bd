-- ===== src/Tests/Output.antt =====
-- Runs of the output: the names of system calls, the JSON calls, and the end of the program.
use mathlib.Core.Option
use mathlib.Core.Option.{bind}
use iotrace.Base.{
  ◌<◌, ◌≡◌, ◌↔◌, refl, Bool, true, false, Option, none, some, List, [], ◌∷◌, ◌++◌, arith, ltb,
  if◌then◌else◌, length, or_else, ℤ, pos, eq_ℤ_iff, CString, codes,
}
use iotrace.Glib.{assoc}
use iotrace.Glib.Lists.{list_glib}
use mathlib.Core.Path.{subst}
use mathlib.Core.Option.{some-injective}
use iotrace.Stdio.{Printf}
use iotrace.FileStat
use iotrace.FileStat.{FileStat, FileStatTable}
use iotrace.FileStat.Print.{file_stat_print_all}
use iotrace.SyscallStat
use iotrace.SyscallStat.{SyscallStat, SyscallTable}
use iotrace.SyscallStat.Print.{syscall_stat_print_all}
use iotrace.SyscallNames.{undefined_syscall, names_length, syscall_name}
use iotrace.SyscallNames.Parser.{all_but_last, row_name}
use iotrace.SyscallNames.Table.{syscall_64, syscall_name-row_name}
use iotrace.SyscallNames.Bounds.{is_named}
use iotrace.Json.{Call, create_builder}
use iotrace.Json.Tree.{calls_of, read_tree}
use iotrace.Json.Report.{Report, tree_of, report_of}
use iotrace.Json.Layout.{create_builder-calls_of}
use iotrace.Json.Reading.{read_report}
use iotrace.Json.Reading.RoundTrip.{IsWritable, read_report-create_builder}
use iotrace.Json.Unnamed.{create_builder-eq-none_iff}
use iotrace.Json.Shown.{SmallLines, shown, report_leaves, print_all-shown}
use iotrace.Main.Output.{get_mpi_rank, output_filename, print_results}
use iotrace.Main.Results.{output_filename-eq-none_iff, print_results-ends}
use iotrace.Tests.Data.{whole_double, data_file}

syscall_name-row_name_example : syscall_name (pos 340) ≡ (
    if ltb 340 names_length
    then some (or_else (row_name (all_but_last syscall_64) 340) undefined_syscall)
    else none)
syscall_name-row_name_example = syscall_name-row_name 340

abbrev trace : CString
trace = codes "run"

abbrev host : CString
host = codes "node7"

-- One file, which was opened and read from.
abbrev file_stat : FileStat
file_stat = record {
  open_stats = record { count = 2; total_ns = 50; min_ns = 20; max_ns = 30 };
  close_stats = FileStat.init_open_close;
  read_stats = record {
    total_b = 100;
    total_ns = 2000000000;
    min_bps = 50;
    max_bps = 50;
    blocks = (pos 100, 1) ∷ [];
  };
  write_stats = FileStat.init_read_write;
}

abbrev files : FileStatTable
files = (data_file, file_stat) ∷ []

-- Two calls of getpid.
abbrev sums : SyscallTable
sums = (pos 39, record { count = 2; total_ns = 21 }) ∷ []

-- A call with a number that no system call has.
abbrev unnamed_sums : SyscallTable
unnamed_sums = (pos 600, record { count = 1; total_ns = 5 }) ∷ sums

abbrev report : Report
report = record {
  trace_id = trace;
  hostname = host;
  rank = codes "NULL";
  files =
      record {
        filename = data_file;
        opens = file_stat.open_stats;
        closes = file_stat.close_stats;
        reads = record {
          total_b = 100;
          total_ns = 2000000000;
          min_bps = 50;
          max_bps = 50;
          blocks = (pos 100, 1) ∷ [];
        };
        writes = record {
          total_b = 0;
          total_ns = 0;
          min_bps = 9999999999999;
          max_bps = 0;
          blocks = [];
        };
      }
      ∷ [];
  syscalls = (codes "getpid", record { count = 2; total_ns = 21 }) ∷ [];
}

report-eq : report_of trace host none files sums ≡ some report
unfolding report_of syscall_name
report-eq = refl

report-IsWritable : IsWritable report
report-IsWritable = (
  (
    record {
      opens = record {
        count = omega arith;
        total_ns = omega arith;
        min_ns = omega arith;
        max_ns = omega arith;
      };
      closes = record {
        count = omega arith;
        total_ns = omega arith;
        min_ns = omega arith;
        max_ns = omega arith;
      };
      reads = record { total_b = omega arith; total_ns = omega arith; blocks = (omega arith, tt) };
      writes = record { total_b = omega arith; total_ns = omega arith; blocks = tt };
    },
    tt,
  ),
  (omega arith, omega arith, tt),
)

create_builder-calls_of_example :
    create_builder trace host none files unnamed_sums
    ≡ Option.map (λ r. calls_of (tree_of r)) (report_of trace host none files unnamed_sums)
create_builder-calls_of_example = create_builder-calls_of trace host none files unnamed_sums

read_report-create_builder_example :
    bind (bind (create_builder trace host none files sums) read_tree) read_report ≡ some report
read_report-create_builder_example =
    read_report-create_builder trace host none files sums report report-eq report-IsWritable

create_builder-eq-none_iff_example : (create_builder trace host none files unnamed_sums ≡ none) ↔ (
    (sc : ℤ) × (stat : SyscallStat) × (SyscallStat.get unnamed_sums sc ≡ some stat)
    × (is_named sc ≡ false))
create_builder-eq-none_iff_example = create_builder-eq-none_iff trace host none files unnamed_sums

small_files : SmallLines (file_stat_print_all files)
unfolding file_stat_print_all
small_files = omega arith

small_sums : (lines : List Printf) → syscall_stat_print_all sums ≡ some lines → SmallLines lines
unfolding syscall_stat_print_all syscall_name
small_sums lines e = subst SmallLines (some-injective _ lines e) (omega arith)

print_all-shown_example :
    (lines : List Printf) × (syscall_stat_print_all sums ≡ some lines)
    × (shown (file_stat_print_all files ++ lines) ≡ report_leaves report)
print_all-shown_example =
    print_all-shown trace host none files sums report report-eq small_files small_sums

output_filename-eq-none_iff_example :
    (output_filename trace host (some (codes "12345")) ≡ none)
    ↔ (4 < length (or_else (some (codes "12345")) (codes "NULL")))
output_filename-eq-none_iff_example = output_filename-eq-none_iff trace host (some (codes "12345"))

-- An environment without a rank, and a disk where any file can be written.
abbrev no_variable : CString → Option CString
no_variable name = none

abbrev always_written : CString → List Call → Bool
always_written filename calls = true

sums-named :
    (sc : ℤ) (stat : SyscallStat) → SyscallStat.get sums sc ≡ some stat → is_named sc ≡ true
unfolding SyscallStat.get assoc
sums-named sc stat e = ground (arith, e, eq_ℤ_iff (pos 39) sc)

print_results-ends_example :
    (filename : CString) × (calls : List Call) × (lines : List Printf) × (output_filename trace host
        (get_mpi_rank no_variable)
      ≡ some filename)
    × (create_builder trace host (get_mpi_rank no_variable) files sums ≡ some calls)
    × (print_results always_written no_variable host true trace 0 files sums
        ≡ some (lines, if always_written filename calls then 0 else 1))
unfolding get_mpi_rank
print_results-ends_example =
    print_results-ends always_written no_variable host true trace 0 files sums (omega arith)
      sums-named
