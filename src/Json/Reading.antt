-- ===== src/Json/Reading.antt =====
-- A reader of the report that src/json_printer.c writes.
pub mod RoundTrip
use iotrace.Base.{
  to_gint64, ℕ, ◌^◌, ◌<◌, ◌≡◌, refl, Option, none, some, List, [], ◌∷◌, arith, if◌then◌else◌, ap,
  sym, ◌∙◌, ℤ, pos, negsuc, CString, codes, str_eq,
}
use mathlib.Core.Option
use mathlib.Core.Option.{bind}
use iotrace.Glib.{Glib}
use iotrace.Double.{Double}
use iotrace.FileStat.{OpenCloseStat, FileStatTable}
use iotrace.SyscallStat.{SyscallStat, SyscallTable}
use iotrace.Json.{Call, create_builder}
use iotrace.Json.Tree.{
  Json, object, array, int, double, string, Items, end, item, Members, last, member, calls_of,
  read_tree, read_tree-calls_of,
}
use iotrace.Json.Report.{
  TransferReport, FileReport, Report, open_close_tree, transfer_tree, block_items, file_tree,
  file_items, syscall_tree, syscall_items, tree_of, report_of,
}
use iotrace.Json.Layout.{create_builder-calls_of}

infixl 5 ◌>>=◌
abbrev ◌>>=◌ : {A B : Type 0} → Option A → (A → Option B) → Option B
o >>= f = elim o [ none ↦ none | some a ↦ f a ]

module _ ⦃d : Double⦄ where
  -- The value of the first member with a name.
  abbrev field : CString → Members → Option Json
  field name last = none
  field name (member other value members) =
      if str_eq other name then some value else field name members

  abbrev read_string : Json → Option CString
  read_string (string s) = some s
  read_string _ = none

  abbrev read_counted : Json → Option ℕ
  read_counted (int (pos n)) = some n
  read_counted _ = none

  abbrev read_double : Json → Option d.Carrier
  read_double (double x) = some x
  read_double _ = none

  abbrev pub read_open_close : Json → Option OpenCloseStat
  read_open_close (array (item a (item b (item c (item e end))))) = do
    count ← read_counted a
    total_ns ← read_counted b
    min_ns ← read_counted c
    max_ns ← read_counted e
    some (record { count = count; total_ns = total_ns; min_ns = min_ns; max_ns = max_ns })
  read_open_close _ = none

  abbrev pub read_transfer : Json → List (ℤ × ℕ) → Option TransferReport
  read_transfer (array (item a (item b (item c (item e end))))) blocks = do
    total_b ← read_counted a
    total_ns ← read_counted b
    min_bps ← read_double c
    max_bps ← read_double e
    some (record {
      total_b = total_b;
      total_ns = total_ns;
      min_bps = min_bps;
      max_bps = max_bps;
      blocks = blocks;
    })
  read_transfer _ blocks = none

  pub read_blocks : Items → Option (List (ℤ × ℕ))
  read_blocks end = some []
  read_blocks (item (array (item (int size) (item count end))) rest) = do
    later ← read_blocks rest
    n ← read_counted count
    some ((size, n) ∷ later)
  read_blocks (item _ rest) = none

  abbrev read_array : {A : Type 0} → (Items → Option A) → Json → Option A
  read_array read (array items) = read items
  read_array read _ = none

  pub read_file : Json → Option FileReport
  unfolding read_blocks
  read_file (object members) = do
    filename ← field (codes "filename") members >>= read_string
    opens ← field (codes "open") members >>= read_open_close
    closes ← field (codes "close") members >>= read_open_close
    read_sizes ← field (codes "read-blocks") members >>= read_array read_blocks
    reads ← field (codes "read") members >>= (λ j. read_transfer j read_sizes)
    write_sizes ← field (codes "write-blocks") members >>= read_array read_blocks
    writes ← field (codes "write") members >>= (λ j. read_transfer j write_sizes)
    some (record {
      filename = filename;
      opens = opens;
      closes = closes;
      reads = reads;
      writes = writes;
    })
  read_file _ = none

  pub read_files : Items → Option (List FileReport)
  unfolding read_file
  read_files end = some []
  read_files (item first rest) = do
    later ← read_files rest
    file ← read_file first
    some (file ∷ later)

  pub read_syscall : Json → Option (CString × SyscallStat)
  read_syscall (object members) = do
    name ← field (codes "syscall") members >>= read_string
    count ← field (codes "count") members >>= read_counted
    total_ns ← field (codes "total ns") members >>= read_counted
    some (name, record { count = count; total_ns = total_ns })
  read_syscall _ = none

  pub read_syscalls : Items → Option (List (CString × SyscallStat))
  unfolding read_syscall
  read_syscalls end = some []
  read_syscalls (item first rest) = do
    later ← read_syscalls rest
    syscall ← read_syscall first
    some (syscall ∷ later)

  -- What stands under each name, wherever that is.
  pub read_report : Json → Option Report
  unfolding read_files read_syscalls
  read_report (object members) = do
    trace_id ← field (codes "trace-id") members >>= read_string
    hostname ← field (codes "hostname") members >>= read_string
    rank ← field (codes "rank") members >>= read_string
    files ← field (codes "file statistics") members >>= read_array read_files
    syscalls ← field (codes "unmatched syscalls") members >>= read_array read_syscalls
    some (record {
      trace_id = trace_id;
      hostname = hostname;
      rank = rank;
      files = files;
      syscalls = syscalls;
    })
  read_report _ = none
