-- ===== src/Json/Reading/RoundTrip.antt =====
-- What src/json_printer.c writes is read back as what the tables hold.
use iotrace.Base.{
  to_gint64, ℕ, ◌^◌, ◌<◌, ◌≡◌, refl, Option, some, List, [], ◌∷◌, arith, ℤ, pos, CString,
}
use mathlib.Core.Option.{bind}
use iotrace.Glib.{Glib}
use iotrace.Double.{Double}
use iotrace.FileStat.{OpenCloseStat, FileStatTable}
use iotrace.SyscallStat.{SyscallStat, SyscallTable}
use iotrace.Json.{create_builder}
use iotrace.Json.Tree.{read_tree, read_tree-calls_of}
use iotrace.Json.Report.{
  TransferReport, FileReport, Report, open_close_tree, transfer_tree, block_items, file_tree,
  file_items, syscall_items, tree_of, report_of,
}
use iotrace.Json.Layout.{create_builder-calls_of}
use iotrace.Json.Reading.{
  read_open_close, read_transfer, read_blocks, read_file, read_files, read_syscall, read_syscalls,
  read_report,
}

-- A number that is the same as a `gint64`.
abbrev pub IsSmall : ℕ → Type 0
IsSmall n = n < 2 ^ 63

pub to_gint64-pos : (n : ℕ) → IsSmall n → to_gint64 n ≡ pos n
unfolding to_gint64
to_gint64-pos n h = ground arith

pub record SmallStat (stat : OpenCloseStat) : Type 0 where
  pub count : IsSmall stat.count
  pub total_ns : IsSmall stat.total_ns
  pub min_ns : IsSmall stat.min_ns
  pub max_ns : IsSmall stat.max_ns

abbrev pub SmallBlocks : List (ℤ × ℕ) → Type 0
SmallBlocks [] = Unit
SmallBlocks ((size, count) ∷ rest) = IsSmall count × SmallBlocks rest

abbrev pub SmallSyscalls : List (CString × SyscallStat) → Type 0
SmallSyscalls [] = Unit
SmallSyscalls ((name, stat) ∷ rest) =
    IsSmall stat.count × IsSmall stat.total_ns × SmallSyscalls rest

module _ ⦃d : Double⦄ where
  pub record SmallTransfer (r : TransferReport) : Type 0 where
    pub total_b : IsSmall r.total_b
    pub total_ns : IsSmall r.total_ns
    pub blocks : SmallBlocks r.blocks

  pub record SmallFile (r : FileReport) : Type 0 where
    pub opens : SmallStat r.opens
    pub closes : SmallStat r.closes
    pub reads : SmallTransfer r.reads
    pub writes : SmallTransfer r.writes

  abbrev pub SmallFiles : List FileReport → Type 0
  SmallFiles [] = Unit
  SmallFiles (r ∷ rest) = SmallFile r × SmallFiles rest

  -- All that was counted fits a `gint64`.
  abbrev pub IsWritable : Report → Type 0
  IsWritable r = SmallFiles r.files × SmallSyscalls r.syscalls

  read_open_close-tree :
      (stat : OpenCloseStat) → SmallStat stat → read_open_close (open_close_tree stat) ≡ some stat
  read_open_close-tree stat h =
      rw
        (
          to_gint64-pos stat.count h.count,
          to_gint64-pos stat.total_ns h.total_ns,
          to_gint64-pos stat.min_ns h.min_ns,
          to_gint64-pos stat.max_ns h.max_ns,
        )
        refl

  read_transfer-tree :
      (r : TransferReport) → SmallTransfer r → read_transfer (transfer_tree r) r.blocks ≡ some r
  read_transfer-tree r h =
      rw (to_gint64-pos r.total_b h.total_b, to_gint64-pos r.total_ns h.total_ns) refl

  read_blocks-items :
      (blocks : List (ℤ × ℕ)) → SmallBlocks blocks → read_blocks (block_items blocks) ≡ some blocks
  unfolding read_blocks
  read_blocks-items [] h = refl
  read_blocks-items ((size, count) ∷ rest) (h, hs) =
      rw (read_blocks-items rest hs, to_gint64-pos count h) refl

  read_file-tree : (r : FileReport) → SmallFile r → read_file (file_tree r) ≡ some r
  unfolding read_file
  read_file-tree r h =
      rw
        (
          read_open_close-tree r.opens h.opens,
          read_open_close-tree r.closes h.closes,
          read_blocks-items r.reads.blocks h.reads.blocks,
          read_transfer-tree r.reads h.reads,
          read_blocks-items r.writes.blocks h.writes.blocks,
          read_transfer-tree r.writes h.writes,
        )
        refl

  read_files-items : (rs : List FileReport) → SmallFiles rs → read_files (file_items rs) ≡ some rs
  unfolding read_files
  read_files-items [] h = refl
  read_files-items (r ∷ rs) (h, hs) = rw (read_files-items rs hs, read_file-tree r h) refl

  read_syscalls-items :
      (cs : List (CString × SyscallStat))
      → SmallSyscalls cs
      → read_syscalls (syscall_items cs) ≡ some cs
  unfolding read_syscalls read_syscall
  read_syscalls-items [] h = refl
  read_syscalls-items ((name, stat) ∷ cs) (hc, ht, hs) =
      rw (read_syscalls-items cs hs, to_gint64-pos stat.count hc, to_gint64-pos stat.total_ns ht)
        refl

  read_report-tree_of : (r : Report) → IsWritable r → read_report (tree_of r) ≡ some r
  unfolding read_report tree_of
  read_report-tree_of r (hf, hs) =
      rw (read_files-items r.files hf, read_syscalls-items r.syscalls hs) refl

module _ ⦃g : Glib⦄ ⦃d : Double⦄ where
  -- Where each number of a system call has a name and what was counted is below 2 ^ 63, the calls
  -- that write the statistics are made, and a reader that goes by the names of the members gets back
  -- what the tables hold, every file, size of blocks and system call in the order of the tables.
  pub read_report-create_builder :
      (trace_id hostname : CString) (rank : Option CString) (files : FileStatTable)
      (sums : SyscallTable) (r : Report)
      → report_of trace_id hostname rank files sums ≡ some r
      → IsWritable r
      → bind (bind (create_builder trace_id hostname rank files sums) read_tree) read_report
        ≡ some r
  unfolding bind
  read_report-create_builder trace_id hostname rank files sums r e h =
      rw
        (
          create_builder-calls_of trace_id hostname rank files sums,
          e,
          read_tree-calls_of (tree_of r),
        )
        (read_report-tree_of r h)
