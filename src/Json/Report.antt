-- ===== src/Json/Report.antt =====
-- What the JSON output says, as a record, and the tree that stands for it, in the layout that the
-- help text of src/main.c describes.
use iotrace.Base.{to_gint64, ℕ, Option, none, some, List, [], ◌∷◌, or_else, ℤ, CString, codes}
use mathlib.Core.Option
use iotrace.Glib.{Glib}
use iotrace.Double.{Double}
use iotrace.FileStat.{OpenCloseStat, ReadWriteStat, FileStat, FileStatTable}
use iotrace.SyscallStat.{SyscallStat, SyscallTable}
use iotrace.SyscallNames.{syscall_name}
use iotrace.Json.Tree.{Json, object, array, int, double, string, Items, end, item, last, member}

module _ ⦃d : Double⦄ where
  pub record TransferReport : Type 0 where
    pub total_b : ℕ
    pub total_ns : ℕ
    pub min_bps : d.Carrier
    pub max_bps : d.Carrier
    pub blocks : List (ℤ × ℕ)

  pub record FileReport : Type 0 where
    pub filename : CString
    pub opens : OpenCloseStat
    pub closes : OpenCloseStat
    pub reads : TransferReport
    pub writes : TransferReport

  pub record Report : Type 0 where
    pub trace_id : CString
    pub hostname : CString
    pub rank : CString
    pub files : List FileReport
    pub syscalls : List (CString × SyscallStat)

  -- A number that was counted, as it is written.
  abbrev pub counted : ℕ → Json
  counted n = int (to_gint64 n)

  abbrev pub pair : Json → Json → Json
  pair a b = array (item a (item b end))

  abbrev pub four : Json → Json → Json → Json → Json
  four a b c e = array (item a (item b (item c (item e end))))

  -- "open : [ 'count', 'total nanosecs', 'min nanosecs', 'max nanosecs' ]".
  abbrev pub open_close_tree : OpenCloseStat → Json
  open_close_tree stat =
      four (counted stat.count) (counted stat.total_ns) (counted stat.min_ns) (counted stat.max_ns)

  -- "read : [ 'total bytes', 'total nanosecs', 'min byte/sec', 'max byte/sec' ]".
  abbrev pub transfer_tree : TransferReport → Json
  transfer_tree r =
      four (counted r.total_b) (counted r.total_ns) (double r.min_bps) (double r.max_bps)

  -- "read-blocks : [ [ 'number of bytes', 'count' ], ... ]".
  abbrev pub block_items : List (ℤ × ℕ) → Items
  block_items [] = end
  block_items ((size, count) ∷ rest) = item (pair (int size) (counted count)) (block_items rest)

  abbrev pub file_tree : FileReport → Json
  file_tree r = object (
      member (codes "filename") (string r.filename) (
        member (codes "open") (open_close_tree r.opens) (
          member (codes "close") (open_close_tree r.closes) (
            member (codes "read") (transfer_tree r.reads) (
              member (codes "read-blocks") (array (block_items r.reads.blocks)) (
                member (codes "write") (transfer_tree r.writes)
                  (member (codes "write-blocks") (array (block_items r.writes.blocks)) last)))))))

  abbrev pub file_items : List FileReport → Items
  file_items [] = end
  file_items (r ∷ rest) = item (file_tree r) (file_items rest)

  abbrev pub syscall_tree : CString × SyscallStat → Json
  syscall_tree (name, stat) = object (
      member (codes "syscall") (string name) (
        member (codes "count") (counted stat.count)
          (member (codes "total ns") (counted stat.total_ns) last)))

  abbrev pub syscall_items : List (CString × SyscallStat) → Items
  syscall_items [] = end
  syscall_items (s ∷ rest) = item (syscall_tree s) (syscall_items rest)

  unfoldable pub tree_of : Report → Json
  tree_of r = object (
      member (codes "trace-id") (string r.trace_id) (
        member (codes "hostname") (string r.hostname) (
          member (codes "rank") (string r.rank) (
            member (codes "file statistics") (array (file_items r.files))
              (member (codes "unmatched syscalls") (array (syscall_items r.syscalls)) last)))))

module _ ⦃g : Glib⦄ ⦃d : Double⦄ where
  abbrev pub transfers : ReadWriteStat → TransferReport
  transfers stat = record {
    total_b = stat.total_b;
    total_ns = stat.total_ns;
    min_bps = stat.min_bps;
    max_bps = stat.max_bps;
    blocks = g.entries stat.blocks;
  }

  abbrev pub file_report : CString → FileStat → FileReport
  file_report filename stat = record {
    filename = filename;
    opens = stat.open_stats;
    closes = stat.close_stats;
    reads = transfers stat.read_stats;
    writes = transfers stat.write_stats;
  }

  abbrev pub file_reports : List (CString × FileStat) → List FileReport
  file_reports [] = []
  file_reports ((filename, stat) ∷ rest) = file_report filename stat ∷ file_reports rest

  -- Every system call with its name, if each has one.
  abbrev pub named_calls : List (ℤ × SyscallStat) → Option (List (CString × SyscallStat))
  named_calls [] = some []
  named_calls ((sc, stat) ∷ rest) =
      let later = named_calls rest in
      elim (syscall_name sc) [
        | none ↦ none
        | some name ↦ Option.map (λ calls. (name, stat) ∷ calls) later
      ]

  unfoldable pub report_of :
      CString → CString → Option CString → FileStatTable → SyscallTable → Option Report
  report_of trace_id hostname rank file_stat_table syscall_table =
      Option.map
        (λ calls. record {
          trace_id = trace_id;
          hostname = hostname;
          rank = or_else rank (codes "NULL");
          files = file_reports (g.entries file_stat_table);
          syscalls = calls;
        })
        (named_calls (g.entries syscall_table))
