-- ===== src/Json.antt =====
-- src/json_printer.c: the calls of json-glib that write the statistics, in their order.
pub mod Tree
pub mod Report
pub mod Layout
pub mod Reading
pub mod Unnamed
pub mod Shown
use iotrace.Base.{
  ℕ, ◌-◌, ◌%◌, ◌^◌, Option, none, some, List, [], ◌∷◌, ◌++◌, ltb, if◌then◌else◌, or_else, ull_mod,
  ℤ, pos, negsuc, CString, codes, to_gint64,
}
use mathlib.Core.Option
use iotrace.Glib.{Glib}
use iotrace.Double.{Double}
use iotrace.FileStat.{OpenCloseStat, Blocks, ReadWriteStat, FileStat, FileStatTable}
use iotrace.SyscallStat.{SyscallStat, SyscallTable}
use iotrace.SyscallNames.{syscall_name}

module _ ⦃d : Double⦄ where
  -- The functions `json_builder_...` with their arguments.
  pub data Call : Type 0 where
    set_member_name : CString → Call
    begin_object end_object begin_array end_array : Call
    add_int_value : ℤ → Call
    add_double_value : d.Carrier → Call
    add_string_value : CString → Call

  open_close_calls : CString → OpenCloseStat → List Call
  open_close_calls name stat =
      set_member_name name
      ∷ begin_array
      ∷ add_int_value (to_gint64 stat.count)
      ∷ add_int_value (to_gint64 stat.total_ns)
      ∷ add_int_value (to_gint64 stat.min_ns)
      ∷ add_int_value (to_gint64 stat.max_ns)
      ∷ end_array
      ∷ []

  block_calls : List (ℤ × ℕ) → List Call
  block_calls [] = []
  block_calls ((blocks_key, blocks_value) ∷ rest) =
      begin_array
      ∷ add_int_value blocks_key
      ∷ add_int_value (to_gint64 blocks_value)
      ∷ end_array
      ∷ block_calls rest

module _ ⦃g : Glib⦄ ⦃d : Double⦄ where
  blocks_calls : CString → Blocks → List Call
  unfolding block_calls
  blocks_calls name blocks =
      set_member_name name ∷ begin_array ∷ (block_calls (g.entries blocks) ++ end_array ∷ [])

  read_write_calls : CString → ReadWriteStat → List Call
  read_write_calls name stat =
      set_member_name name
      ∷ begin_array
      ∷ add_int_value (to_gint64 stat.total_b)
      ∷ add_int_value (to_gint64 stat.total_ns)
      ∷ add_double_value stat.min_bps
      ∷ add_double_value stat.max_bps
      ∷ end_array
      ∷ []

  -- The body of the loop over the files.
  file_calls : CString → FileStat → List Call
  unfolding open_close_calls read_write_calls blocks_calls
  file_calls key stat =
      begin_object
      ∷ set_member_name (codes "filename")
      ∷ add_string_value key
      ∷ (open_close_calls (codes "open") stat.open_stats
          ++ open_close_calls (codes "close") stat.close_stats
          ++ read_write_calls (codes "read") stat.read_stats
          ++ blocks_calls (codes "read-blocks") stat.read_stats.blocks
          ++ read_write_calls (codes "write") stat.write_stats
          ++ blocks_calls (codes "write-blocks") stat.write_stats.blocks
          ++ end_object ∷ [])

  files_calls : List (CString × FileStat) → List Call
  unfolding file_calls
  files_calls [] = []
  files_calls ((key, stat) ∷ rest) = file_calls key stat ++ files_calls rest

  unfoldable pub builder_add_file_stats : FileStatTable → List Call
  unfolding files_calls
  builder_add_file_stats file_stat_table =
      set_member_name (codes "file statistics")
      ∷ begin_array
      ∷ (files_calls (g.entries file_stat_table) ++ end_array ∷ [])

  syscall_calls : CString → SyscallStat → List Call
  syscall_calls name tmp =
      begin_object
      ∷ set_member_name (codes "syscall")
      ∷ add_string_value name
      ∷ set_member_name (codes "count")
      ∷ add_int_value (to_gint64 tmp.count)
      ∷ set_member_name (codes "total ns")
      ∷ add_int_value (to_gint64 tmp.total_ns)
      ∷ end_object
      ∷ []

  -- `none` where the number of a system call is out of the bounds of the array of names.
  syscalls_calls : List (ℤ × SyscallStat) → Option (List Call)
  unfolding syscall_calls
  syscalls_calls [] = some []
  syscalls_calls ((key, tmp) ∷ rest) =
      let later = syscalls_calls rest in
      elim (syscall_name key) [
        | none ↦ none
        | some name ↦ Option.map (λ calls. syscall_calls name tmp ++ calls) later
      ]

  unfoldable pub builder_add_syscall_stats : SyscallTable → Option (List Call)
  unfolding syscalls_calls
  builder_add_syscall_stats syscall_table =
      Option.map
        (λ calls.
          set_member_name (codes "unmatched syscalls") ∷ begin_array ∷ (calls ++ end_array ∷ []))
        (syscalls_calls (g.entries syscall_table))

  -- `rank` is `none` where the pointer is NULL.
  unfoldable pub create_builder :
      CString → CString → Option CString → FileStatTable → SyscallTable → Option (List Call)
  unfolding builder_add_file_stats builder_add_syscall_stats
  create_builder trace_id hostname rank file_stat_table syscall_table =
      Option.map
        (λ calls.
          begin_object
          ∷ set_member_name (codes "trace-id")
          ∷ add_string_value trace_id
          ∷ set_member_name (codes "hostname")
          ∷ add_string_value hostname
          ∷ set_member_name (codes "rank")
          ∷ add_string_value (or_else rank (codes "NULL"))
          ∷ (builder_add_file_stats file_stat_table ++ calls ++ end_object ∷ []))
        (builder_add_syscall_stats syscall_table)
