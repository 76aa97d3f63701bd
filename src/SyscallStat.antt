-- ===== src/SyscallStat.antt =====
-- src/unconsidered_syscall_stat.h and src/unconsidered_syscall_stat.c: how often each other system
-- call was made, and how long it took.
pub mod Summary
pub mod Order
pub mod Print
use iotrace.Base.{ℕ, ◌+◌, ◌%◌, ull_mod, Option, List, if◌then◌else◌, is_some, foldl, ℤ}
use iotrace.Glib.{Glib}
use iotrace.Glib.Keys.{int_key}

pub record SyscallStat : Type 0 where
  pub count : ℕ
  pub total_ns : ℕ

abbrev pub zero_stat : SyscallStat
zero_stat = record { count = 0; total_ns = 0 }

-- `stat->count += c; stat->total_ns += ns`.
abbrev pub add_stat : SyscallStat → ℕ → ℕ → SyscallStat
add_stat s c ns = record { count = (s.count + c) % ull_mod; total_ns = (s.total_ns + ns) % ull_mod }

module _ ⦃g : Glib⦄ where
  abbrev pub SyscallTable : Type 0
  SyscallTable = g.Table int_key SyscallStat

  unfoldable pub create : SyscallTable
  create = g.new int_key SyscallStat

  unfoldable pub get : SyscallTable → ℤ → Option SyscallStat
  get syscall_table syscall = g.lookup syscall_table syscall

  abbrev pub insert : SyscallTable → ℤ → SyscallTable
  insert syscall_table syscall = g.insert syscall_table syscall zero_stat

  unfoldable pub incr : SyscallTable → ℤ → ℕ → SyscallTable
  unfolding get
  incr syscall_table syscall time_ns =
      let found = is_some (get syscall_table syscall) in
      let table = if found then syscall_table else insert syscall_table syscall in
      g.modify table syscall (λ tmp. add_stat tmp 1 time_ns)

  unfoldable pub merge_step : SyscallTable → ℤ × SyscallStat → SyscallTable
  unfolding get
  merge_step table_1 (syscall, stat_2) =
      let found = is_some (get table_1 syscall) in
      let table = if found then table_1 else insert table_1 syscall in
      g.modify table syscall (λ stat_1. add_stat stat_1 stat_2.count stat_2.total_ns)

  unfoldable pub merge : SyscallTable → SyscallTable → SyscallTable
  unfolding foldl merge_step
  merge table_1 table_2 = foldl merge_step table_1 (g.entries table_2)
