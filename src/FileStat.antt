-- ===== src/FileStat.antt =====
-- src/file_stat.h and src/file_stat.c: for each file name, how often it was opened, closed, read and
-- written, how long that took, how fast it was and in blocks of which sizes. A table holds values
-- where the program holds pointers to them: no two entries share one.
pub mod View
pub mod History
pub mod Sane
pub mod Merge
pub mod Sums
pub mod Totals
pub mod Weights
pub mod Order
pub mod Print
use iotrace.Base.{
  ℕ, ◌+◌, ◌%◌, ull_mod, Option, if◌then◌else◌, is_some, ltb, foldl, ℤ, pos, negsuc, CString, codes,
}
use iotrace.Glib.{Glib}
use iotrace.Glib.Keys.{str_key, block_key}
use iotrace.Double.{Double, lower, higher}

abbrev pub min_ns_initial : ℕ
min_ns_initial = 9999999999999

-- MIN_BPS_INITIAL is the `double` of this value.
abbrev pub min_bps_initial : ℕ
min_bps_initial = 9999999999999

pub record OpenCloseStat : Type 0 where
  pub count : ℕ
  pub total_ns : ℕ
  pub min_ns : ℕ
  pub max_ns : ℕ

abbrev pub init_open_close : OpenCloseStat
init_open_close = record { count = 0; total_ns = 0; min_ns = min_ns_initial; max_ns = 0 }

-- `if (a > b) a = b`, and `if (a < b) a = b`.
abbrev pub lower_ns : ℕ → ℕ → ℕ
lower_ns a b = if ltb b a then b else a

abbrev pub higher_ns : ℕ → ℕ → ℕ
higher_ns a b = if ltb a b then b else a

-- The bodies of `file_stat_incr_open` and of `file_stat_incr_close`, on the part that they change.
unfoldable pub incr_open_close : OpenCloseStat → ℕ → OpenCloseStat
incr_open_close stat time_ns = record {
  count = (stat.count + 1) % ull_mod;
  total_ns = (stat.total_ns + time_ns) % ull_mod;
  min_ns = lower_ns stat.min_ns time_ns;
  max_ns = higher_ns stat.max_ns time_ns;
}

unfoldable pub merge_open_close : OpenCloseStat → OpenCloseStat → OpenCloseStat
merge_open_close stat_1 stat_2 = record {
  count = (stat_1.count + stat_2.count) % ull_mod;
  total_ns = (stat_1.total_ns + stat_2.total_ns) % ull_mod;
  min_ns = lower_ns stat_1.min_ns stat_2.min_ns;
  max_ns = higher_ns stat_1.max_ns stat_2.max_ns;
}

module _ ⦃g : Glib⦄ ⦃d : Double⦄ where
  -- Sizes of blocks and how often they were read or written.
  abbrev pub Blocks : Type 0
  Blocks = g.Table block_key ℕ

  pub record ReadWriteStat : Type 0 where
    pub total_b : ℕ
    pub total_ns : ℕ
    pub min_bps : d.Carrier
    pub max_bps : d.Carrier
    pub blocks : Blocks

  pub record FileStat : Type 0 where
    pub open_stats : OpenCloseStat
    pub close_stats : OpenCloseStat
    pub read_stats : ReadWriteStat
    pub write_stats : ReadWriteStat

  abbrev pub init_read_write : ReadWriteStat
  init_read_write = record {
    total_b = 0;
    total_ns = 0;
    min_bps = d.of_ull min_bps_initial;
    max_bps = d.of_ull 0;
    blocks = g.new block_key ℕ;
  }

  abbrev pub init_file_stat : FileStat
  init_file_stat = record {
    open_stats = init_open_close;
    close_stats = init_open_close;
    read_stats = init_read_write;
    write_stats = init_read_write;
  }

  abbrev pub FileStatTable : Type 0
  FileStatTable = g.Table str_key FileStat

  abbrev pub stat_table_insert : FileStatTable → CString → FileStatTable
  stat_table_insert table filename = g.insert table filename init_file_stat

  unfoldable pub create : FileStatTable
  create = stat_table_insert (g.new str_key FileStat) (codes "NULL")

  abbrev pub get : FileStatTable → CString → Option FileStat
  get table filename = g.lookup table filename

  -- The table in which `file_stat_get_safe` finds the entry that it returns.
  abbrev pub get_safe : FileStatTable → CString → FileStatTable
  get_safe table filename =
      if is_some (get table filename) then table else stat_table_insert table filename

  unfoldable pub incr_open : FileStatTable → CString → ℕ → FileStatTable
  incr_open table filename time_ns =
      g.modify (get_safe table filename) filename
        (λ tmp. record tmp { open_stats = incr_open_close tmp.open_stats time_ns })

  unfoldable pub incr_close : FileStatTable → CString → ℕ → FileStatTable
  incr_close table filename time_ns =
      g.modify (get_safe table filename) filename
        (λ tmp. record tmp { close_stats = incr_open_close tmp.close_stats time_ns })

  -- `if (bytes > 0)`: the bytes and the speed.
  unfoldable pub incr_speed : ReadWriteStat → ℕ → ℤ → ReadWriteStat
  incr_speed stat time_ns (pos ℕ.zero) = stat
  incr_speed stat time_ns (pos (ℕ.suc n)) =
      let time_s = d.divide (d.of_ull time_ns) (d.of_ull 1000000000) in
      let bps = d.divide (d.of_ssize (pos (ℕ.suc n))) time_s in
      record stat {
        total_b = (stat.total_b + ℕ.suc n) % ull_mod;
        min_bps = lower stat.min_bps bps;
        max_bps = higher stat.max_bps bps;
      }
  incr_speed stat time_ns (negsuc n) = stat

  abbrev pub add_block : Blocks → ℤ → ℕ → Blocks
  add_block blocks bytes n =
      let table = if is_some (g.lookup blocks bytes) then blocks else g.insert blocks bytes 0 in
      g.modify table bytes (λ count. (count + n) % ull_mod)

  unfoldable pub incr_rw : ReadWriteStat → ℕ → ℤ → ReadWriteStat
  unfolding incr_speed
  incr_rw stat time_ns bytes =
      let timed : ReadWriteStat = record stat { total_ns = (stat.total_ns + time_ns) % ull_mod } in
      let sped = incr_speed timed time_ns bytes in
      record sped { blocks = add_block sped.blocks bytes 1 }

  unfoldable pub incr_read : FileStatTable → CString → ℕ → ℤ → FileStatTable
  incr_read table filename time_ns bytes =
      g.modify (get_safe table filename) filename
        (λ tmp. record tmp { read_stats = incr_rw tmp.read_stats time_ns bytes })

  unfoldable pub incr_write : FileStatTable → CString → ℕ → ℤ → FileStatTable
  incr_write table filename time_ns bytes =
      g.modify (get_safe table filename) filename
        (λ tmp. record tmp { write_stats = incr_rw tmp.write_stats time_ns bytes })

  unfoldable pub merge_blocks_step : Blocks → ℤ × ℕ → Blocks
  merge_blocks_step blocks_1 (bytes, count_2) = add_block blocks_1 bytes count_2

  unfoldable pub merge_blocks : Blocks → Blocks → Blocks
  unfolding foldl merge_blocks_step
  merge_blocks blocks_1 blocks_2 = foldl merge_blocks_step blocks_1 (g.entries blocks_2)

  unfoldable pub merge_read_write : ReadWriteStat → ReadWriteStat → ReadWriteStat
  merge_read_write stat_1 stat_2 = record stat_1 {
    total_b = (stat_1.total_b + stat_2.total_b) % ull_mod;
    total_ns = (stat_1.total_ns + stat_2.total_ns) % ull_mod;
    min_bps = lower stat_1.min_bps stat_2.min_bps;
    max_bps = higher stat_1.max_bps stat_2.max_bps;
  }

  -- `merge_read_write`, and then `merge_blocks`, on the reads or on the writes of two entries.
  unfoldable pub merge_direction : ReadWriteStat → ReadWriteStat → ReadWriteStat
  unfolding merge_read_write merge_blocks
  merge_direction stat_1 stat_2 =
      let merged = merge_read_write stat_1 stat_2 in
      record merged { blocks = merge_blocks merged.blocks stat_2.blocks }

  -- The body of the loop of `file_state_merge`, on the two entries.
  unfoldable pub merge_file_stat : FileStat → FileStat → FileStat
  unfolding merge_open_close merge_direction
  merge_file_stat stat_1 stat_2 = record {
    open_stats = merge_open_close stat_1.open_stats stat_2.open_stats;
    close_stats = merge_open_close stat_1.close_stats stat_2.close_stats;
    read_stats = merge_direction stat_1.read_stats stat_2.read_stats;
    write_stats = merge_direction stat_1.write_stats stat_2.write_stats;
  }

  unfoldable pub merge_step : FileStatTable → CString × FileStat → FileStatTable
  unfolding merge_file_stat
  merge_step table_1 (file, stat_2) =
      g.modify (get_safe table_1 file) file (λ stat_1. merge_file_stat stat_1 stat_2)

  unfoldable pub merge : FileStatTable → FileStatTable → FileStatTable
  unfolding foldl merge_step
  merge table_1 table_2 = foldl merge_step table_1 (g.entries table_2)
