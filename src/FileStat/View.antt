-- ===== src/FileStat/View.antt =====
-- What the entry of a file stands for: the hash table of its block sizes becomes a map.
use iotrace.Base.{
  ℕ, zero, suc, ◌+◌, ◌%◌, ull_mod, ◌≡◌, fun_ext, Option, none, some, arith, if◌then◌else◌, ℤ, pos,
  negsuc, eq_ℤ, to_int, or_else, ap,
}
use iotrace.Glib.{Glib}
use iotrace.Glib.Keys.{block_key}
use iotrace.Glib.Loop.{lookup-foldl}
use iotrace.Glib.Upsert.{lookup-upsert}
use iotrace.Double.{Double, lower, higher}
use iotrace.FileStat.{
  min_bps_initial, OpenCloseStat, init_open_close, merge_open_close, Blocks, ReadWriteStat,
  FileStat, init_read_write, init_file_stat, add_block, incr_rw, merge_blocks_step, merge_blocks,
  merge_direction, merge_file_stat,
}

-- How often each size of block was transferred. Sizes with the same four low bytes are one size.
abbrev pub Sizes : Type 0
Sizes = ℤ → Option ℕ

abbrev pub add_size : Sizes → ℤ → ℕ → Sizes
add_size m k n j =
    if eq_ℤ (to_int k) (to_int j) then some ((or_else (m j) 0 + n) % ull_mod) else m j

abbrev join_count : Option ℕ → Option ℕ → Option ℕ
join_count o none = o
join_count o (some n) = some ((or_else o 0 + n) % ull_mod)

abbrev pub join_sizes : Sizes → Sizes → Sizes
join_sizes m n j = join_count (m j) (n j)

module _ ⦃d : Double⦄ where
  pub record RwView : Type 0 where
    pub total_b : ℕ
    pub total_ns : ℕ
    pub min_bps : d.Carrier
    pub max_bps : d.Carrier
    pub sizes : Sizes

  pub record FileView : Type 0 where
    pub opens : OpenCloseStat
    pub closes : OpenCloseStat
    pub reads : RwView
    pub writes : RwView

  abbrev pub no_transfer : RwView
  no_transfer = record {
    total_b = 0;
    total_ns = 0;
    min_bps = d.of_ull min_bps_initial;
    max_bps = d.of_ull 0;
    sizes = λ _. none;
  }

  abbrev pub no_event : FileView
  no_event = record {
    opens = init_open_close;
    closes = init_open_close;
    reads = no_transfer;
    writes = no_transfer;
  }

  -- Bytes per second of a transfer of `n` bytes in `ns` nanoseconds.
  abbrev pub speed : ℕ → ℕ → d.Carrier
  speed n ns = d.divide (d.of_ssize (pos n)) (d.divide (d.of_ull ns) (d.of_ull 1000000000))

  abbrev pub transfer : RwView → ℕ → ℤ → RwView
  transfer v ns (pos zero) = record v {
    total_ns = (v.total_ns + ns) % ull_mod;
    sizes = add_size v.sizes (pos 0) 1;
  }
  transfer v ns (pos (suc n)) = record {
    total_b = (v.total_b + suc n) % ull_mod;
    total_ns = (v.total_ns + ns) % ull_mod;
    min_bps = lower v.min_bps (speed (suc n) ns);
    max_bps = higher v.max_bps (speed (suc n) ns);
    sizes = add_size v.sizes (pos (suc n)) 1;
  }
  transfer v ns (negsuc n) = record v {
    total_ns = (v.total_ns + ns) % ull_mod;
    sizes = add_size v.sizes (negsuc n) 1;
  }

  abbrev pub join_rw : RwView → RwView → RwView
  join_rw v w = record {
    total_b = (v.total_b + w.total_b) % ull_mod;
    total_ns = (v.total_ns + w.total_ns) % ull_mod;
    min_bps = lower v.min_bps w.min_bps;
    max_bps = higher v.max_bps w.max_bps;
    sizes = join_sizes v.sizes w.sizes;
  }

  abbrev pub join_view : FileView → FileView → FileView
  join_view v w = record {
    opens = merge_open_close v.opens w.opens;
    closes = merge_open_close v.closes w.closes;
    reads = join_rw v.reads w.reads;
    writes = join_rw v.writes w.writes;
  }

module _ ⦃g : Glib⦄ ⦃d : Double⦄ where
  abbrev pub sizes_of : Blocks → Sizes
  sizes_of b k = g.lookup b k

  abbrev pub view_rw : ReadWriteStat → RwView
  view_rw s = record {
    total_b = s.total_b;
    total_ns = s.total_ns;
    min_bps = s.min_bps;
    max_bps = s.max_bps;
    sizes = sizes_of s.blocks;
  }

  abbrev pub view : FileStat → FileView
  view s = record {
    opens = s.open_stats;
    closes = s.close_stats;
    reads = view_rw s.read_stats;
    writes = view_rw s.write_stats;
  }

  sizes_of-add_block :
      (b : Blocks) (k : ℤ) (n : ℕ) → sizes_of (add_block b k n) ≡ add_size (sizes_of b) k n
  sizes_of-add_block b k n = fun_ext λ j. lookup-upsert b k 0 (λ c. (c + n) % ull_mod) j

  pub view-incr_rw :
      (s : ReadWriteStat) (ns : ℕ) (bytes : ℤ)
      → view_rw (incr_rw s ns bytes) ≡ transfer (view_rw s) ns bytes
  unfolding incr_rw
  view-incr_rw s ns (pos zero) =
      ap (λ m. record (transfer (view_rw s) ns (pos 0)) { sizes = m })
        (sizes_of-add_block s.blocks (pos 0) 1)
  view-incr_rw s ns (pos (suc n)) =
      ap (λ m. record (transfer (view_rw s) ns (pos (suc n))) { sizes = m })
        (sizes_of-add_block s.blocks (pos (suc n)) 1)
  view-incr_rw s ns (negsuc n) =
      ap (λ m. record (transfer (view_rw s) ns (negsuc n)) { sizes = m })
        (sizes_of-add_block s.blocks (negsuc n) 1)

  merge_blocks_step-lookup :
      (b : Blocks) (k : ℤ) (n : ℕ) (j : ℤ)
      → g.lookup (merge_blocks_step b (k, n)) j ≡ (
          if eq_ℤ (to_int k) (to_int j)
          then some ((or_else (g.lookup b j) 0 + n) % ull_mod)
          else g.lookup b j)
  unfolding merge_blocks_step
  merge_blocks_step-lookup b k n j = lookup-upsert b k 0 (λ c. (c + n) % ull_mod) j

  sizes_of-merge_blocks :
      (b c : Blocks) → sizes_of (merge_blocks b c) ≡ join_sizes (sizes_of b) (sizes_of c)
  unfolding merge_blocks
  sizes_of-merge_blocks b c = fun_ext λ j. ground (
    arith,
    g.assoc-entries c j,
    lookup-foldl merge_blocks_step (λ o n. (or_else o 0 + n) % ull_mod) merge_blocks_step-lookup
        (g.entries c) (g.entries-Distinct c) b j,
  )

  view-merge_direction :
      (s r : ReadWriteStat) → view_rw (merge_direction s r) ≡ join_rw (view_rw s) (view_rw r)
  unfolding merge_direction
  view-merge_direction s r =
      ap (λ m. record (join_rw (view_rw s) (view_rw r)) { sizes = m })
        (sizes_of-merge_blocks s.blocks r.blocks)

  pub view-merge_file_stat :
      (s r : FileStat) → view (merge_file_stat s r) ≡ join_view (view s) (view r)
  unfolding merge_file_stat
  view-merge_file_stat s r = λ i. record {
    opens = merge_open_close s.open_stats r.open_stats;
    closes = merge_open_close s.close_stats r.close_stats;
    reads = view-merge_direction s.read_stats r.read_stats i;
    writes = view-merge_direction s.write_stats r.write_stats i;
  }

  view_rw-init : view_rw init_read_write ≡ no_transfer
  view_rw-init =
      ap (λ m. record no_transfer { sizes = m }) (fun_ext λ j. g.lookup-new block_key ℕ j)

  pub view-init : view init_file_stat ≡ no_event
  view-init = λ i. record {
    opens = init_open_close;
    closes = init_open_close;
    reads = view_rw-init i;
    writes = view_rw-init i;
  }
