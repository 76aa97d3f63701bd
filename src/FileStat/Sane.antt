-- ===== src/FileStat/Sane.antt =====
-- What holds of every entry that starts as src/file_stat.c starts it, and the merge of two such entries.
use iotrace.Base.{
  ℕ, zero, suc, ◌<◌, ◌≤◌, ull_mod, ◌≡◌, refl, fun_ext, false, Option, none, some, List, [], ◌∷◌,
  arith, ℤ, pos, negsuc, or_else, ap, sym,
}
use iotrace.Double.{Double, IsNumber, lower_assoc, higher_assoc, lower-IsNumber, higher-IsNumber}
use iotrace.FileStat.{
  min_bps_initial, min_ns_initial, OpenCloseStat, init_open_close, incr_open_close,
  merge_open_close,
}
use iotrace.FileStat.View.{
  Sizes, add_size, join_sizes, RwView, FileView, no_event, no_transfer, speed, transfer, join_rw,
  join_view,
}
use iotrace.FileStat.History.{Event, opened, closed, has_read, has_written, observe, after}

-- What every counter is that starts as the code starts it.
pub record IsSane (s : OpenCloseStat) : Type 0 where
  pub count : s.count < ull_mod
  pub total_ns : s.total_ns < ull_mod
  pub min_ns : s.min_ns ≤ min_ns_initial

pub incr_open_close-IsSane : (s : OpenCloseStat) (ns : ℕ) → IsSane s → IsSane (incr_open_close s ns)
unfolding incr_open_close
incr_open_close-IsSane s ns h = ground arith

merge_open_close-init : (s : OpenCloseStat) → IsSane s → merge_open_close s init_open_close ≡ s
unfolding merge_open_close
merge_open_close-init s h = ground arith

merge-incr_open_close :
    (s r : OpenCloseStat) (ns : ℕ)
    → merge_open_close s (incr_open_close r ns) ≡ incr_open_close (merge_open_close s r) ns
unfolding merge_open_close incr_open_close
merge-incr_open_close s r ns = ground arith

join-add_size :
    (m n : Sizes) (k : ℤ) → join_sizes m (add_size n k 1) ≡ add_size (join_sizes m n) k 1
join-add_size m n k = fun_ext λ j. ground arith

module _ ⦃d : Double⦄ where
  pub record IsSaneRw (v : RwView) : Type 0 where
    pub total_b : v.total_b < ull_mod
    pub total_ns : v.total_ns < ull_mod
    pub min_number : IsNumber v.min_bps
    pub max_number : IsNumber v.max_bps
    pub min_bps : d.less (d.of_ull min_bps_initial) v.min_bps ≡ false
    pub max_bps : d.less v.max_bps (d.of_ull 0) ≡ false

  no_transfer-IsSaneRw : IsSaneRw no_transfer
  no_transfer-IsSaneRw = record {
    total_b = omega arith;
    total_ns = omega arith;
    min_number = d.of_ull_number min_bps_initial;
    max_number = d.of_ull_number 0;
    min_bps = d.less_irrefl _;
    max_bps = d.less_irrefl _;
  }

  pub transfer-IsSaneRw : (v : RwView) (ns : ℕ) (b : ℤ) → IsSaneRw v → IsSaneRw (transfer v ns b)
  transfer-IsSaneRw v ns (pos zero) h = ground arith
  transfer-IsSaneRw v ns (negsuc n) h = ground arith
  transfer-IsSaneRw v ns (pos (suc n)) h = record {
    total_b = omega arith;
    total_ns = omega arith;
    min_number = lower-IsNumber _ _ h.min_number (d.quotient_number n ns);
    max_number = higher-IsNumber _ _ h.max_number (d.quotient_number n ns);
    min_bps =
        ground
          (arith, h.min_bps, d.less_trans (d.of_ull min_bps_initial) (speed (suc n) ns) v.min_bps);
    max_bps = ground (arith, h.max_bps, d.less_trans v.max_bps (speed (suc n) ns) (d.of_ull 0));
  }

  RwView_eq :
      (v w : RwView)
      → v.total_b ≡ w.total_b
      → v.total_ns ≡ w.total_ns
      → v.min_bps ≡ w.min_bps
      → v.max_bps ≡ w.max_bps
      → v.sizes ≡ w.sizes
      → v ≡ w
  RwView_eq v w b t l h s =
      λ i. record { total_b = b i; total_ns = t i; min_bps = l i; max_bps = h i; sizes = s i }

  join_rw-none : (v : RwView) → IsSaneRw v → join_rw v no_transfer ≡ v
  join_rw-none v h = RwView_eq _ v (ground arith) (ground arith) (rw h.min_bps) (rw h.max_bps) refl

  join_rw-transfer :
      (v w : RwView) (ns : ℕ) (b : ℤ)
      → IsSaneRw v
      → IsSaneRw w
      → join_rw v (transfer w ns b) ≡ transfer (join_rw v w) ns b
  join_rw-transfer v w ns (pos zero) h k =
      RwView_eq _ _ refl (omega arith) refl refl (join-add_size v.sizes w.sizes (pos 0))
  join_rw-transfer v w ns (negsuc n) h k =
      RwView_eq _ _ refl (omega arith) refl refl (join-add_size v.sizes w.sizes (negsuc n))
  join_rw-transfer v w ns (pos (suc n)) h k =
      RwView_eq _ _ (omega arith) (omega arith)
        (sym (lower_assoc _ _ _ h.min_number k.min_number (d.quotient_number n ns)))
        (sym (higher_assoc _ _ _ h.max_number k.max_number (d.quotient_number n ns)))
        (join-add_size v.sizes w.sizes (pos (suc n)))

  -- What holds of each entry of a table: the counters lie in their types' ranges, and no recorded
  -- minimum or maximum lies outside the value that it started from.
  pub record IsSaneFile (v : FileView) : Type 0 where
    pub opens : IsSane v.opens
    pub closes : IsSane v.closes
    pub reads : IsSaneRw v.reads
    pub writes : IsSaneRw v.writes

  pub no_event-IsSaneFile : IsSaneFile no_event
  no_event-IsSaneFile = record {
    opens = omega arith;
    closes = omega arith;
    reads = no_transfer-IsSaneRw;
    writes = no_transfer-IsSaneRw;
  }

  pub observe-IsSaneFile : (v : FileView) (e : Event) → IsSaneFile v → IsSaneFile (observe v e)
  observe-IsSaneFile v (opened ns) h = record {
    opens = incr_open_close-IsSane v.opens ns h.opens;
    closes = h.closes;
    reads = h.reads;
    writes = h.writes;
  }
  observe-IsSaneFile v (closed ns) h = record {
    opens = h.opens;
    closes = incr_open_close-IsSane v.closes ns h.closes;
    reads = h.reads;
    writes = h.writes;
  }
  observe-IsSaneFile v (has_read ns b) h = record {
    opens = h.opens;
    closes = h.closes;
    reads = transfer-IsSaneRw v.reads ns b h.reads;
    writes = h.writes;
  }
  observe-IsSaneFile v (has_written ns b) h = record {
    opens = h.opens;
    closes = h.closes;
    reads = h.reads;
    writes = transfer-IsSaneRw v.writes ns b h.writes;
  }

  pub join_view-no_event : (v : FileView) → IsSaneFile v → join_view v no_event ≡ v
  join_view-no_event v h = λ i. record {
    opens = merge_open_close-init v.opens h.opens i;
    closes = merge_open_close-init v.closes h.closes i;
    reads = join_rw-none v.reads h.reads i;
    writes = join_rw-none v.writes h.writes i;
  }

  pub join_view-observe :
      (v w : FileView) (e : Event)
      → IsSaneFile v
      → IsSaneFile w
      → join_view v (observe w e) ≡ observe (join_view v w) e
  join_view-observe v w (opened ns) h k =
      ap (λ s. record (join_view v w) { opens = s }) (merge-incr_open_close v.opens w.opens ns)
  join_view-observe v w (closed ns) h k =
      ap (λ s. record (join_view v w) { closes = s }) (merge-incr_open_close v.closes w.closes ns)
  join_view-observe v w (has_read ns b) h k =
      ap (λ s. record (join_view v w) { reads = s })
        (join_rw-transfer v.reads w.reads ns b h.reads k.reads)
  join_view-observe v w (has_written ns b) h k =
      ap (λ s. record (join_view v w) { writes = s })
        (join_rw-transfer v.writes w.writes ns b h.writes k.writes)

  abbrev pub IsSaneEntry : Option FileView → Type 0
  IsSaneEntry none = Unit
  IsSaneEntry (some v) = IsSaneFile v

  pub or_else-IsSane : (o : Option FileView) → IsSaneEntry o → IsSaneFile (or_else o no_event)
  or_else-IsSane none h = no_event-IsSaneFile
  or_else-IsSane (some v) h = h

  pub after-IsSane :
      (o : Option FileView) (es : List Event) → IsSaneEntry o → IsSaneEntry (after o es)
  after-IsSane o [] h = h
  after-IsSane o (e ∷ es) h =
      after-IsSane (some (observe (or_else o no_event) e)) es
        (observe-IsSaneFile _ e (or_else-IsSane o h))
  -- Events after a join, and a join after events.
