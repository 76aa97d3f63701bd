-- ===== src/FileStat/Totals.antt =====
-- What the entry of a file says of the events on that file: counts, sums and extremes.
use iotrace.Base.{
  ℕ, zero, suc, ◌+◌, ◌%◌, ull_mod, ◌≡◌, refl, false, Option, none, some, List, [], ◌∷◌, arith, ℤ,
  pos, negsuc, CString, str_eq, codes, inl, inr, Bool-cases,
}
use mathlib.Core.Path.{subst}
use mathlib.Core.Option.{some-injective}
use iotrace.Glib.{Glib}
use iotrace.Double.{Double, lower-le, lower-falls, higher-ge, higher-grows}
use iotrace.FileStat.{create}
use iotrace.FileStat.View.{RwView, FileView, no_event, speed, transfer}
use iotrace.FileStat.History.{
  Event, opened, closed, has_read, has_written, Events, events_of, observe, after, record_events,
  get_view, initial,
}
use iotrace.FileStat.Sane.{IsSaneFile, IsSaneRw, no_event-IsSaneFile, observe-IsSaneFile}
use iotrace.FileStat.Merge.{get_view-record_events-create, after-some}
use iotrace.FileStat.Sums.{
  Extends, Extends-nil, Extends-cons, open_times, close_times, Transfers, reads_of, writes_of,
  all_bytes, all_time, size_count, count_more,
}

module _ ⦃d : Double⦄ where
  -- Each transfer of at least one byte lies between two speeds.
  abbrev pub InBounds : d.Carrier → Transfers → d.Carrier → Type 0
  InBounds l [] h = Unit
  InBounds l ((ns, pos zero) ∷ ts) h = InBounds l ts h
  InBounds l ((ns, pos (suc n)) ∷ ts) h =
      (d.less (speed (suc n) ns) l ≡ false)
      × (d.less h (speed (suc n) ns) ≡ false)
      × InBounds l ts h
  InBounds l ((ns, negsuc n) ∷ ts) h = InBounds l ts h

  -- What the counters of reads or writes have become by transfers.
  pub record ExtendsRw (v : RwView) (ts : Transfers) (w : RwView) : Type 0 where
    pub total_b : w.total_b ≡ (v.total_b + all_bytes ts) % ull_mod
    pub total_ns : w.total_ns ≡ (v.total_ns + all_time ts) % ull_mod
    pub sizes : (j : ℤ) → w.sizes j ≡ count_more (v.sizes j) (size_count ts j)
    pub bounds : InBounds w.min_bps ts w.max_bps
    pub falls : (x : d.Carrier) → d.less x v.min_bps ≡ false → d.less x w.min_bps ≡ false
    pub grows : (x : d.Carrier) → d.less v.max_bps x ≡ false → d.less w.max_bps x ≡ false

  ExtendsRw-nil : (v : RwView) → IsSaneRw v → ExtendsRw v [] v
  ExtendsRw-nil v h = record {
    total_b = ground arith;
    total_ns = ground arith;
    sizes = λ j. refl;
    bounds = tt;
    falls = λ x p. p;
    grows = λ x p. p;
  }

  ExtendsRw-cons :
      (v w : RwView) (ns : ℕ) (b : ℤ) (ts : Transfers)
      → ExtendsRw (transfer v ns b) ts w
      → ExtendsRw v ((ns, b) ∷ ts) w
  ExtendsRw-cons v w ns (pos zero) ts h = record {
    total_b = ground (arith, h.total_b);
    total_ns = ground (arith, h.total_ns);
    sizes = λ j. ground (arith, h.sizes j);
    bounds = h.bounds;
    falls = h.falls;
    grows = h.grows;
  }
  ExtendsRw-cons v w ns (negsuc n) ts h = record {
    total_b = ground (arith, h.total_b);
    total_ns = ground (arith, h.total_ns);
    sizes = λ j. ground (arith, h.sizes j);
    bounds = h.bounds;
    falls = h.falls;
    grows = h.grows;
  }
  ExtendsRw-cons v w ns (pos (suc n)) ts h = record {
    total_b = ground (arith, h.total_b);
    total_ns = ground (arith, h.total_ns);
    sizes = λ j. ground (arith, h.sizes j);
    bounds = (h.falls _ (lower-le v.min_bps _), h.grows _ (higher-ge v.max_bps _), h.bounds);
    falls = λ x p. h.falls x (lower-falls x v.min_bps _ p);
    grows = λ x p. h.grows x (higher-grows x v.max_bps _ p);
  }

  -- What the entry of a file has become by events on that file.
  pub record ExtendsFile (v : FileView) (es : List Event) (w : FileView) : Type 0 where
    pub opens : Extends v.opens (open_times es) w.opens
    pub closes : Extends v.closes (close_times es) w.closes
    pub reads : ExtendsRw v.reads (reads_of es) w.reads
    pub writes : ExtendsRw v.writes (writes_of es) w.writes

  ExtendsFile-cons :
      (v w : FileView) (e : Event) (es : List Event)
      → ExtendsFile (observe v e) es w
      → ExtendsFile v (e ∷ es) w
  ExtendsFile-cons v w (opened ns) es h = record {
    opens = Extends-cons v.opens w.opens ns (open_times es) h.opens;
    closes = h.closes;
    reads = h.reads;
    writes = h.writes;
  }
  ExtendsFile-cons v w (closed ns) es h = record {
    opens = h.opens;
    closes = Extends-cons v.closes w.closes ns (close_times es) h.closes;
    reads = h.reads;
    writes = h.writes;
  }
  ExtendsFile-cons v w (has_read ns b) es h = record {
    opens = h.opens;
    closes = h.closes;
    reads = ExtendsRw-cons v.reads w.reads ns b (reads_of es) h.reads;
    writes = h.writes;
  }
  ExtendsFile-cons v w (has_written ns b) es h = record {
    opens = h.opens;
    closes = h.closes;
    reads = h.reads;
    writes = ExtendsRw-cons v.writes w.writes ns b (writes_of es) h.writes;
  }

  after-ExtendsFile :
      (v w : FileView) (es : List Event)
      → IsSaneFile v
      → after (some v) es ≡ some w
      → ExtendsFile v es w
  after-ExtendsFile v w [] h e = subst (ExtendsFile v []) (some-injective v w e) (record {
    opens = Extends-nil v.opens h.opens;
    closes = Extends-nil v.closes h.closes;
    reads = ExtendsRw-nil v.reads h.reads;
    writes = ExtendsRw-nil v.writes h.writes;
  })
  after-ExtendsFile v w (x ∷ es) h e =
      ExtendsFile-cons v w x es (after-ExtendsFile (observe v x) w es (observe-IsSaneFile v x h) e)

  -- A file has no entry if it had no event, unless it is "NULL"; its entry is made by its events.
  abbrev pub Describes : CString → List Event → Option FileView → Type 0
  Describes f es none = (es ≡ []) × (str_eq (codes "NULL") f ≡ false)
  Describes f es (some w) = ExtendsFile no_event es w

  unnamed-Describes :
      (f : CString) (es : List Event)
      → str_eq (codes "NULL") f ≡ false
      → Describes f es (after none es)
  unnamed-Describes f [] p = (refl, p)
  unnamed-Describes f (x ∷ es) p =
      let (w, e) = after-some (observe no_event x) es in
      rw (e, Describes)
        (ExtendsFile-cons no_event w x es (
          after-ExtendsFile (observe no_event x) w es
            (observe-IsSaneFile no_event x no_event-IsSaneFile) e))

  initial-Describes : (f : CString) (es : List Event) → Describes f es (after (initial f) es)
  initial-Describes f es = elim (Bool-cases (str_eq (codes "NULL") f)) [
    | inl p ↦
        let (w, e) = after-some no_event es in
        rw (p, Describes, e) (after-ExtendsFile no_event w es no_event-IsSaneFile e)
    | inr p ↦ rw p (unnamed-Describes f es p)
  ]

module _ ⦃g : Glib⦄ ⦃d : Double⦄ where
  pub record_events-Describes :
      (es : Events) (f : CString)
      → Describes f (events_of f es) (get_view (record_events create es) f)
  record_events-Describes es f =
      rw (get_view-record_events-create es f) (initial-Describes f (events_of f es))
