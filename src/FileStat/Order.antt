-- ===== src/FileStat/Order.antt =====
-- What an entry of src/file_stat.c says of a history does not depend on the order of the events.
use iotrace.Base.{
  ℕ, zero, suc, ◌≡◌, ◌↔◌, refl, ◌||◌, Option, none, some, List, [], ◌∷◌, arith, ltb, length, total,
  Same, length-total, one_if, Same-nil, ℤ, pos, negsuc, eq_ℤ, to_int, CString, sym, ◌∙◌,
}
use mathlib.Core.Path.{subst}
use iotrace.Double.{Double}
use iotrace.FileStat.{OpenCloseStat}
use iotrace.FileStat.View.{RwView, FileView, no_event, speed}
use iotrace.FileStat.History.{Event, Events, events_of}
use iotrace.FileStat.Sums.{
  sum, AllAbove, AllBelow, Extends, open_times, close_times, Transfers, reads_of, writes_of,
  bytes_of, all_bytes, all_time, size_count,
}
use iotrace.FileStat.Totals.{InBounds, ExtendsRw, ExtendsFile, Describes}
use iotrace.FileStat.Weights.{
  events_of-Same, open_times-total, close_times-total, reads_of-total, writes_of-total,
}

-- Sums, bounds and sizes as totals.
length-Same : {A : Type 0} (xs ys : List A) → Same xs ys → length xs ≡ length ys
length-Same xs ys h = length-total xs ∙ h _ ∙ sym (length-total ys)

sum-total : (ts : List ℕ) → sum ts ≡ total (λ t. t) ts
sum-total [] = refl
sum-total (t ∷ ts) = omega (arith, sum-total ts)

AllAbove-iff-total : (n : ℕ) (ts : List ℕ) → AllAbove n ts ↔ (total (λ t. one_if (ltb t n)) ts ≡ 0)
AllAbove-iff-total n [] = ground arith
AllAbove-iff-total n (t ∷ ts) = ground (arith, AllAbove-iff-total n ts)

AllBelow-iff-total : (n : ℕ) (ts : List ℕ) → AllBelow ts n ↔ (total (λ t. one_if (ltb n t)) ts ≡ 0)
AllBelow-iff-total n [] = ground arith
AllBelow-iff-total n (t ∷ ts) = ground (arith, AllBelow-iff-total n ts)

Extends-Same : (s r : OpenCloseStat) (ts us : List ℕ) → Same ts us → Extends s ts r → Extends s us r
Extends-Same s r ts us h e = record {
  count = ground (arith, e.count, length-Same ts us h);
  total_ns = ground (arith, e.total_ns, sum-total ts, sum-total us, h (λ t. t));
  min_ns = λ n. ground (
    arith,
    e.min_ns n,
    AllAbove-iff-total n ts,
    AllAbove-iff-total n us,
    h (λ t. one_if (ltb t n)),
  );
  max_ns = λ n. ground (
    arith,
    e.max_ns n,
    AllBelow-iff-total n ts,
    AllBelow-iff-total n us,
    h (λ t. one_if (ltb n t)),
  );
}

all_bytes-total : (ts : Transfers) → all_bytes ts ≡ total (λ x. bytes_of x.1) ts
all_bytes-total [] = refl
all_bytes-total ((ns, b) ∷ ts) = omega (arith, all_bytes-total ts)

all_time-total : (ts : Transfers) → all_time ts ≡ total (λ x. x.0) ts
all_time-total [] = refl
all_time-total ((ns, b) ∷ ts) = omega (arith, all_time-total ts)

size_count-total :
    (ts : Transfers) (j : ℤ)
    → size_count ts j ≡ total (λ x. one_if (eq_ℤ (to_int x.1) (to_int j))) ts
size_count-total [] j = refl
size_count-total ((ns, b) ∷ ts) j = omega (arith, size_count-total ts j)

module _ ⦃d : Double⦄ where
  -- A transfer that is slower or faster than the bounds.
  abbrev is_outside : d.Carrier → d.Carrier → ℕ × ℤ → ℕ
  is_outside l h (ns, pos zero) = 0
  is_outside l h (ns, pos (suc n)) =
      one_if (d.less (speed (suc n) ns) l || d.less h (speed (suc n) ns))
  is_outside l h (ns, negsuc n) = 0

  InBounds-iff-total :
      (l h : d.Carrier) (ts : Transfers) → InBounds l ts h ↔ (total (is_outside l h) ts ≡ 0)
  InBounds-iff-total l h [] = ground arith
  InBounds-iff-total l h ((ns, pos zero) ∷ ts) = ground (arith, InBounds-iff-total l h ts)
  InBounds-iff-total l h ((ns, pos (suc n)) ∷ ts) = ground (arith, InBounds-iff-total l h ts)
  InBounds-iff-total l h ((ns, negsuc n) ∷ ts) = ground (arith, InBounds-iff-total l h ts)

  ExtendsRw-Same :
      (v w : RwView) (ts us : Transfers) → Same ts us → ExtendsRw v ts w → ExtendsRw v us w
  ExtendsRw-Same v w ts us h e = record {
    total_b =
        ground (arith, e.total_b, all_bytes-total ts, all_bytes-total us, h (λ x. bytes_of x.1));
    total_ns = ground (arith, e.total_ns, all_time-total ts, all_time-total us, h (λ x. x.0));
    sizes = λ j. ground (
      arith,
      e.sizes j,
      size_count-total ts j,
      size_count-total us j,
      h (λ x. one_if (eq_ℤ (to_int x.1) (to_int j))),
    );
    bounds = (InBounds-iff-total w.min_bps w.max_bps us).1 (
        sym (h (is_outside w.min_bps w.max_bps))
        ∙ (InBounds-iff-total w.min_bps w.max_bps ts).0 e.bounds);
    falls = e.falls;
    grows = e.grows;
  }

  ExtendsFile-Same :
      (v w : FileView) (es fs : List Event) → Same es fs → ExtendsFile v es w → ExtendsFile v fs w
  ExtendsFile-Same v w es fs h e = record {
    opens =
        Extends-Same v.opens w.opens (open_times es) (open_times fs)
          (λ u. open_times-total u es ∙ h _ ∙ sym (open_times-total u fs)) e.opens;
    closes =
        Extends-Same v.closes w.closes (close_times es) (close_times fs)
          (λ u. close_times-total u es ∙ h _ ∙ sym (close_times-total u fs)) e.closes;
    reads =
        ExtendsRw-Same v.reads w.reads (reads_of es) (reads_of fs)
          (λ u. reads_of-total u es ∙ h _ ∙ sym (reads_of-total u fs)) e.reads;
    writes =
        ExtendsRw-Same v.writes w.writes (writes_of es) (writes_of fs)
          (λ u. writes_of-total u es ∙ h _ ∙ sym (writes_of-total u fs)) e.writes;
  }

  some-Describes :
      (f : CString) (es fs : List Event) (o : Option FileView)
      → Same es fs
      → Describes f es o
      → Describes f fs o
  some-Describes f es fs none h (e, p) = (Same-nil fs (subst (λ l. Same l fs) e h), p)
  some-Describes f es fs (some w) h e = ExtendsFile-Same no_event w es fs h e

  -- An entry that describes the events on a file describes them in any order.
  pub Describes-Same :
      (f : CString) (es fs : Events) (o : Option FileView)
      → Same es fs
      → Describes f (events_of f es) o
      → Describes f (events_of f fs) o
  Describes-Same f es fs o h = some-Describes f _ _ o (events_of-Same f es fs h)
