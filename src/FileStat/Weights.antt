-- ===== src/FileStat/Weights.antt =====
-- The weight of what a history of src/file_stat.c holds of one file or one direction, as the weight of
-- the whole.
use iotrace.Base.{
  ℕ, ◌≡◌, refl, List, [], ◌∷◌, arith, if◌then◌else◌, total, Same, ℤ, CString, str_eq, sym, ◌∙◌,
}
use iotrace.FileStat.History.{Event, opened, closed, has_read, has_written, Events, events_of}
use iotrace.FileStat.Sums.{open_times, close_times, reads_of, writes_of}

events_of-total :
    (f : CString) (v : Event → ℕ) (es : Events)
    → total v (events_of f es) ≡ total (λ x. if str_eq x.0 f then v x.1 else 0) es
events_of-total f v [] = refl
events_of-total f v ((name, e) ∷ es) = ground (arith, events_of-total f v es)

pub events_of-Same :
    (f : CString) (es fs : Events) → Same es fs → Same (events_of f es) (events_of f fs)
events_of-Same f es fs h v = events_of-total f v es ∙ h _ ∙ sym (events_of-total f v fs)

abbrev opened_weight : (ℕ → ℕ) → Event → ℕ
opened_weight v (opened ns) = v ns
opened_weight v (closed ns) = 0
opened_weight v (has_read ns b) = 0
opened_weight v (has_written ns b) = 0

pub open_times-total :
    (v : ℕ → ℕ) (es : List Event) → total v (open_times es) ≡ total (opened_weight v) es
open_times-total v [] = refl
open_times-total v (opened ns ∷ es) = omega (arith, open_times-total v es)
open_times-total v (closed ns ∷ es) = omega (arith, open_times-total v es)
open_times-total v (has_read ns b ∷ es) = omega (arith, open_times-total v es)
open_times-total v (has_written ns b ∷ es) = omega (arith, open_times-total v es)

abbrev closed_weight : (ℕ → ℕ) → Event → ℕ
closed_weight v (opened ns) = 0
closed_weight v (closed ns) = v ns
closed_weight v (has_read ns b) = 0
closed_weight v (has_written ns b) = 0

pub close_times-total :
    (v : ℕ → ℕ) (es : List Event) → total v (close_times es) ≡ total (closed_weight v) es
close_times-total v [] = refl
close_times-total v (opened ns ∷ es) = omega (arith, close_times-total v es)
close_times-total v (closed ns ∷ es) = omega (arith, close_times-total v es)
close_times-total v (has_read ns b ∷ es) = omega (arith, close_times-total v es)
close_times-total v (has_written ns b ∷ es) = omega (arith, close_times-total v es)

abbrev read_weight : (ℕ × ℤ → ℕ) → Event → ℕ
read_weight v (opened ns) = 0
read_weight v (closed ns) = 0
read_weight v (has_read ns b) = v (ns, b)
read_weight v (has_written ns b) = 0

pub reads_of-total :
    (v : ℕ × ℤ → ℕ) (es : List Event) → total v (reads_of es) ≡ total (read_weight v) es
reads_of-total v [] = refl
reads_of-total v (opened ns ∷ es) = omega (arith, reads_of-total v es)
reads_of-total v (closed ns ∷ es) = omega (arith, reads_of-total v es)
reads_of-total v (has_read ns b ∷ es) = omega (arith, reads_of-total v es)
reads_of-total v (has_written ns b ∷ es) = omega (arith, reads_of-total v es)

abbrev written_weight : (ℕ × ℤ → ℕ) → Event → ℕ
written_weight v (opened ns) = 0
written_weight v (closed ns) = 0
written_weight v (has_read ns b) = 0
written_weight v (has_written ns b) = v (ns, b)

pub writes_of-total :
    (v : ℕ × ℤ → ℕ) (es : List Event) → total v (writes_of es) ≡ total (written_weight v) es
writes_of-total v [] = refl
writes_of-total v (opened ns ∷ es) = omega (arith, writes_of-total v es)
writes_of-total v (closed ns ∷ es) = omega (arith, writes_of-total v es)
writes_of-total v (has_read ns b ∷ es) = omega (arith, writes_of-total v es)
writes_of-total v (has_written ns b ∷ es) = omega (arith, writes_of-total v es)
