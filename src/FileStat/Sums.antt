-- ===== src/FileStat/Sums.antt =====
-- Counts, sums and bounds of the events on a file.
use iotrace.Base.{
  ℕ, ◌+◌, ◌%◌, ◌≤◌, ull_mod, ◌≡◌, ◌↔◌, Option, some, List, [], ◌∷◌, arith, ◌==◌, if◌then◌else◌, ℤ,
  pos, negsuc, eq_ℤ, to_int, or_else, length,
}
use iotrace.FileStat.{OpenCloseStat, incr_open_close}
use iotrace.FileStat.History.{Event, opened, closed, has_read, has_written}
use iotrace.FileStat.Sane.{IsSane}

abbrev pub sum : List ℕ → ℕ
sum [] = 0
sum (n ∷ ns) = n + sum ns

abbrev pub AllAbove : ℕ → List ℕ → Type 0
AllAbove n [] = Unit
AllAbove n (t ∷ ts) = (n ≤ t) × AllAbove n ts

abbrev pub AllBelow : List ℕ → ℕ → Type 0
AllBelow [] n = Unit
AllBelow (t ∷ ts) n = (t ≤ n) × AllBelow ts n

-- What a counter of opens or closes has become by calls that took the times `ts`.
pub record Extends (s : OpenCloseStat) (ts : List ℕ) (r : OpenCloseStat) : Type 0 where
  pub count : r.count ≡ (s.count + length ts) % ull_mod
  pub total_ns : r.total_ns ≡ (s.total_ns + sum ts) % ull_mod
  pub min_ns : (n : ℕ) → (n ≤ r.min_ns) ↔ ((n ≤ s.min_ns) × AllAbove n ts)
  pub max_ns : (n : ℕ) → (r.max_ns ≤ n) ↔ ((s.max_ns ≤ n) × AllBelow ts n)

pub Extends-nil : (s : OpenCloseStat) → IsSane s → Extends s [] s
Extends-nil s h = record {
  count = ground arith;
  total_ns = ground arith;
  min_ns = λ n. (λ p. (p, tt), λ p. p.0);
  max_ns = λ n. (λ p. (p, tt), λ p. p.0);
}

pub Extends-cons :
    (s r : OpenCloseStat) (t : ℕ) (ts : List ℕ)
    → Extends (incr_open_close s t) ts r
    → Extends s (t ∷ ts) r
unfolding incr_open_close
Extends-cons s r t ts h = record {
  count = ground (arith, h.count);
  total_ns = ground (arith, h.total_ns);
  min_ns = λ n. ground (arith, h.min_ns n);
  max_ns = λ n. ground (arith, h.max_ns n);
}

abbrev pub open_times : List Event → List ℕ
open_times [] = []
open_times (opened ns ∷ es) = ns ∷ open_times es
open_times (closed ns ∷ es) = open_times es
open_times (has_read ns b ∷ es) = open_times es
open_times (has_written ns b ∷ es) = open_times es

abbrev pub close_times : List Event → List ℕ
close_times [] = []
close_times (opened ns ∷ es) = close_times es
close_times (closed ns ∷ es) = ns ∷ close_times es
close_times (has_read ns b ∷ es) = close_times es
close_times (has_written ns b ∷ es) = close_times es

abbrev pub Transfers : Type 0
Transfers = List (ℕ × ℤ)

abbrev pub reads_of : List Event → Transfers
reads_of [] = []
reads_of (opened ns ∷ es) = reads_of es
reads_of (closed ns ∷ es) = reads_of es
reads_of (has_read ns b ∷ es) = (ns, b) ∷ reads_of es
reads_of (has_written ns b ∷ es) = reads_of es

abbrev pub writes_of : List Event → Transfers
writes_of [] = []
writes_of (opened ns ∷ es) = writes_of es
writes_of (closed ns ∷ es) = writes_of es
writes_of (has_read ns b ∷ es) = writes_of es
writes_of (has_written ns b ∷ es) = (ns, b) ∷ writes_of es

-- The bytes of a transfer; what a failed call returned is negative.
abbrev pub bytes_of : ℤ → ℕ
bytes_of (pos n) = n
bytes_of (negsuc n) = 0

abbrev pub all_bytes : Transfers → ℕ
all_bytes [] = 0
all_bytes ((ns, b) ∷ ts) = bytes_of b + all_bytes ts

abbrev pub all_time : Transfers → ℕ
all_time [] = 0
all_time ((ns, b) ∷ ts) = ns + all_time ts

-- The calls that returned a size with these four low bytes.
abbrev pub size_count : Transfers → ℤ → ℕ
size_count [] j = 0
size_count ((ns, b) ∷ ts) j = (if eq_ℤ (to_int b) (to_int j) then 1 else 0) + size_count ts j

abbrev pub count_more : Option ℕ → ℕ → Option ℕ
count_more o n = if n == 0 then o else some ((or_else o 0 + n) % ull_mod)
