-- ===== src/Main/Pool/Progress.antt =====
-- Who has merged the statistics of a thread, and who is still to come.
use iotrace.Base.{
  ℕ, ◌+◌, ◌-◌, ◌≤◌, ◌%◌, ◌^◌, ◌≡◌, refl, Bool, true, false, Option, none, some, List, [], ◌∷◌, ◌++◌,
  arith, if◌then◌else◌, length, length-append, ap, ◌∙◌, ℤ,
}
use iotrace.Main.Pool.{Phase, tracing, half_merged, merged}

-- A thread: `none` is that of the first tracee.
abbrev pub Who : Type 0
Who = Option ℤ

abbrev pub one : Bool → ℕ
one b = if b then 1 else 0

-- How many of a list pass a test.
abbrev pub tally : (Who → Bool) → List Who → ℕ
tally test [] = 0
tally test (x ∷ xs) = one (test x) + tally test xs

tally-append :
    (test : Who → Bool) (xs ys : List Who) → tally test (xs ++ ys) ≡ tally test xs + tally test ys
tally-append test [] ys = omega arith
tally-append test (x ∷ xs) ys = omega (arith, tally-append test xs ys)

-- All that were started.
abbrev pub others : List ℤ → List Who
others [] = []
others (k ∷ ks) = some k ∷ others ks

abbrev pub each {ℓ} : {A : Type ℓ} → (Who → A) → List Who → List A
each f [] = []
each f (x ∷ xs) = f x ∷ each f xs

pub each-append {ℓ} :
    {A : Type ℓ} (f : Who → A) (xs ys : List Who) → each f (xs ++ ys) ≡ each f xs ++ each f ys
each-append f [] ys = refl
each-append f (x ∷ xs) ys = rw (each-append f xs ys) refl

-- Who has not merged the statistics of files, or those of other calls.
abbrev pub late_files : Phase → Bool
late_files tracing = true
late_files half_merged = false
late_files merged = false

abbrev pub late_calls : Phase → Bool
late_calls tracing = true
late_calls half_merged = true
late_calls merged = false

abbrev pub weigh : (Who → Bool) → Who → Bool → ℕ
weigh test who late = if late then one (test who) else 0

abbrev pub pending : (Phase → Bool) → (Who → Bool) → List (ℤ × Phase) → ℕ
pending late test [] = 0
pending late test ((k, phase) ∷ rest) = weigh test (some k) (late phase) + pending late test rest

pending-append :
    (late : Phase → Bool) (test : Who → Bool) (xs ys : List (ℤ × Phase))
    → pending late test (xs ++ ys) ≡ pending late test xs + pending late test ys
pending-append late test [] ys = omega arith
pending-append late test ((k, phase) ∷ xs) ys = omega (arith, pending-append late test xs ys)

pending-split :
    (late : Phase → Bool) (test : Who → Bool) (us before after : List (ℤ × Phase)) (k : ℤ)
    (phase : Phase)
    → us ≡ before ++ (k, phase) ∷ after
    → pending late test us
      ≡ pending late test before + (weigh test (some k) (late phase) + pending late test after)
pending-split late test us before after k phase e =
    ap (pending late test) e ∙ pending-append late test before ((k, phase) ∷ after)

pub length-split :
    (us before after : List (ℤ × Phase)) (k : ℤ) (phase : Phase)
    → us ≡ before ++ (k, phase) ∷ after
    → length us ≡ length before + (1 + length after)
length-split us before after k phase e =
    ap length e ∙ length-append before ((k, phase) ∷ after) ∙ omega arith

-- Everybody that was started is in the order of those who have merged, or still to come.
pub record Progress (late : Phase → Bool) (order : List Who) (own : Phase) (us : List (ℤ × Phase))
    (threads : List ℤ) : Type 0 where
  pub all :
      (test : Who → Bool)
      → tally test order + (weigh test none (late own) + pending late test us)
        ≡ tally test (none ∷ others threads)

module _ {late : Phase → Bool} {order : List Who} {own : Phase} {us : List (ℤ × Phase)}
    {threads : List ℤ} (was : Progress late order own us threads) where
  pub added-Progress :
      (k : ℤ) → late tracing ≡ true → Progress late order own ((k, tracing) ∷ us) (k ∷ threads)
  added-Progress k l = record { all = λ test. ground (arith, was.all test, l) }

  pub kept-Progress :
      (before after : List (ℤ × Phase)) (k : ℤ) (phase next : Phase)
      → us ≡ before ++ (k, phase) ∷ after
      → late phase ≡ late next
      → Progress late order own (before ++ (k, next) ∷ after) threads
  kept-Progress before after k phase next e l = record {
    all = λ test. ground (
      arith,
      was.all test,
      l,
      pending-split late test us before after k phase e,
      pending-append late test before ((k, next) ∷ after),
    );
  }

  pub merged-Progress :
      (before after : List (ℤ × Phase)) (k : ℤ) (phase next : Phase)
      → us ≡ before ++ (k, phase) ∷ after
      → late phase ≡ true
      → late next ≡ false
      → Progress late (order ++ some k ∷ []) own (before ++ (k, next) ∷ after) threads
  merged-Progress before after k phase next e l m = record {
    all = λ test. ground (
      arith,
      was.all test,
      l,
      m,
      tally-append test order (some k ∷ []),
      pending-split late test us before after k phase e,
      pending-append late test before ((k, next) ∷ after),
    );
  }

  pub finished-Progress :
      (before after : List (ℤ × Phase)) (k : ℤ) (phase : Phase)
      → us ≡ before ++ (k, phase) ∷ after
      → late phase ≡ false
      → Progress late order own (before ++ after) threads
  finished-Progress before after k phase e l = record {
    all = λ test. ground (
      arith,
      was.all test,
      l,
      pending-split late test us before after k phase e,
      pending-append late test before after,
    );
  }

  pub own_kept-Progress :
      (next : Phase) → late own ≡ late next → Progress late order next us threads
  own_kept-Progress next l = record { all = λ test. ground (arith, was.all test, l) }

  pub own_merged-Progress :
      (next : Phase)
      → late own ≡ true
      → late next ≡ false
      → Progress late (order ++ none ∷ []) next us threads
  own_merged-Progress next l m = record {
    all = λ test. ground (arith, was.all test, l, m, tally-append test order (none ∷ []));
  }

-- The count is that of the threads which have not ended.
pub record IsActive (active : ℕ) (us : List (ℤ × Phase)) (threads : List ℤ) : Type 0 where
  pub same : active ≡ length us % 2 ^ 32
  pub few : length us ≤ length threads

module _ {active : ℕ} {us : List (ℤ × Phase)} {threads : List ℤ} (was : IsActive active us threads)
    (before after : List (ℤ × Phase)) (k : ℤ) (phase : Phase) where
  pub kept-IsActive :
      (next : Phase)
      → us ≡ before ++ (k, phase) ∷ after
      → IsActive active (before ++ (k, next) ∷ after) threads
  kept-IsActive next e =
      let before_it = length-split us before after k phase e in
      let then_it = length-append before ((k, next) ∷ after) in
      record {
        same = omega (arith, was.same, before_it, then_it);
        few = omega (arith, was.few, before_it, then_it);
      }

  pub finished-IsActive :
      us ≡ before ++ (k, phase) ∷ after
      → IsActive ((active + (2 ^ 32 - 1)) % 2 ^ 32) (before ++ after) threads
  finished-IsActive e =
      let before_it = length-split us before after k phase e in
      let then_it = length-append before after in
      record {
        same = omega (arith, was.same, before_it, then_it);
        few = omega (arith, was.few, before_it, then_it);
      }
