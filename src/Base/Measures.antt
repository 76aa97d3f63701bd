-- ===== src/Base/Measures.antt =====
-- The total of a weight over a list, and lists that agree on the total of every weight: they hold the
-- same elements, each as often.
use Prim.Native.Nat.{ℕ, ◌+◌}
use mathlib.Core.Path.{◌≡◌, refl}
use mathlib.Core.Bool.{Bool}
use iotrace.Base.Tests.{if◌then◌else◌}
use mathlib.Core.List.{List, [], ◌∷◌, ◌++◌}
use native.Mathlib.Omega.{arith}
use iotrace.Base.Lists.{length}

abbrev pub one_if : Bool → ℕ
one_if b = if b then 1 else 0

module _ {ℓ} {A : Type ℓ} where
  abbrev pub total : (A → ℕ) → List A → ℕ
  total w [] = 0
  total w (x ∷ xs) = w x + total w xs

  pub total-append : (w : A → ℕ) (xs ys : List A) → total w (xs ++ ys) ≡ total w xs + total w ys
  total-append w [] ys = omega arith
  total-append w (x ∷ xs) ys = omega (arith, total-append w xs ys)

  abbrev pub Same : List A → List A → Type ℓ
  Same xs ys = (w : A → ℕ) → total w xs ≡ total w ys

  pub length-total : (xs : List A) → length xs ≡ total (λ x. 1) xs
  length-total [] = refl
  length-total (x ∷ xs) = omega (arith, length-total xs)

  -- Nothing is the same as no list but the empty one.
  pub Same-nil : (xs : List A) → Same [] xs → xs ≡ []
  Same-nil [] h = refl
  Same-nil (x ∷ xs) h = absurd (omega (arith, h (λ y. 1)))
