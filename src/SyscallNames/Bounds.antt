-- ===== src/SyscallNames/Bounds.antt =====
-- For which numbers the array of names has an entry.
use mathlib.Core.Path.{subst}
use iotrace.Base.{
  ℕ, zero, suc, ◌≤◌, ◌≡◌, ◌↔◌, refl, Bool, true, false, ◌&&◌, Option, none, some, List, [], ◌∷◌,
  ◌+◌, arith, ltb, length, ℤ, pos, negsuc, CString,
}
use iotrace.SyscallNames.{names_length, syscall_names, syscall_name}
use iotrace.Base.{get_elem?}

module _ {A : Type 0} where
  pub get_elem?-eq-none_iff : (xs : List A) (i : ℕ) → (get_elem? xs i ≡ none) ↔ (length xs ≤ i)
  get_elem?-eq-none_iff [] i = ground arith
  get_elem?-eq-none_iff (x ∷ xs) zero = ground arith
  get_elem?-eq-none_iff (x ∷ xs) (suc i) = ground (arith, get_elem?-eq-none_iff xs i)

  -- A test of each element and its index.
  abbrev pub all_from : (ℕ → A → Bool) → ℕ → List A → Bool
  all_from p k [] = true
  all_from p k (x ∷ xs) = p k x && all_from p (suc k) xs

  all_from-get_elem? :
      (p : ℕ → A → Bool) (k : ℕ) (xs : List A) (i : ℕ) (x : A)
      → all_from p k xs ≡ true
      → get_elem? xs i ≡ some x
      → p (k + i) x ≡ true
  all_from-get_elem? p k [] i x h e = ground (arith, e)
  all_from-get_elem? p k (y ∷ xs) zero x h e = ground (arith, h, e)
  all_from-get_elem? p k (y ∷ xs) (suc i) x h e =
      ground (arith, h, all_from-get_elem? p (suc k) xs i x, e)

module _ {A : Type 0} (p : ℕ → A → Bool) (xs : List A) (h : all_from p 0 xs ≡ true) where
  -- What is tested of all elements.
  pub all-get_elem? : (i : ℕ) (x : A) → get_elem? xs i ≡ some x → p i x ≡ true
  all-get_elem? i x e =
      let here : 0 + i ≡ i = omega arith in
      subst (λ j. p j x ≡ true) here (all_from-get_elem? p 0 xs i x h e)

length-syscall_names : length syscall_names ≡ names_length
unfolding syscall_names
length-syscall_names = refl

-- The numbers 0 to 546.
abbrev pub is_named : ℤ → Bool
is_named (pos n) = ltb n names_length
is_named (negsuc n) = false

named_iff :
    (n m : ℕ) (o : Option CString)
    → (o ≡ none) ↔ (m ≤ n)
    → m ≡ names_length
    → (o ≡ none) ↔ (ltb n names_length ≡ false)
named_iff n m o h e = ground (arith, h.0, h.1)

-- A read of the array of names is out of its bounds exactly for the numbers other than 0 to 546.
pub syscall_name-eq-none_iff : (sc : ℤ) → (syscall_name sc ≡ none) ↔ (is_named sc ≡ false)
unfolding syscall_name
syscall_name-eq-none_iff (pos n) =
    named_iff n (length syscall_names) (get_elem? syscall_names n)
      (get_elem?-eq-none_iff syscall_names n) length-syscall_names
syscall_name-eq-none_iff (negsuc n) = ground arith
