-- ===== src/Double.antt =====
-- The type `double`, of which the program uses conversions, quotients and the order.
use iotrace.Base.{ℕ, suc, ◌≡◌, Bool, true, false, ◌⊎◌, arith, if◌then◌else◌, ℤ, pos}

-- The laws are those of IEEE 754: an order on the values other than NaN, which compares with
-- nothing; and a positive number divided by one that is not negative is a number, or infinite.
pub record Double : Type 1 where
  pub Carrier : Type 0
  pub of_ull : ℕ → Carrier
  pub of_ssize : ℤ → Carrier
  pub divide : Carrier → Carrier → Carrier
  pub less : Carrier → Carrier → Bool
  pub is_nan : Carrier → Bool
  pub less_irrefl : (a : Carrier) → less a a ≡ false
  pub less_trans : (a b c : Carrier) → less a b ≡ true → less b c ≡ true → less a c ≡ true
  pub less_split :
      (a b c : Carrier) → is_nan b ≡ false → less a c ≡ true → (less a b ≡ true) ⊎ (less b c ≡ true)
  pub of_ull_number : (n : ℕ) → is_nan (of_ull n) ≡ false
  pub quotient_number :
      (n t : ℕ)
      → is_nan (divide (of_ssize (pos (suc n))) (divide (of_ull t) (of_ull 1000000000))) ≡ false

module _ ⦃d : Double⦄ where
  -- `if (a > b) a = b`, and `if (a < b) a = b`.
  abbrev pub lower : d.Carrier → d.Carrier → d.Carrier
  lower a b = if d.less b a then b else a

  abbrev pub higher : d.Carrier → d.Carrier → d.Carrier
  higher a b = if d.less a b then b else a

  abbrev pub IsNumber : d.Carrier → Type 0
  IsNumber a = d.is_nan a ≡ false

  pub lower_assoc :
      (a b c : d.Carrier)
      → IsNumber a
      → IsNumber b
      → IsNumber c
      → lower (lower a b) c ≡ lower a (lower b c)
  lower_assoc a b c ha hb hc =
      ground (arith, d.less_split c b a hb, d.less_trans c b a, d.less_split b c a hc)

  pub higher_assoc :
      (a b c : d.Carrier)
      → IsNumber a
      → IsNumber b
      → IsNumber c
      → higher (higher a b) c ≡ higher a (higher b c)
  higher_assoc a b c ha hb hc =
      ground (arith, d.less_split a b c hb, d.less_trans a b c, d.less_split a c b hc)

  pub lower-IsNumber : (a b : d.Carrier) → IsNumber a → IsNumber b → IsNumber (lower a b)
  lower-IsNumber a b ha hb = ground arith

  pub higher-IsNumber : (a b : d.Carrier) → IsNumber a → IsNumber b → IsNumber (higher a b)
  higher-IsNumber a b ha hb = ground arith

  -- A minimum stands below what was taken into it, and never rises; a maximum never falls.
  pub lower-le : (a b : d.Carrier) → d.less b (lower a b) ≡ false
  lower-le a b = ground (arith, d.less_irrefl b)

  pub lower-falls : (x a b : d.Carrier) → d.less x a ≡ false → d.less x (lower a b) ≡ false
  lower-falls x a b h = ground (arith, d.less_trans x b a)

  pub higher-ge : (a b : d.Carrier) → d.less (higher a b) b ≡ false
  higher-ge a b = ground (arith, d.less_irrefl b)

  pub higher-grows : (x a b : d.Carrier) → d.less a x ≡ false → d.less (higher a b) x ≡ false
  higher-grows x a b h = ground (arith, d.less_trans a b x)
