-- ===== src/Glib.antt =====
-- What the program uses of GLib's hash tables.
pub mod Loop
pub mod Lists
pub mod Upsert
pub mod Keys
pub mod Count
use iotrace.Base.{◌≡◌, Bool, true, false, Option, none, some, List, [], ◌∷◌, arith, if◌then◌else◌}
use mathlib.Core.Option

-- A type of keys with the equality test that a table is created with.
pub record Key : Type 1 where
  pub Carrier : Type 0
  pub same : Carrier → Carrier → Bool
  pub same_refl : (a : Carrier) → same a a ≡ true
  pub same_comm : (a b : Carrier) → same a b ≡ same b a
  pub same_trans : (a b c : Carrier) → same a b ≡ true → same b c ≡ same a c

-- The first value in a list of pairs whose key passes the test.
unfoldable pub assoc : (κ : Key) {V : Type 0} → List (κ.Carrier × V) → κ.Carrier → Option V
assoc κ [] j = none
assoc κ ((k, v) ∷ es) j = if κ.same k j then some v else assoc κ es j

-- No two pairs have the same key.
abbrev pub Distinct : (κ : Key) {V : Type 0} → List (κ.Carrier × V) → Type 0
Distinct κ [] = Unit
Distinct κ ((k, v) ∷ es) = (assoc κ es k ≡ none) × Distinct κ es

pub record Glib : Type 1 where
  pub Table : Key → Type 0 → Type 0
  pub new : (κ : Key) (V : Type 0) → Table κ V
  pub lookup : {κ : Key} {V : Type 0} → Table κ V → κ.Carrier → Option V
  pub insert : {κ : Key} {V : Type 0} → Table κ V → κ.Carrier → V → Table κ V
  pub modify : {κ : Key} {V : Type 0} → Table κ V → κ.Carrier → (V → V) → Table κ V
  pub remove : {κ : Key} {V : Type 0} → Table κ V → κ.Carrier → Table κ V
  pub entries : {κ : Key} {V : Type 0} → Table κ V → List (κ.Carrier × V)
  pub lookup-new : (κ : Key) (V : Type 0) (j : κ.Carrier) → lookup (new κ V) j ≡ none
  pub lookup-insert :
      {κ : Key} {V : Type 0} (t : Table κ V) (k : κ.Carrier) (v : V) (j : κ.Carrier)
      → lookup (insert t k v) j ≡ (if κ.same k j then some v else lookup t j)
  pub lookup-modify :
      {κ : Key} {V : Type 0} (t : Table κ V) (k : κ.Carrier) (f : V → V) (j : κ.Carrier)
      → lookup (modify t k f) j ≡ (if κ.same k j then Option.map f (lookup t j) else lookup t j)
  pub lookup-remove :
      {κ : Key} {V : Type 0} (t : Table κ V) (k j : κ.Carrier)
      → lookup (remove t k) j ≡ (if κ.same k j then none else lookup t j)
  pub assoc-entries :
      {κ : Key} {V : Type 0} (t : Table κ V) (j : κ.Carrier) → assoc κ (entries t) j ≡ lookup t j
  pub entries-Distinct : {κ : Key} {V : Type 0} (t : Table κ V) → Distinct κ (entries t)
