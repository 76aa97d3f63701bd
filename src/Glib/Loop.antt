-- ===== src/Glib/Loop.antt =====
-- The loops over a `GHashTableIter`: a fold over the entries of the table.
use iotrace.Base.{
  ◌≡◌, refl, true, Option, none, some, List, [], ◌∷◌, arith, if◌then◌else◌, foldl, Bool-cases, inl,
  inr,
}
use iotrace.Glib.{Key, assoc, Distinct, Glib}

module _ (κ : Key) {V : Type 0} where
  -- A lookup does not tell equal keys apart.
  pub assoc-same :
      (es : List (κ.Carrier × V)) (k j : κ.Carrier)
      → κ.same k j ≡ true
      → assoc κ es k ≡ assoc κ es j
  unfolding assoc
  assoc-same [] k j e = refl
  assoc-same ((i, v) ∷ es) k j e =
      ground (arith, assoc-same es k j, κ.same_trans k j i, κ.same_comm k i, κ.same_comm j i)

module _ ⦃g : Glib⦄ {κ : Key} {V W : Type 0} where
  -- A loop whose body combines the entry with what the target table holds for its key.
  pub lookup-foldl :
      (step : g.Table κ W → κ.Carrier × V → g.Table κ W) (f : Option W → V → W)
      → ((t : g.Table κ W) (k : κ.Carrier) (v : V) (j : κ.Carrier)
          → g.lookup (step t (k, v)) j
            ≡ (if κ.same k j then some (f (g.lookup t j) v) else g.lookup t j))
      → (es : List (κ.Carrier × V)) → Distinct κ es
      → (t : g.Table κ W) (j : κ.Carrier)
      → g.lookup (foldl step t es) j
        ≡ (elim (assoc κ es j) [ none ↦ g.lookup t j | some v ↦ some (f (g.lookup t j) v) ])
  unfolding foldl assoc
  lookup-foldl step f h [] d t j = refl
  lookup-foldl step f h ((k, v) ∷ es) d t j = elim (Bool-cases (κ.same k j)) [
    | inl e ↦
        ground
          (arith, lookup-foldl step f h es d.1 (step t (k, v)) j, h t k v j, assoc-same κ es k j)
    | inr e ↦ ground (arith, lookup-foldl step f h es d.1 (step t (k, v)) j, h t k v j)
  ]
