-- ===== src/Glib/Upsert.antt =====
-- The way in which the program changes an entry of a table: a lookup, an insertion of an initial
-- value where it returned NULL, and a write through the pointer.
use iotrace.Base.{
  ◌≡◌, true, some, arith, if◌then◌else◌, is_some, or_else, inl, inr, Option-cases, sym, ◌∙◌,
}
use iotrace.Glib.{Key, Glib}
use iotrace.Glib.Loop.{assoc-same}

module _ ⦃g : Glib⦄ {κ : Key} {V : Type 0} where
  -- `if (lookup(t, k) == NULL) insert(t, k, v)`.
  abbrev pub ensure : g.Table κ V → κ.Carrier → V → g.Table κ V
  ensure t k v = if is_some (g.lookup t k) then t else g.insert t k v

  pub lookup-same :
      (t : g.Table κ V) (k j : κ.Carrier) → κ.same k j ≡ true → g.lookup t k ≡ g.lookup t j
  lookup-same t k j e =
      sym (g.assoc-entries t k) ∙ assoc-same κ (g.entries t) k j e ∙ g.assoc-entries t j

  lookup-ensure :
      (t : g.Table κ V) (k : κ.Carrier) (v : V) (j : κ.Carrier)
      → g.lookup (ensure t k v) j
        ≡ (if κ.same k j then some (or_else (g.lookup t j) v) else g.lookup t j)
  lookup-ensure t k v j = elim (Option-cases (g.lookup t k)) [
    | inl e ↦ ground (arith, e, g.lookup-insert t k v j, lookup-same t k j)
    | inr (a, e) ↦ ground (arith, e, lookup-same t k j)
  ]

  pub lookup-upsert :
      (t : g.Table κ V) (k : κ.Carrier) (v : V) (f : V → V) (j : κ.Carrier)
      → g.lookup (g.modify (ensure t k v) k f) j
        ≡ (if κ.same k j then some (f (or_else (g.lookup t j) v)) else g.lookup t j)
  lookup-upsert t k v f j =
      ground (arith, g.lookup-modify (ensure t k v) k f j, lookup-ensure t k v j)
