-- ===== src/Glib/Count.antt =====
-- How many entries of a table pass a test: what one change of the table does to that number.
use iotrace.Base.{
  ℕ, ◌+◌, ◌≤◌, ◌≡◌, refl, Bool, true, false, Option, none, some, List, [], ◌∷◌, arith,
  if◌then◌else◌, sym, ◌∙◌, Bool-cases, inl, inr,
}
use iotrace.Glib.{Key, assoc, Distinct, Glib}
use iotrace.Glib.Lists.{drop_key, assoc-drop_key, drop_key-Distinct}
use iotrace.Glib.Loop.{assoc-same}

module _ {V : Type 0} (p : V → Bool) where
  -- What one value, or none, adds.
  abbrev pub weigh : Option V → ℕ
  weigh none = 0
  weigh (some v) = if p v then 1 else 0

  abbrev pub count : {K : Type 0} → List (K × V) → ℕ
  count [] = 0
  count ((k, v) ∷ es) = weigh (some v) + count es

  count-drop_key :
      (κ : Key) (es : List (κ.Carrier × V)) (k : κ.Carrier)
      → Distinct κ es
      → count es ≡ count (drop_key κ es k) + weigh (assoc κ es k)
  unfolding assoc
  count-drop_key κ [] k h = refl
  count-drop_key κ ((i, v) ∷ es) k h =
      ground (arith, count-drop_key κ es k h.1, κ.same_comm k i, assoc-same κ es i k)

  count-same :
      (κ : Key) (es fs : List (κ.Carrier × V))
      → Distinct κ es
      → Distinct κ fs
      → ((j : κ.Carrier) → assoc κ es j ≡ assoc κ fs j)
      → count es ≡ count fs
  unfolding assoc
  count-same κ [] [] h h' same = refl
  count-same κ [] ((k, v) ∷ fs) h h' same = ground (arith, same k, κ.same_refl k)
  count-same κ ((k, v) ∷ es) fs h h' same =
      let less =
        count-same κ es (drop_key κ fs k) h.1 (drop_key-Distinct κ fs k h')
          (λ j. ground (arith, same j, assoc-drop_key κ fs k j, assoc-same κ es k j, h.0)) in
      ground (arith, less, count-drop_key κ fs k h', same k, κ.same_refl k)

module _ ⦃g : Glib⦄ {κ : Key} {V : Type 0} (p : V → Bool) where
  abbrev pub count_table : g.Table κ V → ℕ
  count_table t = count p (g.entries t)

  -- A table `u` that holds `o` for a key, and else what `t` holds.
  pub count-change :
      (t u : g.Table κ V) (k : κ.Carrier) (o : Option V)
      → ((j : κ.Carrier) → g.lookup u j ≡ (if κ.same k j then o else g.lookup t j))
      → count_table u + weigh p (g.lookup t k) ≡ count_table t + weigh p o
  count-change t u k o h =
      let rest =
        count-same p κ (drop_key κ (g.entries t) k) (drop_key κ (g.entries u) k)
          (drop_key-Distinct κ (g.entries t) k (g.entries-Distinct t))
          (drop_key-Distinct κ (g.entries u) k (g.entries-Distinct u))
          (λ j. ground (
            arith,
            assoc-drop_key κ (g.entries t) k j,
            assoc-drop_key κ (g.entries u) k j,
            g.assoc-entries t j,
            g.assoc-entries u j,
            h j,
          )) in
      ground (
        arith,
        rest,
        count-drop_key p κ (g.entries t) k (g.entries-Distinct t),
        count-drop_key p κ (g.entries u) k (g.entries-Distinct u),
        g.assoc-entries t k,
        g.assoc-entries u k,
        h k,
        κ.same_refl k,
      )

module _ {V : Type 0} (p : V → Bool) (κ : Key) where
  count-none :
      (es : List (κ.Carrier × V))
      → Distinct κ es
      → ((j : κ.Carrier) (v : V) → assoc κ es j ≡ some v → p v ≡ false)
      → count p es ≡ 0
  unfolding assoc
  count-none [] h none_pass = refl
  count-none ((k, v) ∷ es) h none_pass =
      let rest =
        count-none es h.1 (λ j w e. none_pass j w (ground (arith, e, h.0, assoc-same κ es k j))) in
      ground (arith, rest, none_pass k v, κ.same_refl k)

module _ ⦃g : Glib⦄ {κ : Key} {V : Type 0} (p : V → Bool) where
  -- No value passes.
  pub count_table-none :
      (t : g.Table κ V)
      → ((j : κ.Carrier) (v : V) → g.lookup t j ≡ some v → p v ≡ false)
      → count_table p t ≡ 0
  count_table-none t none_pass =
      count-none p κ (g.entries t) (g.entries-Distinct t)
        (λ j v e. none_pass j v (sym (g.assoc-entries t j) ∙ e))

  -- The values of two keys pass.
  pub count_table-two :
      (t : g.Table κ V) (k j : κ.Carrier) (v w : V)
      → κ.same k j ≡ false
      → g.lookup t k ≡ some v
      → g.lookup t j ≡ some w
      → p v ≡ true
      → p w ≡ true
      → 2 ≤ count_table p t
  count_table-two t k j v w other e f pv pw = ground (
    arith,
    count-drop_key p κ (g.entries t) k (g.entries-Distinct t),
    count-drop_key p κ (drop_key κ (g.entries t) k) j
        (drop_key-Distinct κ (g.entries t) k (g.entries-Distinct t)),
    g.assoc-entries t k,
    g.assoc-entries t j,
    assoc-drop_key κ (g.entries t) k j,
  )

  pub count_table-one :
      (t : g.Table κ V) (k : κ.Carrier) (v : V)
      → g.lookup t k ≡ some v
      → p v ≡ true
      → 1 ≤ count_table p t
  count_table-one t k v e pv =
      ground (arith, count-drop_key p κ (g.entries t) k (g.entries-Distinct t), g.assoc-entries t k)

module _ {V : Type 0} (p : V → Bool) (κ : Key) where
  -- A key whose value passes.
  abbrev Passes : List (κ.Carrier × V) → Type 0
  Passes es = (j : κ.Carrier) × (w : V) × (assoc κ es j ≡ some w) × (p w ≡ true)

  count-Passes : (es : List (κ.Carrier × V)) → Distinct κ es → 1 ≤ count p es → Passes es
  unfolding assoc
  count-Passes [] h few = absurd (omega arith)
  count-Passes ((k, v) ∷ es) h few = elim (Bool-cases (p v)) [
    | inl e ↦ (k, v, ground (arith, κ.same_refl k), e)
    | inr e ↦
        let (j, w, found, passes) = count-Passes es h.1 (ground (arith, e, few)) in
        (j, w, ground (arith, found, h.0, assoc-same κ es k j), passes)
  ]

module _ ⦃g : Glib⦄ {κ : Key} {V : Type 0} (p : V → Bool) where
  -- Two values pass, so that one of another key does.
  pub count_table-other :
      (t : g.Table κ V) (k : κ.Carrier)
      → 2 ≤ count_table p t
      → (j : κ.Carrier) × (w : V) × (κ.same k j ≡ false) × (g.lookup t j ≡ some w) × (p w ≡ true)
  count_table-other t k many =
      let es = g.entries t in
      let (j, w, found, passes) =
        count-Passes p κ (drop_key κ es k) (drop_key-Distinct κ es k (g.entries-Distinct t))
          (ground (arith, many, count-drop_key p κ es k (g.entries-Distinct t))) in
      (
        j,
        w,
        ground (arith, found, assoc-drop_key κ es k j),
        ground (arith, found, assoc-drop_key κ es k j, g.assoc-entries t j),
        passes,
      )
