-- ===== src/Glib/Lists.antt =====
-- Hash tables as association lists: the interface of GLib's tables can be met.
use iotrace.Base.{◌≡◌, refl, none, some, List, [], ◌∷◌, arith, if◌then◌else◌}
use mathlib.Core.Option
use iotrace.Glib.{Key, assoc, Distinct, Glib}

module _ (κ : Key) {V : Type 0} where
  abbrev pub change : List (κ.Carrier × V) → κ.Carrier → (V → V) → List (κ.Carrier × V)
  change [] k f = []
  change ((i, v) ∷ es) k f = (i, (if κ.same k i then f v else v)) ∷ change es k f

  abbrev pub drop_key : List (κ.Carrier × V) → κ.Carrier → List (κ.Carrier × V)
  drop_key [] k = []
  drop_key ((i, v) ∷ es) k = let rest = drop_key es k in if κ.same k i then rest else (i, v) ∷ rest

  abbrev pub first_entries : List (κ.Carrier × V) → List (κ.Carrier × V)
  first_entries [] = []
  first_entries ((i, v) ∷ es) = (i, v) ∷ drop_key (first_entries es) i

  pub assoc-change :
      (es : List (κ.Carrier × V)) (k : κ.Carrier) (f : V → V) (j : κ.Carrier)
      → assoc κ (change es k f) j
        ≡ (if κ.same k j then Option.map f (assoc κ es j) else assoc κ es j)
  unfolding assoc
  assoc-change [] k f j = ground arith
  assoc-change ((i, v) ∷ es) k f j =
      ground (arith, assoc-change es k f j, κ.same_trans i j k, κ.same_comm k i, κ.same_comm k j)

  pub assoc-drop_key :
      (es : List (κ.Carrier × V)) (k j : κ.Carrier)
      → assoc κ (drop_key es k) j ≡ (if κ.same k j then none else assoc κ es j)
  unfolding assoc
  assoc-drop_key [] k j = ground arith
  assoc-drop_key ((i, v) ∷ es) k j =
      ground (arith, assoc-drop_key es k j, κ.same_trans i j k, κ.same_comm k i, κ.same_comm k j)

  pub assoc-first_entries :
      (es : List (κ.Carrier × V)) (j : κ.Carrier) → assoc κ (first_entries es) j ≡ assoc κ es j
  unfolding assoc
  assoc-first_entries [] j = refl
  assoc-first_entries ((i, v) ∷ es) j =
      ground (arith, assoc-first_entries es j, assoc-drop_key (first_entries es) i j)

  pub drop_key-Distinct :
      (es : List (κ.Carrier × V)) (k : κ.Carrier) → Distinct κ es → Distinct κ (drop_key es k)
  drop_key-Distinct [] k d = tt
  drop_key-Distinct ((i, v) ∷ es) k d =
      ground (arith, drop_key-Distinct es k d.1, assoc-drop_key es k i)

  pub first_entries-Distinct : (es : List (κ.Carrier × V)) → Distinct κ (first_entries es)
  first_entries-Distinct [] = tt
  first_entries-Distinct ((i, v) ∷ es) = (
    ground (arith, assoc-drop_key (first_entries es) i i, κ.same_refl i),
    drop_key-Distinct (first_entries es) i (first_entries-Distinct es),
  )

pub assoc-cons :
    (κ : Key) {V : Type 0} (t : List (κ.Carrier × V)) (k : κ.Carrier) (v : V) (j : κ.Carrier)
    → assoc κ ((k, v) ∷ t) j ≡ (if κ.same k j then some v else assoc κ t j)
unfolding assoc
assoc-cons κ t k v j = refl

pub assoc-nil : (κ : Key) (V : Type 0) (j : κ.Carrier) → assoc κ {V = V} [] j ≡ none
unfolding assoc
assoc-nil κ V j = refl

instance abbrev pub list_glib : Glib
list_glib = record {
  Table = λ κ V. List (κ.Carrier × V);
  new = λ κ V. [];
  lookup = λ {κ} t k. assoc κ t k;
  insert = λ t k v. (k, v) ∷ t;
  modify = λ {κ} t k f. change κ t k f;
  remove = λ {κ} t k. drop_key κ t k;
  entries = λ {κ} t. first_entries κ t;
  lookup-new = assoc-nil;
  lookup-insert = λ {κ} t. assoc-cons κ t;
  lookup-modify = λ {κ} t. assoc-change κ t;
  lookup-remove = λ {κ} t. assoc-drop_key κ t;
  assoc-entries = λ {κ} t. assoc-first_entries κ t;
  entries-Distinct = λ {κ} t. first_entries-Distinct κ t;
}
