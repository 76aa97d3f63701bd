-- ===== src/FdTable/Refused.antt =====
-- Where an operation of src/fd_table.c reads a NULL pointer or overruns its buffer.
use iotrace.Base.{
  ◌<◌, ◌≡◌, ◌≤◌, ◌↔◌, ◌⊎◌, ◌∙◌, refl, Bool, true, false, Option, none, some, List, [], ◌∷◌, arith,
  ℤ, length, inl, inr, sym, ltb, Bool-cases, CString,
}
use mathlib.Core.Path.{subst}
use mathlib.Core.Option
use mathlib.Core.Option.{some-injective}
use iotrace.Glib.{Glib}
use iotrace.FdTable.{filename_buff_size, Entry, FdTable, dup_name}
use iotrace.FdTable.View.{Files, view}
use iotrace.FdTable.Names.{slave_name_lem, slave_name_long}
use iotrace.FdTable.Refinement.{
  Op, inserts, dups, sets_cloexec, removes, removes_cloexec, copies, named, duplicate, flag, spec,
  run, run_spec, run-refines,
}

-- A name that is too long to be copied to the buffer.
abbrev pub IsLong : Bool → Entry → Type 0
IsLong slave e = (slave ≡ true) × (filename_buff_size ≤ length e.filename)

-- The entry of a descriptor is missing that is to be duplicated or changed; or it is to be duplicated
-- as a pseudoterminal's peer, and its name does not fit the buffer.
abbrev pub Refused : Files → Op → Type 0
Refused m (inserts fd name c) = ⊥
Refused m (dups orig fd c slave) =
    (m orig ≡ none) ⊎ ((e : Entry) × (m orig ≡ some e) × IsLong slave e)
Refused m (sets_cloexec fd c) = m fd ≡ none
Refused m (removes fd) = ⊥
Refused m removes_cloexec = ⊥
Refused m copies = ⊥

-- There is an operation, and the first one is refused.
abbrev pub FirstRefused : Files → List Op → Type 0
FirstRefused m [] = ⊥
FirstRefused m (o ∷ os) = Refused m o

dup_name-none : (slave : Bool) (e : Entry) → (dup_name slave e ≡ none) ↔ IsLong slave e
dup_name-none false e = (λ p. absurd cc, λ p. absurd cc)
dup_name-none true e = elim (Bool-cases (ltb (length e.filename) filename_buff_size)) [
  | inl q ↦
      let short : length e.filename < filename_buff_size = ground (arith, q) in
      let (s, found, _, _) = slave_name_lem e.filename short in
      (λ p. absurd cc, λ p. absurd (omega (arith, p.1, short)))
  | inr q ↦
      let long : filename_buff_size ≤ length e.filename = ground (arith, q) in
      (λ p. (refl, long), λ p. slave_name_long e.filename long)
]

named-none :
    (m : Files) (fd : ℤ) (c : Bool) (name : Option CString)
    → (named m fd c name ≡ none) ↔ (name ≡ none)
named-none m fd c none = (λ p. refl, λ p. refl)
named-none m fd c (some name) = (λ p. absurd cc, λ p. absurd cc)

duplicate-none :
    (m : Files) (fd : ℤ) (c slave : Bool) (o : Option Entry)
    → (duplicate m fd c slave o ≡ none)
      ↔ ((o ≡ none) ⊎ ((e : Entry) × (o ≡ some e) × IsLong slave e))
duplicate-none m fd c slave none = (λ p. inl refl, λ p. refl)
duplicate-none m fd c slave (some e) =
    let by_name = named-none m fd c (dup_name slave e) in
    let long = dup_name-none slave e in
    (
      λ p. inr (e, refl, long.0 (by_name.0 p)),
      λ p. elim p [
        | inl q ↦ absurd cc
        | inr (f, q, l) ↦
            let same = some-injective e f q in
            by_name.1
              (long.1 (l.0, subst (λ a. filename_buff_size ≤ length a.filename) (sym same) l.1))
      ],
    )

flag-none : (m : Files) (fd : ℤ) (c : Bool) (o : Option Entry) → (flag m fd c o ≡ none) ↔ (o ≡ none)
flag-none m fd c none = (λ p. refl, λ p. refl)
flag-none m fd c (some e) = (λ p. absurd cc, λ p. absurd cc)

spec-Refused : (m : Files) (o : Op) → (spec m o ≡ none) ↔ Refused m o
spec-Refused m (inserts fd name c) = (λ p. absurd cc, λ p. absurd p)
spec-Refused m (dups orig fd c slave) = duplicate-none m fd c slave (m orig)
spec-Refused m (sets_cloexec fd c) = flag-none m fd c (m fd)
spec-Refused m (removes fd) = (λ p. absurd cc, λ p. absurd p)
spec-Refused m removes_cloexec = (λ p. absurd cc, λ p. absurd p)
spec-Refused m copies = (λ p. absurd cc, λ p. absurd p)

map-none : {A B : Type 0} (f : A → B) (o : Option A) → (Option.map f o ≡ none) ↔ (o ≡ none)
map-none f none = (λ p. refl, λ p. refl)
map-none f (some a) = (λ p. absurd cc, λ p. absurd cc)

run_spec-FirstRefused :
    (m : Files) (os : List Op) → length os ≤ 1 → (run_spec m os ≡ none) ↔ FirstRefused m os
run_spec-FirstRefused m [] h = (λ p. absurd cc, λ p. absurd p)
run_spec-FirstRefused m (o ∷ []) h =
    let iff = spec-Refused m o in (λ p. iff.0 (same (spec m o) p), λ p. rw (run_spec, iff.1 p) refl)
  where
    same : (r : Option Files) → elim r [ none ↦ none | some n ↦ some n ] ≡ none → r ≡ none
    same none p = refl
    same (some n) p = absurd cc
run_spec-FirstRefused m (o ∷ x ∷ os) h = absurd (omega (arith, h))

module _ ⦃g : Glib⦄ where
  -- One operation at most.
  pub run-FirstRefused :
      (t : FdTable) (os : List Op) → length os ≤ 1 → (run t os ≡ none) ↔ FirstRefused (view t) os
  run-FirstRefused t os h =
      let iff = run_spec-FirstRefused (view t) os h in
      let by_view = map-none view (run t os) in
      let refines = run-refines t os in
      (λ p. iff.0 (sym refines ∙ by_view.1 p), λ p. by_view.0 (refines ∙ iff.1 p))
