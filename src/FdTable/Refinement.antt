-- ===== src/FdTable/Refinement.antt =====
-- Histories of operations on a table of file descriptors, against maps from descriptors to entries.
use iotrace.Base.{
  ◌≡◌, refl, fun_ext, Bool, Option, none, some, List, [], ◌∷◌, arith, if◌then◌else◌, ℤ, eq_ℤ,
  eq_ℤ_iff, CString, inl, inr, Option-cases, ◌∙◌, ap, sym,
}
use mathlib.Core.Option
use iotrace.Glib.{Glib}
use iotrace.FdTable.{
  Entry, FdTable, dup_name, insert_intern, insert, insert_dup, set_cloexec, remove, remove_cloexec,
  deep_copy,
}
use iotrace.FdTable.View.{Files, view, kept, deep_copy-view, remove_cloexec-view}

pub data Op : Type 0 where
  inserts : ℤ → CString → Bool → Op
  dups : ℤ → ℤ → Bool → Bool → Op
  sets_cloexec : ℤ → Bool → Op
  removes : ℤ → Op
  removes_cloexec : Op
  copies : Op

-- The operations on maps, for what the tables promise.
abbrev pub put : Files → ℤ → Option Entry → Files
put m fd e j = if eq_ℤ fd j then e else m j

abbrev pub entry : CString → Bool → Entry
entry name c = record { filename = name; cloexec = c }

abbrev pub named : Files → ℤ → Bool → Option CString → Option Files
named m fd c none = none
named m fd c (some name) = some (put m fd (some (entry name c)))

abbrev pub duplicate : Files → ℤ → Bool → Bool → Option Entry → Option Files
duplicate m fd c slave none = none
duplicate m fd c slave (some e) = named m fd c (dup_name slave e)

abbrev pub flag : Files → ℤ → Bool → Option Entry → Option Files
flag m fd c none = none
flag m fd c (some e) = some (put m fd (some (entry e.filename c)))

abbrev pub spec : Files → Op → Option Files
spec m (inserts fd name c) = some (put m fd (some (entry name c)))
spec m (dups orig fd c slave) = duplicate m fd c slave (m orig)
spec m (sets_cloexec fd c) = flag m fd c (m fd)
spec m (removes fd) = some (put m fd none)
spec m removes_cloexec = some (λ fd. kept (m fd))
spec m copies = some m

module _ ⦃g : Glib⦄ where
  pub apply : FdTable → Op → Option FdTable
  apply t (inserts fd name c) = some (insert t fd name c)
  apply t (dups orig fd c slave) = insert_dup t orig fd c slave
  apply t (sets_cloexec fd c) = set_cloexec t fd c
  apply t (removes fd) = some (remove t fd).1
  apply t removes_cloexec = some (remove_cloexec t)
  apply t copies = some (deep_copy t)

  pub view-insert :
      (t : FdTable) (fd : ℤ) (name : CString) (c : Bool)
      → view (insert_intern t fd name c) ≡ put (view t) fd (some (entry name c))
  unfolding insert_intern
  view-insert t fd name c = fun_ext λ j. g.lookup-insert t fd (entry name c) j

  view-remove : (t : FdTable) (fd : ℤ) → view (remove t fd).1 ≡ put (view t) fd none
  unfolding remove
  view-remove t fd = fun_ext λ j. g.lookup-remove t fd j

  view-modify :
      (t : FdTable) (fd : ℤ) (a : Entry) (c : Bool)
      → g.lookup t fd ≡ some a
      → view (g.modify t fd (λ entry. record entry { cloexec = c }))
        ≡ put (view t) fd (some (entry a.filename c))
  view-modify t fd a c e = fun_ext λ j.
      ground (arith, g.lookup-modify t fd (λ entry. record entry { cloexec = c }) j, eq_ℤ_iff fd j)

  named-refines :
      (t : FdTable) (fd : ℤ) (c : Bool) (name : Option CString)
      → Option.map view (Option.map (λ s. insert_intern t fd s c) name) ≡ named (view t) fd c name
  named-refines t fd c none = refl
  named-refines t fd c (some name) = ap some (view-insert t fd name c)

  pub dup-refines :
      (t : FdTable) (orig fd : ℤ) (c slave : Bool)
      → Option.map view (insert_dup t orig fd c slave) ≡ duplicate (view t) fd c slave (view t orig)
  unfolding insert_dup
  dup-refines t orig fd c slave = elim (Option-cases (g.lookup t orig)) [
    | inl e ↦ rw (e, insert_dup)
    | inr (a, e) ↦ rw (e, insert_dup) (named-refines t fd c (dup_name slave a))
  ]

  flag-refines :
      (t : FdTable) (fd : ℤ) (c : Bool)
      → Option.map view (set_cloexec t fd c) ≡ flag (view t) fd c (view t fd)
  unfolding set_cloexec
  flag-refines t fd c = elim (Option-cases (g.lookup t fd)) [
    | inl e ↦ rw (e, set_cloexec)
    | inr (a, e) ↦ rw (e, set_cloexec) (ap some (view-modify t fd a c e))
  ]

  apply-refines : (t : FdTable) (o : Op) → Option.map view (apply t o) ≡ spec (view t) o
  unfolding apply insert
  apply-refines t (inserts fd name c) = ap some (view-insert t fd name c)
  apply-refines t (dups orig fd c slave) = dup-refines t orig fd c slave
  apply-refines t (sets_cloexec fd c) = flag-refines t fd c
  apply-refines t (removes fd) = ap some (view-remove t fd)
  apply-refines t removes_cloexec = ap some (fun_ext (remove_cloexec-view t))
  apply-refines t copies = ap some (fun_ext (deep_copy-view t))

  -- A history of operations ends in the table that the last one leaves, or in the first fault.
  unfoldable pub run : FdTable → List Op → Option FdTable
  unfolding apply
  run t [] = some t
  run t (o ∷ os) = elim (apply t o) [ none ↦ none | some t' ↦ run t' os ]

abbrev pub run_spec : Files → List Op → Option Files
run_spec m [] = some m
run_spec m (o ∷ os) = elim (spec m o) [ none ↦ none | some m' ↦ run_spec m' os ]

module _ ⦃g : Glib⦄ where
  -- Whatever the operations, the table of src/fd_table.c stands for the map that they build, and it
  -- faults where they do.
  pub run-refines : (t : FdTable) (os : List Op) → Option.map view (run t os) ≡ run_spec (view t) os
  unfolding run
  run-refines t [] = refl
  run-refines t (o ∷ os) = elim (Option-cases (apply t o)) [
    | inl e ↦ rw (e, run) (rw (sym (apply-refines t o) ∙ ap (Option.map view) e, run_spec))
    | inr (t', e) ↦
        rw (e, run)
          (rw (sym (apply-refines t o) ∙ ap (Option.map view) e, run_spec) (run-refines t' os))
  ]
