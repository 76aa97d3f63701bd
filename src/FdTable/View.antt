-- ===== src/FdTable/View.antt =====
-- What a table of file descriptors stands for: a map from descriptors to entries.
use iotrace.Base.{
  ◌≡◌, refl, Option, none, some, List, [], ◌∷◌, arith, if◌then◌else◌, ℤ, eq_ℤ, foldl,
}
use iotrace.Glib.{Glib, assoc, Distinct}
use iotrace.Glib.Keys.{int_key}
use iotrace.Glib.Loop.{lookup-foldl, assoc-same}
use iotrace.FdTable.{
  Entry, FdTable, insert_intern, remove_step, remove_cloexec, copy_step, deep_copy,
}

abbrev pub Files : Type 0
Files = ℤ → Option Entry

-- An entry that survives `execve`.
abbrev pub kept : Option Entry → Option Entry
kept none = none
kept (some e) = if e.cloexec then none else some e

module _ ⦃g : Glib⦄ where
  abbrev pub view : FdTable → Files
  view t fd = g.lookup t fd

  copy_step-lookup :
      (t : FdTable) (k : ℤ) (v : Entry) (j : ℤ)
      → g.lookup (copy_step t (k, v)) j ≡ (if eq_ℤ k j then some v else g.lookup t j)
  unfolding copy_step insert_intern
  copy_step-lookup t k v j = g.lookup-insert t k v j

  -- A copy of a table holds for each descriptor what the table holds.
  pub deep_copy-view : (t : FdTable) (fd : ℤ) → view (deep_copy t) fd ≡ view t fd
  unfolding deep_copy
  deep_copy-view t fd = ground (
    arith,
    g.assoc-entries t fd,
    g.lookup-new int_key Entry fd,
    lookup-foldl copy_step (λ _ v. v) copy_step-lookup (g.entries t) (g.entries-Distinct t)
        (g.new int_key Entry) fd,
  )

  remove_loop :
      (es : List (ℤ × Entry)) (t : FdTable) (j : ℤ)
      → Distinct int_key es
      → g.lookup (foldl remove_step t es) j ≡ (elim (assoc int_key es j) [
        | none ↦ g.lookup t j
        | some e ↦ if e.cloexec then none else g.lookup t j
      ])
  unfolding foldl remove_step assoc
  remove_loop [] t j d = refl
  remove_loop ((k, e) ∷ es) t j d = ground (
    arith,
    remove_loop es (remove_step t (k, e)) j d.1,
    g.lookup-remove t k j,
    assoc-same int_key es k j,
  )

  -- The entries with the flag are gone, whatever the order of the iteration, and the others stay.
  pub remove_cloexec-view : (t : FdTable) (fd : ℤ) → view (remove_cloexec t) fd ≡ kept (view t fd)
  unfolding remove_cloexec
  remove_cloexec-view t fd =
      ground (arith, remove_loop (g.entries t) t fd (g.entries-Distinct t), g.assoc-entries t fd)
