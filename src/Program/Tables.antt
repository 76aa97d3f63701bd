-- ===== src/Program/Tables.antt =====
-- The states that the functions of src/main.c and src/syscall_handler.c lead to, as moves of the
-- descriptors.
use iotrace.Base.{
  ◌≡◌, ℕ, ◌<◌, refl, sym, ap, ◌∙◌, arith, false, ◌||◌, Option, none, some, List, if◌then◌else◌, ℤ,
  eq_ℤ, eq_ℤ_iff, inl, inr, Bool-cases, Option-cases,
}
use mathlib.Core.Option
use iotrace.Glib.{Glib}
use iotrace.Double.{Double}
use iotrace.FdTable.{FdTable, deep_copy, remove_cloexec}
use iotrace.FdTable.View.{view, kept, deep_copy-view, remove_cloexec-view}
use iotrace.FdTable.Refinement.{Op, run, run-refines}
use iotrace.Tracer.{Address, ThreadTmps, State}
use iotrace.Tracer.Memory.{update}
use iotrace.Main.Runs.{IsShared, joined, alone, joined_state, copied_state, unshared_state}
use iotrace.Ownership.Sound.{IsSound}
use iotrace.Program.Descriptors.{
  nothing, works, execs, joins, copies, ends, parent_of, Descriptors, Moves, held_by, files_at,
  same_table, descriptors,
}
use iotrace.Program.Descriptors

module _ ⦃g : Glib⦄ ⦃d : Double⦄ (s : State) (k : ℤ) (tmps : ThreadTmps) (t : FdTable)
    (found : g.lookup s.thread_tmps_table k ≡ some tmps)
    (table : s.fd_tables tmps.fd_table ≡ some t) where
  pub k_held : held_by s k ≡ some tmps.fd_table
  k_held = rw (held_by, found) refl

  pub k_files : (descriptors s).files k ≡ some (view t)
  k_files = ground (arith, k_held, table)

  pub works-Moves :
      (u : State) (t' : FdTable) (ops : List Op)
      → run t ops ≡ some t'
      → ((p : Address) → u.fd_tables p ≡ update s.fd_tables tmps.fd_table (some t') p)
      → ((i : ℤ) → held_by u i ≡ held_by s i)
      → Moves (descriptors s) (descriptors u) (works k ops)
  works-Moves u t' ops e tables same =
      Descriptors.Moves.work k (view t) (view t') ops k_files
        (sym (run-refines t ops) ∙ ap (Option.map view) e)
        (λ i. elim (Option-cases (held_by s i)) [
          | inl n ↦ rw (same i, n, k_held) refl
          | inr (p, n) ↦ rw (same i, n, k_held) (ground (arith, tables p))
        ])
        (λ i j. rw (same i, same j) refl)

same_table-fresh :
    (x : Address) (o : Option Address)
    → ((p : Address) → o ≡ some p → p < x)
    → same_table (some x) o ≡ false
same_table-fresh x none h = refl
same_table-fresh x (some p) h = ground (arith, h p refl)

same_table-older :
    (x : Address) (o : Option Address)
    → ((p : Address) → o ≡ some p → p < x)
    → same_table o (some x) ≡ false
same_table-older x none h = refl
same_table-older x (some p) h = ground (arith, h p refl)

module _ ⦃g : Glib⦄ ⦃d : Double⦄ (s : State) (h : IsSound s) where
  -- What a tracee has is older than what comes next.
  pub older : (i : ℤ) (p : Address) → held_by s i ≡ some p → p < s.next
  older i p e = elim (Option-cases (g.lookup s.thread_tmps_table i)) [
    | inl n ↦ absurd (ground (arith, n, e))
    | inr (a, n) ↦ ground (arith, (h.held i a n).old_table, n, e)
  ]

  -- Only the tracee `k` has a new table.
  module _ (u : State) (k : ℤ) (t' : FdTable)
      (now : (i : ℤ) → held_by u i ≡ (if eq_ℤ k i then some s.next else held_by s i))
      (tables : (p : Address) → u.fd_tables p ≡ update s.fd_tables s.next (some t') p) where
    fresh-files :
        (i : ℤ)
        → (descriptors u).files i ≡ (if eq_ℤ k i then some (view t') else (descriptors s).files i)
    fresh-files i = elim (Bool-cases (eq_ℤ k i)) [
      | inl e ↦ rw (now i, e) (ground (arith, tables s.next))
      | inr e ↦ elim (Option-cases (held_by s i)) [
        | inl n ↦ rw (now i, e, n) refl
        | inr (p, n) ↦ rw (now i, e, n) (ground (arith, tables p, older i p n))
      ]
    ]

    pub fresh-shares :
        (i j : ℤ)
        → (descriptors u).shares i j
          ≡ (if eq_ℤ k i || eq_ℤ k j then eq_ℤ i j else (descriptors s).shares i j)
    fresh-shares i j = elim (Bool-cases (eq_ℤ k i)) [
      | inl e ↦ elim (Bool-cases (eq_ℤ k j)) [
        | inl f ↦
            rw (now i, now j, e, f) (ground (arith, e, f, eq_ℤ_iff k i, eq_ℤ_iff k j, eq_ℤ_iff i j))
        | inr f ↦
            rw (now i, now j, e, f)
              (same_table-fresh s.next (held_by s j) (older j)
                ∙ ground (arith, e, f, eq_ℤ_iff k i, eq_ℤ_iff k j, eq_ℤ_iff i j))
      ]
      | inr e ↦ elim (Bool-cases (eq_ℤ k j)) [
        | inl f ↦
            rw (now i, now j, e, f)
              (same_table-older s.next (held_by s i) (older i)
                ∙ ground (arith, e, f, eq_ℤ_iff k i, eq_ℤ_iff k j, eq_ℤ_iff i j))
        | inr f ↦ rw (now i, now j, e, f) refl
      ]
    ]

module _ ⦃g : Glib⦄ ⦃d : Double⦄ (s : State) (h : IsSound s) (k : ℤ) (tmps : ThreadTmps)
    (t : FdTable) (n : ℕ) (is : IsShared s k tmps t n) where
  -- The moves of one tracee.
  nothing_held : (child : ℤ) → g.lookup s.thread_tmps_table child ≡ none → held_by s child ≡ none
  nothing_held child new = rw (held_by, new) refl

  pub joined-Moves :
      (raw : ThreadTmps) (child : ℤ)
      → g.lookup s.thread_tmps_table child ≡ none
      → Moves (descriptors s) (descriptors (joined_state s k tmps t n raw child)) (joins k child)
  joined-Moves raw child new =
      let u = joined_state s k tmps t n raw child in
      let now : (i : ℤ) → held_by u i ≡ held_by s (parent_of child k i) = λ i.
        ground (
          arith,
          g.lookup-insert s.thread_tmps_table child (joined s k tmps t n raw) i,
          is.found,
        ) in
      Descriptors.Moves.join k child (view t) (k_files s k tmps t is.found is.table)
        (ground (arith, nothing_held child new)) (λ i. rw (now i) refl)
        (λ i j. rw (now i, now j) refl)

  pub copied-Moves :
      (raw : ThreadTmps) (child : ℤ)
      → g.lookup s.thread_tmps_table child ≡ none
      → Moves (descriptors s) (descriptors (copied_state s k tmps t n raw child)) (copies k child)
  copied-Moves raw child new =
      let u = copied_state s k tmps t n raw child in
      let now : (i : ℤ) → held_by u i ≡ (if eq_ℤ child i then some s.next else held_by s i) =
        λ i. ground (arith, g.lookup-insert s.thread_tmps_table child (alone s k tmps t n raw) i) in
      let mine = k_files s k tmps t is.found is.table in
      Descriptors.Moves.copy k child (view t) mine (ground (arith, nothing_held child new))
        (λ i fd. elim (Bool-cases (eq_ℤ child i)) [
          | inl e ↦
              ap (Option.map (λ m. m fd)) (fresh-files s h u child (deep_copy t) now (λ p. refl) i)
              ∙ rw (e, mine) (ap some (deep_copy-view t fd))
          | inr e ↦
              ap (Option.map (λ m. m fd)) (fresh-files s h u child (deep_copy t) now (λ p. refl) i)
              ∙ rw e refl
        ])
        (fresh-shares s h u child (deep_copy t) now (λ p. refl))

  kept-copy : (fd : ℤ) → view (remove_cloexec (deep_copy t)) fd ≡ kept (view t fd)
  kept-copy fd = remove_cloexec-view (deep_copy t) fd ∙ ap kept (deep_copy-view t fd)

  pub unshared-Moves : Moves (descriptors s) (descriptors (unshared_state s k tmps t n)) (execs k)
  unshared-Moves =
      let u = unshared_state s k tmps t n in
      let own = remove_cloexec (deep_copy t) in
      let now : (i : ℤ) → held_by u i ≡ (if eq_ℤ k i then some s.next else held_by s i) = λ i.
        ground (
          arith,
          g.lookup-modify s.thread_tmps_table k (alone s k tmps t n) i,
          is.found,
          eq_ℤ_iff k i,
        ) in
      let tables : (p : Address) → u.fd_tables p ≡ update s.fd_tables s.next (some own) p =
        λ p. ground arith in
      Descriptors.Moves.exec k (view t) (k_files s k tmps t is.found is.table)
        (λ i fd. elim (Bool-cases (eq_ℤ k i)) [
          | inl e ↦
              ap (Option.map (λ m. m fd)) (fresh-files s h u k own now tables i)
              ∙ rw e (ap some (kept-copy fd))
          | inr e ↦ ap (Option.map (λ m. m fd)) (fresh-files s h u k own now tables i) ∙ rw e refl
        ])
        (fresh-shares s h u k own now tables)

pub stays-Moves :
    ⦃g : Glib⦄ ⦃d : Double⦄ (s u : State)
    → ((p : Address) → u.fd_tables p ≡ s.fd_tables p)
    → ((i : ℤ) → held_by u i ≡ held_by s i)
    → Moves (descriptors s) (descriptors u) nothing
stays-Moves s u tables now =
    Descriptors.Moves.stay
      (λ i. elim (Option-cases (held_by s i)) [
        | inl o ↦ rw (now i, o) refl
        | inr (p, o) ↦ rw (now i, o) (ap (Option.map view) (tables p))
      ])
      (λ i j. rw (now i, now j) refl)
