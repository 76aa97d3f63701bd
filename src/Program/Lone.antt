-- ===== src/Program/Lone.antt =====
-- The moves of the descriptors where a tracee ends, or makes an execve with a table that nobody shares.
use iotrace.Base.{
  ◌≡◌, ℕ, ◌≤◌, refl, sym, ap, ◌∙◌, arith, true, false, ◌==◌, ==_iff, Option, none, some,
  if◌then◌else◌, ℤ, eq_ℤ, eq_ℤ_iff, inl, inr, Bool-cases, Option-cases,
}
use mathlib.Core.Option
use iotrace.Glib.{Glib}
use iotrace.Double.{Double}
use iotrace.FdTable.{FdTable, deep_copy, remove_cloexec}
use iotrace.FdTable.View.{view, deep_copy-view, remove_cloexec-view}
use iotrace.Tracer.{Address, ThreadTmps, State}
use iotrace.Tracer.Memory.{update}
use iotrace.Main.Runs.{taking, taken_state, cleaned_state, last_state, left_state}
use iotrace.Ownership.Sound.{IsSound, users}
use iotrace.Ownership.Ended.{apart}
use iotrace.Program.Descriptors.{
  nothing, works, execs, joins, copies, ends, parent_of, Descriptors, Moves, held_by, files_at,
  same_table, descriptors,
}
use iotrace.Program.Descriptors
use iotrace.Program.Tables.{k_held, k_files, older, fresh-shares}

same_table-apart :
    (x : Address) (o : Option Address)
    → ((p : Address) → o ≡ some p → (x == p) ≡ false)
    → (same_table (some x) o ≡ false) × (same_table o (some x) ≡ false)
same_table-apart x none h = (refl, refl)
same_table-apart x (some p) h = (h p refl, ground (arith, h p refl))

same_table-none : (o : Option Address) → same_table o none ≡ false
same_table-none none = refl
same_table-none (some p) = refl

module _ ⦃g : Glib⦄ ⦃d : Double⦄ (s : State) (h : IsSound s) (k : ℤ) (tmps : ThreadTmps)
    (found : g.lookup s.thread_tmps_table k ≡ some tmps) (t : FdTable)
    (table : s.fd_tables tmps.fd_table ≡ some t) where
  -- The table of a tracee that is alone with it is nobody else's.
  apart_held :
      users s tmps.share_count ≤ 1
      → (j : ℤ) → eq_ℤ k j ≡ false
      → (p : Address) → held_by s j ≡ some p
      → (tmps.fd_table == p) ≡ false
  apart_held few j other p e = elim (Option-cases (g.lookup s.thread_tmps_table j)) [
    | inl n ↦ absurd (ground (arith, n, e))
    | inr (a, n) ↦
        let ag = h.agreed k j tmps a found n in
        ground (
          arith,
          n,
          e,
          apart s h k tmps found few j a other n,
          ag.by_table,
          ==_iff tmps.fd_table p,
          ==_iff tmps.share_count a.share_count,
        )
  ]

  own_held : (i : ℤ) → eq_ℤ k i ≡ true → held_by s i ≡ some tmps.fd_table
  own_held i e = sym (ap (held_by s) ((eq_ℤ_iff k i).0 e)) ∙ k_held s k tmps t found table

  -- After the test of the count all others have left, and it takes a table of its own.
  pub taken-Moves :
      users s tmps.share_count ≤ 1
      → (n : ℕ) → Moves (descriptors s) (descriptors (taken_state s k tmps t n)) (execs k)
  taken-Moves few n =
      let u = taken_state s k tmps t n in
      let own = remove_cloexec (deep_copy t) in
      let now : (i : ℤ) → held_by u i ≡ (if eq_ℤ k i then some s.next else held_by s i) = λ i.
        ground (
          arith,
          g.lookup-modify s.thread_tmps_table k (taking s k tmps t n) i,
          found,
          eq_ℤ_iff k i,
        ) in
      Descriptors.Moves.exec k (view t) (k_files s k tmps t found table)
        (λ i fd. elim (Bool-cases (eq_ℤ k i)) [
          | inl e ↦
              rw (now i, e)
                (ground (arith, remove_cloexec-view (deep_copy t) fd, deep_copy-view t fd))
          | inr e ↦ elim (Option-cases (held_by s i)) [
            | inl o ↦ rw (now i, e, o) refl
            | inr (p, o) ↦
                rw (now i, e, o) (ground (arith, apart_held few i e p o, older s h i p o))
          ]
        ])
        (fresh-shares s h (record u { fd_tables = update s.fd_tables s.next (some own) }) k own now
          (λ p. refl))

  pub cleaned-Moves :
      (n : ℕ)
      → users s tmps.share_count ≤ 1
      → Moves (descriptors s) (descriptors (cleaned_state s k tmps t n)) (execs k)
  cleaned-Moves n few =
      Descriptors.Moves.exec k (view t) (k_files s k tmps t found table)
        (λ i fd. elim (Bool-cases (eq_ℤ k i)) [
          | inl e ↦ rw (own_held i e, e) (ground (arith, remove_cloexec-view t fd))
          | inr e ↦ elim (Option-cases (held_by s i)) [
            | inl o ↦ rw (o, e) refl
            | inr (p, o) ↦ rw (o, e) (ground (arith, apart_held few i e p o))
          ]
        ])
        (λ i j. elim (Bool-cases (eq_ℤ k i)) [
          | inl e ↦ elim (Bool-cases (eq_ℤ k j)) [
            | inl f ↦
                rw (own_held i e, own_held j f, e)
                  (ground (
                    arith,
                    e,
                    f,
                    eq_ℤ_iff k i,
                    eq_ℤ_iff k j,
                    eq_ℤ_iff i j,
                    ==_iff tmps.fd_table tmps.fd_table,
                  ))
            | inr f ↦
                rw (own_held i e, e)
                  ((same_table-apart tmps.fd_table (held_by s j) (apart_held few j f)).0
                    ∙ ground (arith, e, f, eq_ℤ_iff k i, eq_ℤ_iff k j, eq_ℤ_iff i j))
          ]
          | inr e ↦ elim (Bool-cases (eq_ℤ k j)) [
            | inl f ↦
                rw (own_held j f, e, f)
                  ((same_table-apart tmps.fd_table (held_by s i) (apart_held few i e)).1
                    ∙ ground (arith, e, f, eq_ℤ_iff k i, eq_ℤ_iff k j, eq_ℤ_iff i j))
            | inr f ↦ rw (e, f) refl
          ]
        ])

  ended-Moves :
      (u : State)
      → ((i : ℤ) → held_by u i ≡ (if eq_ℤ k i then none else held_by s i))
      → ((i : ℤ)
          → eq_ℤ k i ≡ false
          → (p : Address) → held_by s i ≡ some p
          → u.fd_tables p ≡ s.fd_tables p)
      → Moves (descriptors s) (descriptors u) (ends k)
  ended-Moves u now tables =
      Descriptors.Moves.end_of k
        (λ i. elim (Bool-cases (eq_ℤ k i)) [
          | inl e ↦ rw (now i, e) refl
          | inr e ↦ elim (Option-cases (held_by s i)) [
            | inl o ↦ rw (now i, e, o) refl
            | inr (p, o) ↦ rw (now i, e, o) (ap (Option.map view) (tables i e p o))
          ]
        ])
        (λ i j. elim (Bool-cases (eq_ℤ k i)) [
          | inl e ↦ rw (now i, e) refl
          | inr e ↦ elim (Bool-cases (eq_ℤ k j)) [
            | inl f ↦ rw (now i, now j, e, f) (same_table-none (held_by s i))
            | inr f ↦ rw (now i, now j, e, f) refl
          ]
        ])

  pub last-Moves :
      (n : ℕ)
      → users s tmps.share_count ≤ 1
      → Moves (descriptors s) (descriptors (last_state s k tmps t n)) (ends k)
  last-Moves n few =
      ended-Moves (last_state s k tmps t n)
        (λ i. ground (arith, g.lookup-remove s.thread_tmps_table k i))
        (λ i e p o. ground (arith, apart_held few i e p o))

  pub left-Moves : (n : ℕ) → Moves (descriptors s) (descriptors (left_state s k tmps t n)) (ends k)
  left-Moves n =
      ended-Moves (left_state s k tmps t n)
        (λ i. ground (arith, g.lookup-remove s.thread_tmps_table k i)) (λ i e p o. refl)
