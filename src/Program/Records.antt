-- ===== src/Program/Records.antt =====
-- What the beginning and the end of a thread in src/main.c make of the records of all.
use mathlib.Core.Path.{subst}
use iotrace.Base.{
  ℕ, ◌<◌, ◌≡◌, refl, Bool, true, false, none, some, arith, ltb, ==_iff, if◌then◌else◌, ℤ, eq_ℤ, inl,
  inr, Bool-cases,
}
use iotrace.Glib.{Glib}
use iotrace.Glib.Count.{count_table-one}
use iotrace.Double.{Double}
use iotrace.FdTable.{FdTable}
use iotrace.Tracer.{ThreadTmps, State, ok, and_then}
use iotrace.Tracer.Temporaries.{thread_tmps_remove}
use iotrace.Main.Threads.{shares_files, threads_add, thread_begin}
use iotrace.Main.Runs.{
  IsShared, alone, joined, joined_state, copied_state, last_state, left_state, begins-joined,
  begins-copied,
}
use iotrace.Ownership.Sound.{uses, users, IsSound, IsSound-IsShared}
use iotrace.Program.Runs.{recorded}

module _ ⦃g : Glib⦄ ⦃d : Double⦄ where
  -- The records after one was made, or removed.
  abbrev pub Made : State → ℤ → State → Type 0
  Made s k u = (i : ℤ) → recorded u i ≡ (if eq_ℤ k i then true else recorded s i)

  abbrev pub Gone : State → ℤ → State → Type 0
  Gone s k u = (i : ℤ) → recorded u i ≡ (if eq_ℤ k i then false else recorded s i)

module _ ⦃g : Glib⦄ ⦃d : Double⦄ (s u : State) (h : IsSound s) (tracee : ℤ) (tmps : ThreadTmps)
    (found : g.lookup s.thread_tmps_table tracee ≡ some tmps) where
  pub begin-Made :
      (raw : ThreadTmps) (child flags : ℤ)
      → g.lookup s.thread_tmps_table child ≡ none
      → and_then (threads_add child tracee flags s) (thread_begin raw) ≡ ok tt u
      → Made s child u
  begin-Made raw child flags new e i =
      let (t, is) = IsSound-IsShared s tracee tmps h found in
      let n = users s tmps.share_count in
      elim (Bool-cases (shares_files flags)) [
        | inl f ↦
            let runs = begins-joined s tracee tmps t n is raw child flags f new in
            let same : joined_state s tracee tmps t n raw child ≡ u = cc in
            subst (λ v. recorded v i ≡ (if eq_ℤ child i then true else recorded s i)) same
              (ground
                (arith, g.lookup-insert s.thread_tmps_table child (joined s tracee tmps t n raw) i))
        | inr f ↦
            let runs = begins-copied s tracee tmps t n is raw child flags f new in
            let same : copied_state s tracee tmps t n raw child ≡ u = cc in
            subst (λ v. recorded v i ≡ (if eq_ℤ child i then true else recorded s i)) same
              (ground
                (arith, g.lookup-insert s.thread_tmps_table child (alone s tracee tmps t n raw) i))
      ]

  pub remove-last :
      (t : FdTable) (n : ℕ)
      → IsShared s tracee tmps t n
      → n ≡ 1
      → thread_tmps_remove tracee s ≡ ok true (last_state s tracee tmps t n)
  unfolding thread_tmps_remove
  remove-last t n is one = ground (arith, is.found, is.table, is.mutex, is.count)

  pub remove-left :
      (t : FdTable) (n : ℕ)
      → IsShared s tracee tmps t n
      → 1 < n
      → thread_tmps_remove tracee s ≡ ok true (left_state s tracee tmps t n)
  unfolding thread_tmps_remove
  remove-left t n is more = ground (arith, is.found, is.table, is.mutex, is.count)

  -- The removal ends well.
  pub remove-runs : (v : State) × (thread_tmps_remove tracee s ≡ ok true v)
  remove-runs =
      let (t, is) = IsSound-IsShared s tracee tmps h found in
      let n = users s tmps.share_count in
      let some_user =
        count_table-one (uses tmps.share_count) s.thread_tmps_table tracee tmps found
          ((==_iff tmps.share_count tmps.share_count).1 refl) in
      elim (Bool-cases (ltb 1 n)) [
        | inl more ↦ (_, remove-left t n is (ground (arith, more)))
        | inr few ↦ (_, remove-last t n is (ground (arith, few, some_user)))
      ]

  pub remove-Gone : (b : Bool) → thread_tmps_remove tracee s ≡ ok b u → Gone s tracee u
  remove-Gone b e i =
      let (t, is) = IsSound-IsShared s tracee tmps h found in
      let n = users s tmps.share_count in
      let some_user =
        count_table-one (uses tmps.share_count) s.thread_tmps_table tracee tmps found
          ((==_iff tmps.share_count tmps.share_count).1 refl) in
      elim (Bool-cases (ltb 1 n)) [
        | inl more ↦
            let runs = remove-left t n is (ground (arith, more)) in
            let same : left_state s tracee tmps t n ≡ u = cc in
            subst (λ v. recorded v i ≡ (if eq_ℤ tracee i then false else recorded s i)) same
              (ground (arith, g.lookup-remove s.thread_tmps_table tracee i))
        | inr few ↦
            let runs = remove-last t n is (ground (arith, few, some_user)) in
            let same : last_state s tracee tmps t n ≡ u = cc in
            subst (λ v. recorded v i ≡ (if eq_ℤ tracee i then false else recorded s i)) same
              (ground (arith, g.lookup-remove s.thread_tmps_table tracee i))
      ]
