-- ===== src/Ownership/Late.antt =====
-- The return of execve in src/syscall_handler.c after its test of the count, where other threads may have
-- left the table since then.
use mathlib.Core.Option.{some-injective}
use iotrace.Base.{
  ℕ, ◌≤◌, ◌≡◌, refl, true, ltb, some, arith, ◌==◌, ==_iff, if◌then◌else◌, ℤ, eq_ℤ, eq_ℤ_iff, inl,
  inr, Bool-cases, ap, sym, ◌∙◌,
}
use iotrace.Glib.{Glib}
use iotrace.Glib.Keys.{int_key}
use iotrace.Glib.Count.{count-change, count_table-one}
use iotrace.Double.{Double}
use iotrace.FdTable
use iotrace.FdTable.{FdTable}
use iotrace.Tracer.{Address, ThreadTmps, State}
use iotrace.SyscallHandler.Unconsidered.{after_test}
use iotrace.Main.Runs.{taking, taken_state, late-unshared, late-taken}
use iotrace.Ownership.Owners.{Owner, HasOwners, Owner-change}
use iotrace.Ownership.Sound.{uses, users, IsHeld, IsSound, IsSound-IsShared, set-IsSound}
use iotrace.Ownership.Preserved.{unshared-IsSound}
use iotrace.Ownership.Ended.{apart}
use iotrace.Ownership.Actions.{GoesOn}

module _ ⦃g : Glib⦄ ⦃d : Double⦄ (s : State) (h : IsSound s) (k : ℤ) (tmps : ThreadTmps)
    (found : g.lookup s.thread_tmps_table k ≡ some tmps) where
  abbrev n : ℕ
  n = users s tmps.share_count

  abbrev mine : IsHeld s tmps
  mine = h.held k tmps found

  abbrev after : FdTable → State
  after t = taken_state s k tmps t n

  abbrev now : FdTable → ThreadTmps
  now t = taking s k tmps t n tmps

  taken-look :
      (t : FdTable) (j : ℤ)
      → g.lookup (after t).thread_tmps_table j
        ≡ (if eq_ℤ k j then some (now t) else g.lookup s.thread_tmps_table j)
  taken-look t j =
      ground
        (arith, g.lookup-modify s.thread_tmps_table k (taking s k tmps t n) j, eq_ℤ_iff k j, found)

  -- What another address was owned by, it still is, if the record did not own it.
  taken-Owner :
      (t : FdTable) (f : ThreadTmps → Address) (p : Address)
      → ((f tmps ≡ p) → f (now t) ≡ p)
      → Owner s f p
      → Owner (after t) f p
  taken-Owner t f p same w =
      Owner-change s (after t) k (some (now t)) f p (taken-look t)
        (λ a ea q.
          let own : g.lookup (after t).thread_tmps_table k ≡ some (now t) =
            ground (arith, taken-look t k, int_key.same_refl k) in
          record {
            tracee = k;
            tmps = now t;
            found = own;
            points = same (ap f (some-injective tmps a (sym found ∙ ea)) ∙ q);
          })
        w

  taken-HasOwners : (t : FdTable) → HasOwners (after t)
  taken-HasOwners t =
      let own : g.lookup (after t).thread_tmps_table k ≡ some (now t) =
        ground (arith, taken-look t k, int_key.same_refl k) in
      record {
        table = λ p t' e. elim (Bool-cases (s.next == p)) [
          | inl q ↦ record {
            tracee = k;
            tmps = now t;
            found = own;
            points = ground (arith, q, ==_iff s.next p);
          }
          | inr q ↦
              taken-Owner t (λ a. a.fd_table) p
                (λ r. absurd (ground (arith, e, q, r, ==_iff tmps.fd_table p)))
                (h.owners.table p t' (ground (arith, e, q)))
        ];
        count = λ p m e. elim (Bool-cases (tmps.share_count == p)) [
          | inl q ↦ record {
            tracee = k;
            tmps = now t;
            found = own;
            points = ground (arith, q, ==_iff tmps.share_count p);
          }
          | inr q ↦
              taken-Owner t (λ a. a.share_count) p (λ r. r)
                (h.owners.count p m (ground (arith, e, q)))
        ];
        mutex = λ p m e. elim (Bool-cases (tmps.fd_mutex == p)) [
          | inl q ↦ record {
            tracee = k;
            tmps = now t;
            found = own;
            points = ground (arith, q, ==_iff tmps.fd_mutex p);
          }
          | inr q ↦
              taken-Owner t (λ a. a.fd_mutex) p (λ r. r) (h.owners.mutex p m (ground (arith, e, q)))
        ];
      }

  taken-IsSound : (t : FdTable) → n ≡ 1 → IsSound (after t)
  taken-IsSound t one =
      let s' = after t in
      let counted = λ (c : Address).
        count-change (uses c) s.thread_tmps_table s'.thread_tmps_table k (some (now t))
          (taken-look t) in
      let few : n ≤ 1 = omega (arith, one) in
      set-IsSound s s' k (now t) h (taken-HasOwners t) (taken-look t)
        (λ j a other e.
          let ha = h.held j a e in
          let ag = h.agreed k j tmps a found e in
          let no_share = apart s h k tmps found few j a other e in
          record {
            files = ha.files;
            table = ground (
              arith,
              ha.table,
              ha.old_table,
              no_share,
              ag.by_table,
              ==_iff tmps.fd_table a.fd_table,
              ==_iff tmps.share_count a.share_count,
            );
            mutex = ground (arith, ha.mutex);
            count = ground (arith, ha.count, no_share, counted a.share_count, found);
            old_table = omega (arith, ha.old_table);
            old_mutex = omega (arith, ha.old_mutex);
            old_count = omega (arith, ha.old_count);
          })
        (record {
          files = FdTable.remove_cloexec (FdTable.deep_copy t);
          table = ground arith;
          mutex = ground arith;
          count = ground (arith, one, counted tmps.share_count, found);
          old_table = omega arith;
          old_mutex = omega (arith, mine.old_mutex);
          old_count = omega (arith, mine.old_count);
        })
        (λ j a other e.
          let ha = h.held j a e in
          let ag = h.agreed k j tmps a found e in
          let no_share = apart s h k tmps found few j a other e in
          record {
            by_count =
                λ q. absurd (ground (arith, q, no_share, ==_iff tmps.share_count a.share_count));
            by_table = λ q. absurd (omega (arith, q, ha.old_table));
            by_mutex = ag.by_mutex;
          })

  pub late-GoesOn : GoesOn (after_test k true s)
  late-GoesOn =
      let (t, is) = IsSound-IsShared s k tmps h found in
      let some_user =
        count_table-one (uses tmps.share_count) s.thread_tmps_table k tmps found
          ((==_iff tmps.share_count tmps.share_count).1 refl) in
      elim (Bool-cases (ltb 1 n)) [
        | inl more ↦ (
          _,
          late-unshared s k tmps t n is (ground (arith, more)),
          unshared-IsSound s h k tmps found t (ground (arith, more)),
        )
        | inr few ↦
            let one : n ≡ 1 = ground (arith, few, some_user) in
            (_, late-taken s k tmps t n is one, taken-IsSound t one)
      ]
