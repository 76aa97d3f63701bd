-- ===== src/Ownership/Freed.antt =====
-- After a record left its table, or went, what is allocated has an owner.
use mathlib.Core.Option.{some-injective}
use iotrace.Base.{
  ℕ, ◌+◌, ◌-◌, ◌<◌, ◌≡◌, refl, false, Option, none, some, arith, ◌==◌, ==_iff, if◌then◌else◌, ℤ,
  eq_ℤ, eq_ℤ_iff, sym, ◌∙◌, ap, inl, inr, Bool-cases,
}
use iotrace.Glib.{Glib}
use iotrace.Glib.Keys.{int_key}
use iotrace.Glib.Count.{count_table-other}
use iotrace.Double.{Double}
use iotrace.FdTable.{FdTable}
use iotrace.Tracer.{Address, ThreadTmps, State}
use iotrace.Tracer.Memory.{update}
use iotrace.Main.Runs.{alone, unshared_state, last_state, left_state}
use iotrace.Ownership.Owners.{Owner, HasOwners, Owner-change}
use iotrace.Ownership.Sound.{uses, users, IsSame, IsSound}

module _ ⦃g : Glib⦄ ⦃d : Double⦄ (s : State) (h : IsSound s) (k : ℤ) (tmps : ThreadTmps)
    (found : g.lookup s.thread_tmps_table k ≡ some tmps) where
  abbrev n : ℕ
  n = users s tmps.share_count

  -- Another record with the same pointers, where the count is of more than one.
  another :
      1 < n
      → (j : ℤ) × (a : ThreadTmps) × (eq_ℤ k j ≡ false)
        × (g.lookup s.thread_tmps_table j ≡ some a)
        × IsSame tmps a
  another many =
      let (j, a, other, e, passes) =
        count_table-other (uses tmps.share_count) s.thread_tmps_table k many in
      let same : tmps.share_count ≡ a.share_count =
        ground (arith, passes, ==_iff a.share_count tmps.share_count) in
      let ag = (h.agreed k j tmps a found e).by_count same in
      (j, a, other, e, record { table = ag.0; count = same; mutex = ag.1 })

  -- A count that was set was there before.
  was_counted :
      (p : Address) (m : ℕ)
      → update s.share_counts tmps.share_count (some (n - 1)) p ≡ some m
      → Owner s (λ a. a.share_count) p
  was_counted p m e = elim (Bool-cases (tmps.share_count == p)) [
    | inl q ↦
        h.owners.count p n
          (ground (arith, q, ==_iff tmps.share_count p, (h.held k tmps found).count))
    | inr q ↦ h.owners.count p m (ground (arith, e, q))
  ]

  -- The record of `k` changes or goes, and another one has the same pointers.
  leave-Owner :
      1 < n
      → (s' : State) (o : Option ThreadTmps) (f : ThreadTmps → Address) (p : Address)
      → ((a : ThreadTmps) → IsSame tmps a → f tmps ≡ f a)
      → ((j : ℤ)
          → g.lookup s'.thread_tmps_table j
            ≡ (if eq_ℤ k j then o else g.lookup s.thread_tmps_table j))
      → Owner s f p
      → Owner s' f p
  leave-Owner many s' o f p same look w =
      let (j, a, other, e, is) = another many in
      Owner-change s s' k o f p look
        (λ b eb q. record {
          tracee = j;
          tmps = a;
          found = ground (arith, look j, other, e);
          points = sym (same a is) ∙ ap f (some-injective tmps b (sym found ∙ eb)) ∙ q;
        })
        w

  pub unshared-HasOwners : (t : FdTable) → 1 < n → HasOwners (unshared_state s k tmps t n)
  unshared-HasOwners t many =
      let s' = unshared_state s k tmps t n in
      let b = alone s k tmps t n tmps in
      let look : (j : ℤ)
          → g.lookup s'.thread_tmps_table j
            ≡ (if eq_ℤ k j then some b else g.lookup s.thread_tmps_table j) =
        λ j. ground (
          arith,
          g.lookup-modify s.thread_tmps_table k (alone s k tmps t n) j,
          eq_ℤ_iff k j,
          found,
        ) in
      let own : g.lookup s'.thread_tmps_table k ≡ some b =
        ground (arith, look k, int_key.same_refl k) in
      record {
        table = λ p t' e. elim (Bool-cases (s.next == p)) [
          | inl q ↦ record {
            tracee = k;
            tmps = b;
            found = own;
            points = ground (arith, q, ==_iff s.next p);
          }
          | inr q ↦
              leave-Owner many s' (some b) (λ a. a.fd_table) p (λ a is. is.table) look
                (h.owners.table p t' (ground (arith, e, q)))
        ];
        count = λ p m e. elim (Bool-cases (s.next + 1 == p)) [
          | inl q ↦ record {
            tracee = k;
            tmps = b;
            found = own;
            points = ground (arith, q, ==_iff (s.next + 1) p);
          }
          | inr q ↦
              leave-Owner many s' (some b) (λ a. a.share_count) p (λ a is. is.count) look
                (was_counted p m (ground (arith, e, q)))
        ];
        mutex = λ p m e. elim (Bool-cases (s.next + 1 + 1 == p)) [
          | inl q ↦ record {
            tracee = k;
            tmps = b;
            found = own;
            points = ground (arith, q, ==_iff (s.next + 1 + 1) p);
          }
          | inr q ↦
              leave-Owner many s' (some b) (λ a. a.fd_mutex) p (λ a is. is.mutex) look
                (elim (Bool-cases (tmps.fd_mutex == p)) [
                  | inl r ↦
                      h.owners.mutex p false
                        (ground (arith, r, ==_iff tmps.fd_mutex p, (h.held k tmps found).mutex))
                  | inr r ↦ h.owners.mutex p m (ground (arith, e, q, r))
                ])
        ];
      }

  pub left-HasOwners : (t : FdTable) → 1 < n → HasOwners (left_state s k tmps t n)
  left-HasOwners t many =
      let s' = left_state s k tmps t n in
      let look = g.lookup-remove s.thread_tmps_table k in
      record {
        table = λ p t' e.
            leave-Owner many s' none (λ a. a.fd_table) p (λ a is. is.table) look
              (h.owners.table p t' e);
        count = λ p m e.
            leave-Owner many s' none (λ a. a.share_count) p (λ a is. is.count) look
              (was_counted p m e);
        mutex = λ p m e.
            leave-Owner many s' none (λ a. a.fd_mutex) p (λ a is. is.mutex) look
              (h.owners.mutex p m e);
      }

  -- The record of `k` goes, and does not point to the address.
  gone-Owner :
      (s' : State) (f : ThreadTmps → Address) (p : Address)
      → s'.thread_tmps_table ≡ g.remove s.thread_tmps_table k
      → (f tmps == p) ≡ false
      → Owner s f p
      → Owner s' f p
  gone-Owner s' f p e apart w =
      Owner-change s s' k none f p (λ j. ground (arith, e, g.lookup-remove s.thread_tmps_table k j))
        (λ a ea q. absurd (
          ground
            (arith, apart, ==_iff (f tmps) p, ap f (some-injective tmps a (sym found ∙ ea)) ∙ q)))
        w

  pub last-HasOwners : (t : FdTable) → HasOwners (last_state s k tmps t n)
  last-HasOwners t =
      let s' = last_state s k tmps t n in
      record {
        table = λ p t' e.
            gone-Owner s' (λ a. a.fd_table) p refl (ground (arith, e))
              (h.owners.table p t' (ground (arith, e)));
        count = λ p m e.
            gone-Owner s' (λ a. a.share_count) p refl (ground (arith, e))
              (h.owners.count p m (ground (arith, e)));
        mutex = λ p m e.
            gone-Owner s' (λ a. a.fd_mutex) p refl (ground (arith, e))
              (h.owners.mutex p m (ground (arith, e)));
      }
