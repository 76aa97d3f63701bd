-- ===== src/Ownership/Owned.antt =====
-- After every change that the tracer makes to the records, what is allocated has an owner.
use mathlib.Core.Option.{some-injective}
use iotrace.Base.{
  ℕ, ◌+◌, ◌≡◌, refl, false, none, some, arith, ◌==◌, ==_iff, if◌then◌else◌, ℤ, eq_ℤ, sym, ◌∙◌, ap,
  inl, inr, Bool-cases,
}
use iotrace.Glib.{Glib}
use iotrace.Glib.Keys.{int_key}
use iotrace.Double.{Double}
use iotrace.FdTable.{FdTable}
use iotrace.Tracer.{Address, ThreadTmps, State}
use iotrace.Tracer.Memory.{update}
use iotrace.Main.Runs.{joined, alone, joined_state, copied_state}
use iotrace.Ownership.Owners.{Owner, HasOwners, Owner-change}
use iotrace.Ownership.Sound.{users, IsSame, IsSound}

module _ ⦃g : Glib⦄ ⦃d : Double⦄ (s : State) (h : IsSound s) (k : ℤ) (tmps : ThreadTmps)
    (found : g.lookup s.thread_tmps_table k ≡ some tmps) where
  abbrev n : ℕ
  n = users s tmps.share_count

  -- The same table of records, with the record of `k` replaced.
  abbrev Sets : State → ThreadTmps → Type 0
  Sets s' b =
      (j : ℤ)
      → g.lookup s'.thread_tmps_table j
        ≡ (if eq_ℤ k j then some b else g.lookup s.thread_tmps_table j)

  set-Owner :
      (s' : State) (b : ThreadTmps) (f : ThreadTmps → Address) (p : Address)
      → Sets s' b
      → f tmps ≡ f b
      → Owner s f p
      → Owner s' f p
  set-Owner s' b f p look same w =
      Owner-change s s' k (some b) f p look
        (λ a e q. record {
          tracee = k;
          tmps = b;
          found = ground (arith, look k, int_key.same_refl k);
          points = sym same ∙ ap f (some-injective tmps a (sym found ∙ e)) ∙ q;
        })
        w

  pub kept-HasOwners :
      (s' : State) (b : ThreadTmps) (t : FdTable)
      → IsSame tmps b
      → Sets s' b
      → s'.fd_tables ≡ update s.fd_tables tmps.fd_table (some t)
      → s'.mutexes ≡ s.mutexes
      → s'.share_counts ≡ s.share_counts
      → HasOwners s'
  kept-HasOwners s' b t same look ef em ec = record {
    table = λ p t' e.
        set-Owner s' b (λ a. a.fd_table) p look same.table
          (elim (Bool-cases (tmps.fd_table == p)) [
            | inl q ↦
                h.owners.table p (h.held k tmps found).files
                  (ground (arith, q, ==_iff tmps.fd_table p, (h.held k tmps found).table))
            | inr q ↦ h.owners.table p t' (ground (arith, e, ef, q))
          ]);
    count = λ p n e.
        set-Owner s' b (λ a. a.share_count) p look same.count
          (h.owners.count p n (ground (arith, e, ec)));
    mutex = λ p b' e.
        set-Owner s' b (λ a. a.fd_mutex) p look same.mutex
          (h.owners.mutex p b' (ground (arith, e, em)));
  }

  -- A record is added.
  add-Owner :
      (s' : State) (child : ℤ) (b : ThreadTmps) (f : ThreadTmps → Address) (p : Address)
      → g.lookup s.thread_tmps_table child ≡ none
      → s'.thread_tmps_table ≡ g.insert s.thread_tmps_table child b
      → Owner s f p
      → Owner s' f p
  add-Owner s' child b f p new e w =
      Owner-change s s' child (some b) f p
        (λ j. ground (arith, e, g.lookup-insert s.thread_tmps_table child b j)) (λ a e q. cc) w

  added :
      (s' : State) (child : ℤ) (b : ThreadTmps) (f : ThreadTmps → Address) (p : Address)
      → s'.thread_tmps_table ≡ g.insert s.thread_tmps_table child b
      → f b ≡ p
      → Owner s' f p
  added s' child b f p e q = record {
    tracee = child;
    tmps = b;
    found =
        ground
          (arith, e, g.lookup-insert s.thread_tmps_table child b child, int_key.same_refl child);
    points = q;
  }

  pub joined-HasOwners :
      (t : FdTable) (raw : ThreadTmps) (child : ℤ)
      → g.lookup s.thread_tmps_table child ≡ none
      → HasOwners (joined_state s k tmps t n raw child)
  joined-HasOwners t raw child new =
      let s' = joined_state s k tmps t n raw child in
      let b = joined s k tmps t n raw in
      record {
        table = λ p t' e. add-Owner s' child b (λ a. a.fd_table) p new refl (h.owners.table p t' e);
        count = λ p m e. elim (Bool-cases (tmps.share_count == p)) [
          | inl q ↦
              added s' child b (λ a. a.share_count) p refl
                (ground (arith, q, ==_iff tmps.share_count p))
          | inr q ↦
              add-Owner s' child b (λ a. a.share_count) p new refl
                (h.owners.count p m (ground (arith, e, q)))
        ];
        mutex = λ p m e. add-Owner s' child b (λ a. a.fd_mutex) p new refl (h.owners.mutex p m e);
      }

  pub copied-HasOwners :
      (t : FdTable) (raw : ThreadTmps) (child : ℤ)
      → g.lookup s.thread_tmps_table child ≡ none
      → HasOwners (copied_state s k tmps t n raw child)
  copied-HasOwners t raw child new =
      let s' = copied_state s k tmps t n raw child in
      let b = alone s k tmps t n raw in
      record {
        table = λ p t' e. elim (Bool-cases (s.next == p)) [
          | inl q ↦ added s' child b (λ a. a.fd_table) p refl (ground (arith, q, ==_iff s.next p))
          | inr q ↦
              add-Owner s' child b (λ a. a.fd_table) p new refl
                (h.owners.table p t' (ground (arith, e, q)))
        ];
        count = λ p m e. elim (Bool-cases (s.next + 1 == p)) [
          | inl q ↦
              added s' child b (λ a. a.share_count) p refl
                (ground (arith, q, ==_iff (s.next + 1) p))
          | inr q ↦
              add-Owner s' child b (λ a. a.share_count) p new refl
                (h.owners.count p m (ground (arith, e, q)))
        ];
        mutex = λ p m e. elim (Bool-cases (s.next + 1 + 1 == p)) [
          | inl q ↦
              added s' child b (λ a. a.fd_mutex) p refl
                (ground (arith, q, ==_iff (s.next + 1 + 1) p))
          | inr q ↦
              add-Owner s' child b (λ a. a.fd_mutex) p new refl
                (elim (Bool-cases (tmps.fd_mutex == p)) [
                  | inl r ↦
                      h.owners.mutex p false
                        (ground (arith, r, ==_iff tmps.fd_mutex p, (h.held k tmps found).mutex))
                  | inr r ↦ h.owners.mutex p m (ground (arith, e, q, r))
                ])
        ];
      }
