-- ===== src/Ownership/Preserved.antt =====
-- Every change that the tracer makes to the records keeps the invariant of Ownership/Sound.antt.
use iotrace.Base.{
  ℕ, ◌+◌, ◌≤◌, ◌<◌, ◌≡◌, refl, none, some, arith, ◌==◌, ==_iff, if◌then◌else◌, ℤ, eq_ℤ, eq_ℤ_iff,
}
use iotrace.Glib.{Glib}
use iotrace.Glib.Count.{count-change, count_table-none}
use iotrace.Double.{Double}
use iotrace.FdTable
use iotrace.FdTable.{FdTable}
use iotrace.Tracer.{Address, ThreadTmps, State}
use iotrace.Tracer.Memory.{update}
use iotrace.Main.Runs.{joined, alone, joined_state, copied_state, unshared_state}
use iotrace.Ownership.Owned.{kept-HasOwners, joined-HasOwners, copied-HasOwners}
use iotrace.Ownership.Freed.{unshared-HasOwners}
use iotrace.Ownership.Sound.{
  uses, users, IsAgreed, IsSame, same-IsAgreed, IsHeld, IsSound, set-IsSound,
}

module _ ⦃g : Glib⦄ ⦃d : Double⦄ (s : State) (h : IsSound s) (k : ℤ) (tmps : ThreadTmps)
    (found : g.lookup s.thread_tmps_table k ≡ some tmps) where
  abbrev n : ℕ
  n = users s tmps.share_count

  abbrev mine : IsHeld s tmps
  mine = h.held k tmps found

  -- The record changes, but not its pointers, and its table does.
  pub kept-IsSound :
      (s' : State) (tmps' : ThreadTmps) (t : FdTable)
      → IsSame tmps tmps'
      → ((j : ℤ)
          → g.lookup s'.thread_tmps_table j
            ≡ (if eq_ℤ k j then some tmps' else g.lookup s.thread_tmps_table j))
      → s'.next ≡ s.next
      → s'.fd_tables ≡ update s.fd_tables tmps.fd_table (some t)
      → s'.mutexes ≡ s.mutexes
      → s'.share_counts ≡ s.share_counts
      → IsSound s'
  kept-IsSound s' tmps' t same look en ef mm cc' =
      let counted = λ (c : Address).
        count-change (uses c) s.thread_tmps_table s'.thread_tmps_table k (some tmps') look in
      set-IsSound s s' k tmps' h (kept-HasOwners s h k tmps found s' tmps' t same look ef mm cc')
        look
        (λ j a other e.
          let ha = h.held j a e in
          record {
            files = if tmps.fd_table == a.fd_table then t else ha.files;
            table = ground (arith, ef, ha.table);
            mutex = ground (arith, mm, ha.mutex);
            count = ground (arith, cc', ha.count, counted a.share_count, found, same.count);
            old_table = ground (arith, en, ha.old_table);
            old_mutex = ground (arith, en, ha.old_mutex);
            old_count = ground (arith, en, ha.old_count);
          })
        (record {
          files = t;
          table = ground (arith, ef, same.table);
          mutex = ground (arith, mm, same.mutex, mine.mutex);
          count = ground (arith, cc', mine.count, counted tmps.share_count, found, same.count);
          old_table = ground (arith, en, same.table, mine.old_table);
          old_mutex = ground (arith, en, same.mutex, mine.old_mutex);
          old_count = ground (arith, en, same.count, mine.old_count);
        })
        (λ j a other e. same-IsAgreed tmps tmps' a same (h.agreed k j tmps a found e))

  -- A new record that shares with this one.
  pub joined-IsSound :
      (t : FdTable) (raw : ThreadTmps) (child : ℤ)
      → g.lookup s.thread_tmps_table child ≡ none
      → IsSound (joined_state s k tmps t n raw child)
  joined-IsSound t raw child new =
      let s' = joined_state s k tmps t n raw child in
      let look = g.lookup-insert s.thread_tmps_table child (joined s k tmps t n raw) in
      let counted = λ (c : Address).
        count-change (uses c) s.thread_tmps_table s'.thread_tmps_table child
          (some (joined s k tmps t n raw)) look in
      set-IsSound s s' child (joined s k tmps t n raw) h
        (joined-HasOwners s h k tmps found t raw child new) look
        (λ j a other e.
          let ha = h.held j a e in
          record {
            files = ha.files;
            table = ha.table;
            mutex = ha.mutex;
            count = ground (arith, ha.count, counted a.share_count, new);
            old_table = ha.old_table;
            old_mutex = ha.old_mutex;
            old_count = ha.old_count;
          })
        (record {
          files = mine.files;
          table = mine.table;
          mutex = mine.mutex;
          count = ground (arith, counted tmps.share_count, new);
          old_table = mine.old_table;
          old_mutex = mine.old_mutex;
          old_count = mine.old_count;
        })
        (λ j a other e.
          same-IsAgreed tmps (joined s k tmps t n raw) a
            (record { table = refl; count = refl; mutex = refl }) (h.agreed k j tmps a found e))

  -- Nobody has a count that is yet to be allocated.
  fresh-users : (c : Address) → s.next ≤ c → users s c ≡ 0
  fresh-users c new =
      count_table-none (uses c) s.thread_tmps_table
        (λ j a e. ground (arith, (h.held j a e).old_count, ==_iff a.share_count c))

  alone-IsAgreed :
      (t : FdTable) (raw : ThreadTmps) (j : ℤ) (a : ThreadTmps)
      → g.lookup s.thread_tmps_table j ≡ some a
      → IsAgreed (alone s k tmps t n raw) a
  alone-IsAgreed t raw j a e =
      let ha = h.held j a e in
      record {
        by_count = λ q. absurd (omega (arith, q, ha.old_count));
        by_table = λ q. absurd (omega (arith, q, ha.old_table));
        by_mutex = λ q. absurd (omega (arith, q, ha.old_mutex));
      }

  -- A new record that is alone.
  pub copied-IsSound :
      (t : FdTable) (raw : ThreadTmps) (child : ℤ)
      → g.lookup s.thread_tmps_table child ≡ none
      → IsSound (copied_state s k tmps t n raw child)
  copied-IsSound t raw child new =
      let s' = copied_state s k tmps t n raw child in
      let b = alone s k tmps t n raw in
      let look = g.lookup-insert s.thread_tmps_table child b in
      let counted = λ (c : Address).
        count-change (uses c) s.thread_tmps_table s'.thread_tmps_table child (some b) look in
      set-IsSound s s' child b h (copied-HasOwners s h k tmps found t raw child new) look
        (λ j a other e.
          let ha = h.held j a e in
          record {
            files = ha.files;
            table = ground (arith, ha.table, ha.old_table);
            mutex = ground (arith, ha.mutex, ha.old_mutex);
            count = ground (arith, ha.count, ha.old_count, counted a.share_count, new);
            old_table = omega (arith, ha.old_table);
            old_mutex = omega (arith, ha.old_mutex);
            old_count = omega (arith, ha.old_count);
          })
        (record {
          files = FdTable.deep_copy t;
          table = ground arith;
          mutex = ground arith;
          count = ground (arith, counted (s.next + 1), new, fresh-users (s.next + 1) (omega arith));
          old_table = omega arith;
          old_mutex = omega arith;
          old_count = omega arith;
        })
        (λ j a other e. alone-IsAgreed t raw j a e)

  -- The record leaves a table that it shares.
  pub unshared-IsSound : (t : FdTable) → 1 < n → IsSound (unshared_state s k tmps t n)
  unshared-IsSound t many =
      let s' = unshared_state s k tmps t n in
      let b = alone s k tmps t n tmps in
      let look : (j : ℤ)
          → g.lookup s'.thread_tmps_table j
            ≡ (if eq_ℤ k j then some b else g.lookup s.thread_tmps_table j) =
        λ j. ground (
          arith,
          g.lookup-modify s.thread_tmps_table k (alone s k tmps t n) j,
          eq_ℤ_iff k j,
          found,
        ) in
      let counted = λ (c : Address).
        count-change (uses c) s.thread_tmps_table s'.thread_tmps_table k (some b) look in
      set-IsSound s s' k b h (unshared-HasOwners s h k tmps found t many) look
        (λ j a other e.
          let ha = h.held j a e in
          record {
            files = ha.files;
            table = ground (arith, ha.table, ha.old_table);
            mutex = ground (arith, ha.mutex, ha.old_mutex);
            count = ground (arith, ha.count, ha.old_count, counted a.share_count, found);
            old_table = omega (arith, ha.old_table);
            old_mutex = omega (arith, ha.old_mutex);
            old_count = omega (arith, ha.old_count);
          })
        (record {
          files = FdTable.remove_cloexec (FdTable.deep_copy t);
          table = ground arith;
          mutex = ground arith;
          count = ground (
            arith,
            mine.old_count,
            counted (s.next + 1),
            found,
            fresh-users (s.next + 1) (omega arith),
          );
          old_table = omega arith;
          old_mutex = omega arith;
          old_count = omega arith;
        })
        (λ j a other e. alone-IsAgreed t tmps j a e)
