-- ===== src/Ownership/Ended.antt =====
-- The removal of a record keeps the invariant of Ownership/Sound.antt.
use iotrace.Base.{ℕ, ◌≤◌, ◌<◌, ◌≡◌, false, none, some, arith, ◌==◌, ==_iff, ℤ, eq_ℤ}
use iotrace.Glib.{Glib}
use iotrace.Glib.Count.{count-change, count_table-two}
use iotrace.Double.{Double}
use iotrace.FdTable.{FdTable}
use iotrace.Tracer.{Address, ThreadTmps, State}
use iotrace.Main.Runs.{last_state, left_state}
use iotrace.Ownership.Freed.{left-HasOwners, last-HasOwners}
use iotrace.Ownership.Sound.{uses, users, IsHeld, IsSound, drop-IsSound}

module _ ⦃g : Glib⦄ ⦃d : Double⦄ (s : State) (h : IsSound s) (k : ℤ) (tmps : ThreadTmps)
    (found : g.lookup s.thread_tmps_table k ≡ some tmps) where
  abbrev n : ℕ
  n = users s tmps.share_count

  abbrev mine : IsHeld s tmps
  mine = h.held k tmps found

  -- The record goes, and others have its table.
  pub left-IsSound : (t : FdTable) → 1 < n → IsSound (left_state s k tmps t n)
  left-IsSound t many =
      let s' = left_state s k tmps t n in
      let look = g.lookup-remove s.thread_tmps_table k in
      let counted = λ (c : Address).
        count-change (uses c) s.thread_tmps_table s'.thread_tmps_table k none look in
      drop-IsSound s s' k h (left-HasOwners s h k tmps found t many) look (λ j a other e.
        let ha = h.held j a e in
        record {
          files = ha.files;
          table = ha.table;
          mutex = ha.mutex;
          count = ground (arith, ha.count, counted a.share_count, found);
          old_table = ha.old_table;
          old_mutex = ha.old_mutex;
          old_count = ha.old_count;
        })

  -- Another record does not have the count of one that is alone with it.
  pub apart :
      n ≤ 1
      → (j : ℤ) (a : ThreadTmps) → eq_ℤ k j ≡ false
      → g.lookup s.thread_tmps_table j ≡ some a
      → (tmps.share_count == a.share_count) ≡ false
  apart few j a other e = ground (
    arith,
    count_table-two (uses tmps.share_count) s.thread_tmps_table k j tmps a other found e,
    ==_iff tmps.share_count a.share_count,
    ==_iff tmps.share_count tmps.share_count,
  )

  -- The record goes, and nobody else has its table.
  pub last-IsSound : (t : FdTable) → n ≤ 1 → IsSound (last_state s k tmps t n)
  last-IsSound t few =
      let s' = last_state s k tmps t n in
      let look = g.lookup-remove s.thread_tmps_table k in
      let counted = λ (c : Address).
        count-change (uses c) s.thread_tmps_table s'.thread_tmps_table k none look in
      drop-IsSound s s' k h (last-HasOwners s h k tmps found t) look (λ j a other e.
        let ha = h.held j a e in
        let ag = h.agreed k j tmps a found e in
        let no_share = apart few j a other e in
        record {
          files = ha.files;
          table = ground (arith, ha.table, no_share, ag.by_table);
          mutex = ground (arith, ha.mutex, no_share, ag.by_mutex);
          count = ground (arith, ha.count, no_share, counted a.share_count, found);
          old_table = ha.old_table;
          old_mutex = ha.old_mutex;
          old_count = ha.old_count;
        })
