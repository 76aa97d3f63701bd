-- ===== src/Ownership/Sound.antt =====
-- Who holds which table of file descriptors: an invariant of the records of all tracees.
use mathlib.Core.Option.{some-injective}
use mathlib.Core.Path.{subst}
use iotrace.Base.{
  ℕ, ◌<◌, ◌≡◌, refl, false, Bool, Option, none, some, arith, ◌==◌, if◌then◌else◌, ℤ, eq_ℤ, sym, ◌∙◌,
  inl, inr, Bool-cases,
}
use iotrace.Glib.{Glib}
use iotrace.Glib.Count.{count_table}
use iotrace.Double.{Double}
use iotrace.FdTable.{FdTable}
use iotrace.Tracer.{Address, ThreadTmps, State}
use iotrace.Ownership.Owners.{HasOwners}
use iotrace.Main.Runs.{IsShared}

abbrev pub uses : Address → ThreadTmps → Bool
uses c tmps = tmps.share_count == c

-- Two records have the table, the count and the mutex in common, or none of them.
pub record IsAgreed (a b : ThreadTmps) : Type 0 where
  pub by_count :
      a.share_count ≡ b.share_count → (a.fd_table ≡ b.fd_table) × (a.fd_mutex ≡ b.fd_mutex)
  pub by_table : a.fd_table ≡ b.fd_table → a.share_count ≡ b.share_count
  pub by_mutex : a.fd_mutex ≡ b.fd_mutex → a.share_count ≡ b.share_count

IsAgreed-self : (a : ThreadTmps) → IsAgreed a a
IsAgreed-self a = record {
  by_count = λ e. (refl, refl);
  by_table = λ e. refl;
  by_mutex = λ e. refl;
}

IsAgreed-sym : (a b : ThreadTmps) → IsAgreed a b → IsAgreed b a
IsAgreed-sym a b h = record {
  by_count = λ e. (sym (h.by_count (sym e)).0, sym (h.by_count (sym e)).1);
  by_table = λ e. sym (h.by_table (sym e));
  by_mutex = λ e. sym (h.by_mutex (sym e));
}

-- Two records with the same pointers.
pub record IsSame (a b : ThreadTmps) : Type 0 where
  pub table : a.fd_table ≡ b.fd_table
  pub count : a.share_count ≡ b.share_count
  pub mutex : a.fd_mutex ≡ b.fd_mutex

pub same-IsAgreed : (a b c : ThreadTmps) → IsSame a b → IsAgreed a c → IsAgreed b c
same-IsAgreed a b c s h = record {
  by_count =
      λ e. (sym s.table ∙ (h.by_count (s.count ∙ e)).0, sym s.mutex ∙ (h.by_count (s.count ∙ e)).1);
  by_table = λ e. sym s.count ∙ h.by_table (s.table ∙ e);
  by_mutex = λ e. sym s.count ∙ h.by_mutex (s.mutex ∙ e);
}

module _ ⦃g : Glib⦄ ⦃d : Double⦄ where
  -- How many records have a count.
  abbrev pub users : State → Address → ℕ
  users s c = count_table (uses c) s.thread_tmps_table

  -- What a record points to is there, the mutex is free, and the count is that of the records.
  pub record IsHeld (s : State) (tmps : ThreadTmps) : Type 0 where
    pub files : FdTable
    pub table : s.fd_tables tmps.fd_table ≡ some files
    pub mutex : s.mutexes tmps.fd_mutex ≡ some false
    pub count : s.share_counts tmps.share_count ≡ some (users s tmps.share_count)
    pub old_table : tmps.fd_table < s.next
    pub old_mutex : tmps.fd_mutex < s.next
    pub old_count : tmps.share_count < s.next

  pub record IsSound (s : State) : Type 0 where
    pub held : (i : ℤ) (a : ThreadTmps) → g.lookup s.thread_tmps_table i ≡ some a → IsHeld s a
    pub agreed :
        (i j : ℤ) (a b : ThreadTmps)
        → g.lookup s.thread_tmps_table i ≡ some a
        → g.lookup s.thread_tmps_table j ≡ some b
        → IsAgreed a b
    pub owners : HasOwners s

  -- A record in a sound state is ready.
  pub IsSound-IsShared :
      (s : State) (i : ℤ) (a : ThreadTmps)
      → IsSound s
      → (e : g.lookup s.thread_tmps_table i ≡ some a)
      → (t : FdTable) × IsShared s i a t (users s a.share_count)
  IsSound-IsShared s i a h e =
      let is = h.held i a e in
      (
        is.files,
        record {
          found = e;
          table = is.table;
          mutex = is.mutex;
          count = is.count;
          old_table = is.old_table;
          old_mutex = is.old_mutex;
          old_count = is.old_count;
        },
      )

  -- The record of one key changes; all is well if it is with that record and with the others.
  change-IsSound :
      (s s' : State) (k : ℤ) (o : Option ThreadTmps)
      → IsSound s
      → HasOwners s'
      → ((j : ℤ)
          → g.lookup s'.thread_tmps_table j
            ≡ (if eq_ℤ k j then o else g.lookup s.thread_tmps_table j))
      → ((j : ℤ) (a : ThreadTmps)
          → eq_ℤ k j ≡ false
          → g.lookup s.thread_tmps_table j ≡ some a
          → IsHeld s' a)
      → ((b : ThreadTmps) → o ≡ some b → IsHeld s' b)
      → ((b : ThreadTmps)
          → o ≡ some b
          → (j : ℤ) (a : ThreadTmps) → eq_ℤ k j ≡ false
          → g.lookup s.thread_tmps_table j ≡ some a
          → IsAgreed b a)
      → IsSound s'
  change-IsSound s s' k o h owned look others own agrees = record {
    held = λ i a e. elim (Bool-cases (eq_ℤ k i)) [
      | inl p ↦ own a (ground (arith, look i))
      | inr p ↦ others i a p (ground (arith, look i))
    ];
    agreed = λ i j a b e f. elim (Bool-cases (eq_ℤ k i)) [
      | inl p ↦ elim (Bool-cases (eq_ℤ k j)) [
        | inl q ↦
            subst (IsAgreed a) (some-injective a b (ground (arith, look i, look j)))
              (IsAgreed-self a)
        | inr q ↦ agrees a (ground (arith, look i)) j b q (ground (arith, look j))
      ]
      | inr p ↦ elim (Bool-cases (eq_ℤ k j)) [
        | inl q ↦
            IsAgreed-sym b a (agrees b (ground (arith, look j)) i a p (ground (arith, look i)))
        | inr q ↦ h.agreed i j a b (ground (arith, look i)) (ground (arith, look j))
      ]
    ];
    owners = owned;
  }

  pub set-IsSound :
      (s s' : State) (k : ℤ) (b : ThreadTmps)
      → IsSound s
      → HasOwners s'
      → ((j : ℤ)
          → g.lookup s'.thread_tmps_table j
            ≡ (if eq_ℤ k j then some b else g.lookup s.thread_tmps_table j))
      → ((j : ℤ) (a : ThreadTmps)
          → eq_ℤ k j ≡ false
          → g.lookup s.thread_tmps_table j ≡ some a
          → IsHeld s' a)
      → IsHeld s' b
      → ((j : ℤ) (a : ThreadTmps)
          → eq_ℤ k j ≡ false
          → g.lookup s.thread_tmps_table j ≡ some a
          → IsAgreed b a)
      → IsSound s'
  set-IsSound s s' k b h owned look others own agrees =
      change-IsSound s s' k (some b) h owned look others
        (λ c e. subst (IsHeld s') (some-injective b c e) own)
        (λ c e j a other f. subst (λ x. IsAgreed x a) (some-injective b c e) (agrees j a other f))

  pub drop-IsSound :
      (s s' : State) (k : ℤ)
      → IsSound s
      → HasOwners s'
      → ((j : ℤ)
          → g.lookup s'.thread_tmps_table j
            ≡ (if eq_ℤ k j then none else g.lookup s.thread_tmps_table j))
      → ((j : ℤ) (a : ThreadTmps)
          → eq_ℤ k j ≡ false
          → g.lookup s.thread_tmps_table j ≡ some a
          → IsHeld s' a)
      → IsSound s'
  drop-IsSound s s' k h owned look others =
      change-IsSound s s' k none h owned look others (λ b e. cc) (λ b e. cc)
