-- ===== src/Ownership/Owners.antt =====
-- Whose table, count or mutex an address is: what is allocated has an owner.
use iotrace.Base.{
  ℕ, ◌≡◌, Bool, Option, some, arith, if◌then◌else◌, ℤ, eq_ℤ, eq_ℤ_iff, inl, inr, Bool-cases,
}
use iotrace.Glib.{Glib}
use iotrace.Double.{Double}
use iotrace.FdTable.{FdTable}
use iotrace.Tracer.{Address, ThreadTmps, State}

module _ ⦃g : Glib⦄ ⦃d : Double⦄ where
  -- A record that points to an address; `f` is one of its pointers.
  pub record Owner (s : State) (f : ThreadTmps → Address) (p : Address) : Type 0 where
    pub tracee : ℤ
    pub tmps : ThreadTmps
    pub found : g.lookup s.thread_tmps_table tracee ≡ some tmps
    pub points : f tmps ≡ p

  -- No table, count or mutex is allocated that no record points to.
  pub record HasOwners (s : State) : Type 0 where
    pub table : (p : Address) (t : FdTable) → s.fd_tables p ≡ some t → Owner s (λ a. a.fd_table) p
    pub count : (p : Address) (n : ℕ) → s.share_counts p ≡ some n → Owner s (λ a. a.share_count) p
    pub mutex : (p : Address) (b : Bool) → s.mutexes p ≡ some b → Owner s (λ a. a.fd_mutex) p

  -- An owner stays one, unless its record is the one that changes, which has another one then.
  pub Owner-change :
      (s s' : State) (k : ℤ) (o : Option ThreadTmps) (f : ThreadTmps → Address) (p : Address)
      → ((j : ℤ)
          → g.lookup s'.thread_tmps_table j
            ≡ (if eq_ℤ k j then o else g.lookup s.thread_tmps_table j))
      → ((a : ThreadTmps) → g.lookup s.thread_tmps_table k ≡ some a → f a ≡ p → Owner s' f p)
      → Owner s f p
      → Owner s' f p
  Owner-change s s' k o f p look instead w = elim (Bool-cases (eq_ℤ k w.tracee)) [
    | inl e ↦ instead w.tmps (ground (arith, w.found, eq_ℤ_iff k w.tracee, e)) w.points
    | inr e ↦ record {
      tracee = w.tracee;
      tmps = w.tmps;
      found = ground (arith, look w.tracee, w.found, e);
      points = w.points;
    }
  ]
