-- ===== src/Tracer/Ready.antt =====
-- A tracee whose record, table and mutex are in place, and the functions of src/fd_table.c there.
use iotrace.Base.{◌≡◌, fun_ext, Bool, true, false, Option, none, some, arith, ==_iff, ℤ, CString}
use iotrace.Glib.{Glib}
use iotrace.Double.{Double}
use iotrace.FdTable
use iotrace.FdTable.{FdTable}
use iotrace.Tracer.{Address, ThreadTmps, State, ok, fault}
use iotrace.Tracer.Memory.{update}
use iotrace.Tracer.Locked.{
  fd_table_insert, fd_table_insert_dup, fd_table_set_cloexec, fd_table_remove,
  fd_table_remove_cloexec,
}

-- A mutex that is locked and unlocked is as it was.
pub relock :
    (m : Address → Option Bool) (p : Address)
    → m p ≡ some false
    → update (update m p (some true)) p (some false) ≡ m
relock m p h = fun_ext λ q. ground (arith, ==_iff p q)

pub update_same :
    {A : Type 0} (m : Address → Option A) (p : Address) {v : Option A} → m p ≡ v → update m p v ≡ m
update_same m p h = fun_ext λ q. ground (arith, ==_iff p q)

pub update_here :
    {A : Type 0} (m : Address → Option A) (p : Address) (v : Option A) → update m p v p ≡ v
update_here m p v = ground (arith, ==_iff p p)

pub update-update :
    {A : Type 0} (m : Address → Option A) (p : Address) (v w : Option A)
    → update (update m p v) p w ≡ update m p w
update-update m p v w = fun_ext λ q. ground arith

module _ ⦃g : Glib⦄ ⦃d : Double⦄ where
  -- A table, its mutex unlocked, and what the tracee's record says of them.
  pub record IsReady (s : State) (tracee : ℤ) (tmps : ThreadTmps) (t : FdTable) : Type 0 where
    pub found : g.lookup s.thread_tmps_table tracee ≡ some tmps
    pub table : s.fd_tables tmps.fd_table ≡ some t
    pub mutex : s.mutexes tmps.fd_mutex ≡ some false

  -- The state with another table at an address.
  abbrev pub with_table : State → Address → FdTable → State
  with_table s p t = record s { fd_tables = update s.fd_tables p (some t) }

module _ ⦃g : Glib⦄ ⦃d : Double⦄ (s : State) (p m : Address) (t : FdTable)
    (table : s.fd_tables p ≡ some t) (mutex : s.mutexes m ≡ some false) where
  pub fd_table_insert-ok :
      (fd : ℤ) (name : CString) (c : Bool)
      → fd_table_insert p m fd name c s ≡ ok tt (with_table s p (FdTable.insert t fd name c))
  unfolding fd_table_insert
  fd_table_insert-ok fd name c = ground (arith, relock s.mutexes m mutex)

  pub fd_table_insert_dup-ok :
      (orig fd : ℤ) (c slave : Bool) (t' : FdTable)
      → FdTable.insert_dup t orig fd c slave ≡ some t'
      → fd_table_insert_dup p m orig fd c slave s ≡ ok tt (with_table s p t')
  unfolding fd_table_insert_dup
  fd_table_insert_dup-ok orig fd c slave t' e = ground (arith, relock s.mutexes m mutex)

  pub fd_table_insert_dup-fault :
      (orig fd : ℤ) (c slave : Bool)
      → FdTable.insert_dup t orig fd c slave ≡ none
      → fd_table_insert_dup p m orig fd c slave s ≡ fault
  unfolding fd_table_insert_dup
  fd_table_insert_dup-fault orig fd c slave e = ground arith

  pub fd_table_set_cloexec-ok :
      (fd : ℤ) (c : Bool) (t' : FdTable)
      → FdTable.set_cloexec t fd c ≡ some t'
      → fd_table_set_cloexec p m fd c s ≡ ok tt (with_table s p t')
  unfolding fd_table_set_cloexec
  fd_table_set_cloexec-ok fd c t' e = ground (arith, relock s.mutexes m mutex)

  pub fd_table_set_cloexec-fault :
      (fd : ℤ) (c : Bool)
      → FdTable.set_cloexec t fd c ≡ none
      → fd_table_set_cloexec p m fd c s ≡ fault
  unfolding fd_table_set_cloexec
  fd_table_set_cloexec-fault fd c e = ground arith

  pub fd_table_remove-ok :
      (fd : ℤ)
      → fd_table_remove p m fd s
        ≡ ok (FdTable.remove t fd).0 (with_table s p (FdTable.remove t fd).1)
  unfolding fd_table_remove
  fd_table_remove-ok fd = ground (arith, relock s.mutexes m mutex)

  pub fd_table_remove_cloexec-ok :
      fd_table_remove_cloexec p m s ≡ ok tt (with_table s p (FdTable.remove_cloexec t))
  unfolding fd_table_remove_cloexec
  fd_table_remove_cloexec-ok = ground (arith, relock s.mutexes m mutex)
