-- ===== src/Tracer/Memory.antt =====
-- Loads and stores at the addresses of tables, share counts and mutexes.
use iotrace.Base.{ℕ, ◌+◌, true, false, Option, none, some, ◌==◌, if◌then◌else◌}
use iotrace.Glib.{Glib}
use iotrace.Double.{Double}
use iotrace.FdTable.{FdTable}
use iotrace.Tracer.{Address, ok, fault, blocked, Cmd, pure, deref, ◌>>=◌, ◌>>◌, puts}

abbrev pub update : {A : Type 0} → (Address → Option A) → Address → Option A → Address → Option A
update f p v q = if p == q then v else f q

module _ ⦃g : Glib⦄ ⦃d : Double⦄ where
  abbrev pub load_table : Address → Cmd FdTable
  load_table p = λ s. deref (s.fd_tables p) s

  abbrev pub store_table : Address → FdTable → Cmd (Unit {0})
  store_table p t = puts (λ s. record s { fd_tables = update s.fd_tables p (some t) })

  -- `fd_table_free`: a second one of the same table faults.
  abbrev pub free_table : Address → Cmd (Unit {0})
  free_table p = do load_table p; puts (λ s. record s { fd_tables = update s.fd_tables p none })

  abbrev pub load_count : Address → Cmd ℕ
  load_count p = λ s. deref (s.share_counts p) s

  abbrev pub store_count : Address → ℕ → Cmd (Unit {0})
  store_count p n = puts (λ s. record s { share_counts = update s.share_counts p (some n) })

  abbrev pub free_count : Address → Cmd (Unit {0})
  free_count p = do
    load_count p
    puts (λ s. record s { share_counts = update s.share_counts p none })

  -- A fresh address.
  abbrev pub malloc : Cmd Address
  malloc s = ok s.next (record s { next = s.next + 1 })

  -- `malloc` and `g_mutex_init`.
  abbrev pub new_mutex : Cmd Address
  new_mutex = do
    p ← malloc
    puts (λ s. record s { mutexes = update s.mutexes p (some false) })
    pure p

  -- `g_mutex_clear` and `free`.
  abbrev pub free_mutex : Address → Cmd (Unit {0})
  free_mutex p s = elim (s.mutexes p) [
    | none ↦ fault
    | some _ ↦ ok tt (record s { mutexes = update s.mutexes p none })
  ]

  abbrev pub lock : Address → Cmd (Unit {0})
  lock p s = elim (s.mutexes p) [
    | none ↦ fault
    | some locked ↦
        if locked then blocked else ok tt (record s { mutexes = update s.mutexes p (some true) })
  ]

  abbrev pub unlock : Address → Cmd (Unit {0})
  unlock p s = elim (s.mutexes p) [
    | none ↦ fault
    | some _ ↦ ok tt (record s { mutexes = update s.mutexes p (some false) })
  ]
