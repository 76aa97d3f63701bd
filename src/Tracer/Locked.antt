-- ===== src/Tracer/Locked.antt =====
-- The functions of src/fd_table.c on a table and a mutex at their addresses: each locks the mutex,
-- does its work and unlocks.
use iotrace.Base.{Bool, Option, ℤ, CString}
use iotrace.Glib.{Glib}
use iotrace.Double.{Double}
use iotrace.FdTable
use iotrace.Tracer.{Address, Cmd, pure, deref, ◌>>=◌, ◌>>◌}
use iotrace.Tracer.Memory.{load_table, store_table, malloc, lock, unlock}

module _ ⦃g : Glib⦄ ⦃d : Double⦄ where
  unfoldable pub fd_table_insert : Address → Address → ℤ → CString → Bool → Cmd (Unit {0})
  fd_table_insert fd_table fd_mutex fd filename cloexec = do
    lock fd_mutex
    t ← load_table fd_table
    store_table fd_table (FdTable.insert t fd filename cloexec)
    unlock fd_mutex

  unfoldable pub fd_table_insert_dup : Address → Address → ℤ → ℤ → Bool → Bool → Cmd (Unit {0})
  fd_table_insert_dup fd_table fd_mutex orig_fd dup_fd cloexec slave = do
    lock fd_mutex
    t ← load_table fd_table
    t' ← deref (FdTable.insert_dup t orig_fd dup_fd cloexec slave)
    store_table fd_table t'
    unlock fd_mutex

  unfoldable pub fd_table_set_cloexec : Address → Address → ℤ → Bool → Cmd (Unit {0})
  fd_table_set_cloexec fd_table fd_mutex fd cloexec = do
    lock fd_mutex
    t ← load_table fd_table
    t' ← deref (FdTable.set_cloexec t fd cloexec)
    store_table fd_table t'
    unlock fd_mutex

  unfoldable pub fd_table_remove : Address → Address → ℤ → Cmd Bool
  fd_table_remove fd_table fd_mutex fd = do
    lock fd_mutex
    t ← load_table fd_table
    let (retval, t') = FdTable.remove t fd
    store_table fd_table t'
    unlock fd_mutex
    pure retval

  unfoldable pub fd_table_remove_cloexec : Address → Address → Cmd (Unit {0})
  fd_table_remove_cloexec fd_table fd_mutex = do
    lock fd_mutex
    t ← load_table fd_table
    store_table fd_table (FdTable.remove_cloexec t)
    unlock fd_mutex

  unfoldable pub fd_table_deep_copy : Address → Address → Cmd Address
  fd_table_deep_copy fd_table fd_mutex = do
    copy ← malloc
    lock fd_mutex
    t ← load_table fd_table
    store_table copy (FdTable.deep_copy t)
    unlock fd_mutex
    pure copy

  -- The caller holds the mutex.
  unfoldable pub fd_table_lookup : Address → ℤ → Cmd (Option CString)
  fd_table_lookup fd_table fd = do t ← load_table fd_table; pure (FdTable.lookup t fd)
