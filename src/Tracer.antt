-- ===== src/Tracer.antt =====
-- The state that the functions of the tracer share, and the commands that read and write it. The
-- addresses of file descriptor tables, share counts and mutexes are explicit, since the records of
-- several tracees may point to the same ones.
pub mod Memory
pub mod Locked
pub mod Temporaries
pub mod Ready
use iotrace.Base.{ℕ, Bool, Option, none, some, List, ℤ}
use iotrace.Glib.{Glib}
use iotrace.Glib.Keys.{int_key}
use iotrace.Double.{Double}
use iotrace.FdTable.{FdTable}
use iotrace.FileStat.{FileStatTable}
use iotrace.SyscallStat.{SyscallTable}

abbrev pub Address : Type 0
Address = ℕ

-- `struct timespec`.
pub record Timespec : Type 0 where
  pub tv_sec : ℕ
  pub tv_nsec : ℕ

-- `thread_tmps` of src/thread_temporaries.h: what is kept of a tracee between a call and its return.
pub record ThreadTmps : Type 0 where
  pub start_time : Timespec
  pub ptr : Address
  pub int_a : ℤ
  pub int_b : ℤ
  pub int_c : ℤ
  pub filename_buffer : List ℕ
  pub fd_table : Address
  pub share_count : Address
  pub fd_mutex : Address

module _ ⦃g : Glib⦄ ⦃d : Double⦄ where
  -- `next` is the address that the next `malloc` returns; `true` is a locked mutex; the last two are
  -- the tables of the thread that runs.
  pub record State : Type 0 where
    pub next : Address
    pub fd_tables : Address → Option FdTable
    pub share_counts : Address → Option ℕ
    pub mutexes : Address → Option Bool
    pub thread_tmps_table : g.Table int_key ThreadTmps
    pub file_stat_table : FileStatTable
    pub syscall_table : SyscallTable

  -- A run ends with a value, by `exit(1)`, at a NULL or dangling pointer or an overrun buffer, or it
  -- waits for a mutex that nobody unlocks.
  pub data Run (A : Type 0) : Type 0 where
    ok : A → State → Run A
    exited : Run A
    fault : Run A
    blocked : Run A

  abbrev pub Cmd : Type 0 → Type 0
  Cmd A = State → Run A

  abbrev pub pure : {A : Type 0} → A → Cmd A
  pure a s = ok a s

  abbrev pub exit : {A : Type 0} → Cmd A
  exit s = exited

  abbrev pub crash : {A : Type 0} → Cmd A
  crash s = fault

  abbrev pub and_then : {A B : Type 0} → Run A → (A → Cmd B) → Run B
  and_then (ok a s) k = k a s
  and_then exited k = exited
  and_then fault k = fault
  and_then blocked k = blocked

  infixl 5 ◌>>=◌ ◌>>◌
  abbrev pub ◌>>=◌ : {A B : Type 0} → Cmd A → (A → Cmd B) → Cmd B
  m >>= k = λ s. and_then (m s) k

  abbrev pub ◌>>◌ : {A B : Type 0} → Cmd A → Cmd B → Cmd B
  m >> k = m >>= λ _. k

  -- A pointer that is read: NULL faults.
  abbrev pub deref : {A : Type 0} → Option A → Cmd A
  deref none = crash
  deref (some a) = pure a

  -- A part of the state, and a change of it.
  abbrev pub gets : {A : Type 0} → (State → A) → Cmd A
  gets f s = ok (f s) s

  abbrev pub puts : (State → State) → Cmd (Unit {0})
  puts f s = ok tt (f s)
