-- ===== src/FdTable.antt =====
-- src/fd_table.h and src/fd_table.c: the table that maps file descriptors to file names. These are
-- the bodies between the lock and the unlock of the mutex; `none` is a fault of the tracer, a NULL
-- pointer that is read or a buffer that is overrun.
pub mod View
pub mod Names
pub mod Refinement
pub mod Short
pub mod Refused
use iotrace.Base.{
  ℕ, ◌+◌, ◌-◌, Bool, true, false, Option, none, some, List, [], ◌∷◌, ◌++◌, ltb, leb, if◌then◌else◌,
  ℤ, pos, CString, codes, length, take, foldl, is_some,
}
use mathlib.Core.Option
use iotrace.Glib.{Glib}
use iotrace.Glib.Keys.{int_key}

-- FILENAME_BUFF_SIZE of thread_temporaries.h.
abbrev pub filename_buff_size : ℕ
filename_buff_size = 256

pub record Entry : Type 0 where
  pub filename : CString
  pub cloexec : Bool

-- `strcpy` to a place in a buffer on the stack, and the string there after it; `none` where the copy
-- does not fit, with its NUL.
unfoldable pub strcpy : CString → ℕ → CString → Option CString
strcpy filename offset text =
    if ltb (offset + length text) filename_buff_size
    then some (take offset filename ++ text)
    else none

-- The name of a pseudoterminal's peer, put together in the buffer.
unfoldable pub slave_name : CString → Option CString
unfolding strcpy
slave_name name = elim (strcpy [] 0 name) [
  | none ↦ none
  | some filename ↦
      let len = length filename in
      if ltb (len + 7) filename_buff_size
      then strcpy filename len (codes " slave")
      else if ltb len 10
      then none
      else strcpy filename (len - 10) (codes "... slave")
]

-- The name that a duplicate is entered under.
abbrev pub dup_name : Bool → Entry → Option CString
dup_name slave entry = if slave then slave_name entry.filename else some entry.filename

module _ ⦃g : Glib⦄ where
  abbrev pub FdTable : Type 0
  FdTable = g.Table int_key Entry

  unfoldable pub insert_intern : FdTable → ℤ → CString → Bool → FdTable
  insert_intern fd_table fd filename cloexec =
      g.insert fd_table fd (record { filename = filename; cloexec = cloexec })

  unfoldable pub create : FdTable
  unfolding insert_intern
  create =
      let fd_table = g.new int_key Entry in
      let fd_table = insert_intern fd_table (pos 0) (codes "stdin") false in
      let fd_table = insert_intern fd_table (pos 1) (codes "stdout") false in
      insert_intern fd_table (pos 2) (codes "stderr") false

  unfoldable pub insert : FdTable → ℤ → CString → Bool → FdTable
  unfolding insert_intern
  insert fd_table fd filename cloexec = insert_intern fd_table fd filename cloexec

  unfoldable pub insert_dup : FdTable → ℤ → ℤ → Bool → Bool → Option FdTable
  unfolding insert_intern
  insert_dup fd_table orig_fd dup_fd cloexec slave = elim (g.lookup fd_table orig_fd) [
    | none ↦ none
    | some entry ↦
        Option.map (λ filename. insert_intern fd_table dup_fd filename cloexec)
          (dup_name slave entry)
  ]

  unfoldable pub set_cloexec : FdTable → ℤ → Bool → Option FdTable
  set_cloexec fd_table fd cloexec = elim (g.lookup fd_table fd) [
    | none ↦ none
    | some _ ↦ some (g.modify fd_table fd (λ entry. record entry { cloexec = cloexec }))
  ]

  -- `g_hash_table_remove` tells whether the key was found.
  unfoldable pub remove : FdTable → ℤ → Bool × FdTable
  remove fd_table fd = (is_some (g.lookup fd_table fd), g.remove fd_table fd)

  remove_step : FdTable → ℤ × Entry → FdTable
  remove_step fd_table (fd, entry) = if entry.cloexec then g.remove fd_table fd else fd_table

  unfoldable pub remove_cloexec : FdTable → FdTable
  unfolding foldl remove_step
  remove_cloexec fd_table = foldl remove_step fd_table (g.entries fd_table)

  copy_step : FdTable → ℤ × Entry → FdTable
  unfolding insert_intern
  copy_step copy (fd, entry) = insert_intern copy fd entry.filename entry.cloexec

  unfoldable pub deep_copy : FdTable → FdTable
  unfolding foldl copy_step
  deep_copy fd_table = foldl copy_step (g.new int_key Entry) (g.entries fd_table)

  unfoldable pub lookup : FdTable → ℤ → Option CString
  lookup fd_table fd = elim (g.lookup fd_table fd) [
    | none ↦ none
    | some entry ↦ some entry.filename
  ]
