-- ===== src/SyscallNames.antt =====
-- src/syscall_names.h and src/syscall_names.c: the names of the system calls by their numbers. The
-- table is the output of syscall_names/syscall_parser.sh for syscall_names/syscall_64.tbl.
pub mod From0
pub mod From150
pub mod From300
pub mod From512
pub mod Parser
pub mod Rows0
pub mod Rows150
pub mod Rows300
pub mod Table
pub mod Bounds
pub mod Kinds
pub mod Handled
use iotrace.Base.{
  get_elem?, ℕ, zero, suc, Option, none, some, List, [], ◌∷◌, ◌++◌, ℤ, pos, negsuc, CString, codes,
}
use iotrace.SyscallNames.From0.{names_from_0}
use iotrace.SyscallNames.From150.{names_from_150}
use iotrace.SyscallNames.From300.{names_from_300}
use iotrace.SyscallNames.From512.{names_from_512}

abbrev pub undefined_syscall : CString
undefined_syscall = codes "UNDEFINED_SYSCALL"

abbrev pub names_length : ℕ
names_length = 547

abbrev pub replicate : ℕ → CString → List CString
replicate zero name = []
replicate (suc n) name = name ∷ replicate n name

-- The numbers 335 to 511.
abbrev undefined_names : List CString
undefined_names = replicate 177 undefined_syscall

unfoldable pub syscall_names : List CString
syscall_names =
    names_from_0 ++ names_from_150 ++ names_from_300 ++ undefined_names ++ names_from_512

-- `syscall_names[*(int *) key]`: `none` is a read out of the bounds of the array.
unfoldable pub syscall_name : ℤ → Option CString
unfolding syscall_names
syscall_name (pos n) = get_elem? syscall_names n
syscall_name (negsuc n) = none
