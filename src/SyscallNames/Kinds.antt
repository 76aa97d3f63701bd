-- ===== src/SyscallNames/Kinds.antt =====
-- The names in src/syscall_names.c against the numbers that src/syscall_handler.c tells apart.
use iotrace.Base.{
  ℕ, ◌≡◌, refl, Bool, true, false, Option, none, some, List, [], ◌∷◌, arith, ◌==◌, ==_iff, ltb,
  if◌then◌else◌, or_else, sym, ap, ◌∙◌, ℤ, pos, negsuc, CString, codes, str_eq,
}
use iotrace.SyscallHandler.Considered.{
  Considered, open_named, open_at, close, read, write, socket, socketpair, pipe, eventfd, epoll,
  accept, kind,
}
use iotrace.SyscallNames.{syscall_names, syscall_name}
use iotrace.Base.{get_elem?}
use iotrace.SyscallNames.Bounds.{all_from, all-get_elem?}

-- The system calls that are in the statistics of files, by their names.
abbrev named_kinds : List (CString × Considered)
named_kinds =
    (codes "open", open_named)
    ∷ (codes "openat", open_at)
    ∷ (codes "close", close)
    ∷ (codes "read", read)
    ∷ (codes "readv", read)
    ∷ (codes "preadv", read)
    ∷ (codes "preadv2", read)
    ∷ (codes "pread64", read)
    ∷ (codes "write", write)
    ∷ (codes "writev", write)
    ∷ (codes "pwritev", write)
    ∷ (codes "pwritev2", write)
    ∷ (codes "pwrite64", write)
    ∷ (codes "pipe", pipe false)
    ∷ (codes "pipe2", pipe true)
    ∷ (codes "socket", socket)
    ∷ (codes "socketpair", socketpair)
    ∷ (codes "eventfd", eventfd false)
    ∷ (codes "eventfd2", eventfd true)
    ∷ (codes "epoll_create", epoll false)
    ∷ (codes "epoll_create1", epoll true)
    ∷ (codes "accept", accept false)
    ∷ (codes "accept4", accept true)
    ∷ []

abbrev find_kind : List (CString × Considered) → CString → Option Considered
find_kind [] name = none
find_kind ((other, k) ∷ rest) name = if str_eq other name then some k else find_kind rest name

-- What a name stands for.
abbrev pub kind_of : CString → Option Considered
kind_of name = find_kind named_kinds name

-- A number for each kind, to compare them.
abbrev rank : Option Considered → ℕ
rank none = 0
rank (some open_named) = 1
rank (some open_at) = 2
rank (some close) = 3
rank (some read) = 4
rank (some write) = 5
rank (some socket) = 6
rank (some socketpair) = 7
rank (some (pipe newer)) = if newer then 9 else 8
rank (some (eventfd newer)) = if newer then 11 else 10
rank (some (epoll newer)) = if newer then 13 else 12
rank (some (accept newer)) = if newer then 15 else 14

abbrev ranked : List (Option Considered)
ranked =
    none
    ∷ some open_named
    ∷ some open_at
    ∷ some close
    ∷ some read
    ∷ some write
    ∷ some socket
    ∷ some socketpair
    ∷ some (pipe false)
    ∷ some (pipe true)
    ∷ some (eventfd false)
    ∷ some (eventfd true)
    ∷ some (epoll false)
    ∷ some (epoll true)
    ∷ some (accept false)
    ∷ some (accept true)
    ∷ []

abbrev of_rank : ℕ → Option Considered
of_rank n = or_else (get_elem? ranked n) none

of_rank-rank : (k : Option Considered) → of_rank (rank k) ≡ k
of_rank-rank none = refl
of_rank-rank (some open_named) = refl
of_rank-rank (some open_at) = refl
of_rank-rank (some close) = refl
of_rank-rank (some read) = refl
of_rank-rank (some write) = refl
of_rank-rank (some socket) = refl
of_rank-rank (some socketpair) = refl
of_rank-rank (some (pipe true)) = refl
of_rank-rank (some (pipe false)) = refl
of_rank-rank (some (eventfd true)) = refl
of_rank-rank (some (eventfd false)) = refl
of_rank-rank (some (epoll true)) = refl
of_rank-rank (some (epoll false)) = refl
of_rank-rank (some (accept true)) = refl
of_rank-rank (some (accept false)) = refl

-- The names of the x32 ABI begin at 512.
abbrev pub expected : ℤ → CString → Option Considered
expected (pos n) name = if ltb n 512 then kind_of name else none
expected (negsuc n) name = none

abbrev agrees : ℕ → CString → Bool
agrees n name = rank (kind (pos n)) == rank (expected (pos n) name)

all_agree : all_from agrees 0 syscall_names ≡ true
unfolding syscall_names
all_agree = refl

-- A system call that has a name is treated as that name says: the calls of `switch` in
-- `handle_syscall_call` and `handle_syscall_return` are those with the names of open, close, read
-- and so on, and no others; but from 512 on, where the names of the x32 ABI stand, none is.
pub kind-eq-kind_of :
    (sc : ℤ) (name : CString) → syscall_name sc ≡ some name → kind sc ≡ expected sc name
unfolding syscall_name
kind-eq-kind_of (pos n) name e =
    let same : rank (kind (pos n)) ≡ rank (expected (pos n) name) =
      (==_iff (rank (kind (pos n))) (rank (expected (pos n) name))).0
        (all-get_elem? agrees syscall_names all_agree n name e) in
    sym (of_rank-rank (kind (pos n))) ∙ ap of_rank same ∙ of_rank-rank (expected (pos n) name)
kind-eq-kind_of (negsuc n) name e = ground (arith, e)
