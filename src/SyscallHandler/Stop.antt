-- ===== src/SyscallHandler/Stop.antt =====
-- The helpers at the head of src/syscall_handler.c: what is read at a stop of a tracee, the name of
-- the file that is opened, and the clock.
use iotrace.Base.{
  ℕ, zero, suc, ◌+◌, ◌-◌, ◌*◌, ◌/◌, ◌%◌, ◌^◌, ull_mod, Bool, false, ◌||◌, Option, none, some, List,
  [], ◌∷◌, ◌==◌, if◌then◌else◌, ℤ, pos, negsuc, CString, set, or_else,
}
use iotrace.Glib.{Glib}
use iotrace.Double.{Double}
use iotrace.Tracer.{Address, Timespec, ThreadTmps, Cmd, pure, exit, deref, ◌>>=◌}
use iotrace.Tracer.Temporaries.{thread_tmps_lookup, set_tmps}

-- The registers that are read.
pub data Register : Type 0 where
  rdi rsi rdx r10 rax : Register

-- What the kernel answers at a stop: PTRACE_PEEKUSER at a register, PTRACE_PEEKDATA at an address
-- (`none` for -1 with errno set), and `clock_gettime` (`none` for a failure).
pub record Stop : Type 0 where
  pub peek_user : Register → ℤ
  pub peek_data : Address → Option ℤ
  pub clock : Option Timespec

-- The bit pattern of a `long`.
abbrev pub low64 : ℤ → ℕ
low64 (pos a) = a % 2 ^ 64
low64 (negsuc a) = 2 ^ 64 - 1 - a % 2 ^ 64

-- The value of PTRACE_PEEKDATA where nobody asks for errno.
abbrev pub peeked : Stop → Address → ℤ
peeked stop p = or_else (stop.peek_data p) (negsuc 0)

abbrev pub chars_per_word : ℕ
chars_per_word = 8

-- The `n` low bytes of a number, the low one first.
unfoldable pub low_bytes : ℕ → ℕ → List ℕ
low_bytes zero w = []
low_bytes (suc n) w = (w % 256) ∷ low_bytes n (w / 256)

-- A `long` in memory.
unfoldable pub word_bytes : ℤ → List ℕ
unfolding low_bytes
word_bytes word = low_bytes chars_per_word (low64 word)

-- `memcpy(dest + at, bytes, …)`.
unfoldable pub copy_bytes : List ℕ → ℕ → List ℕ → List ℕ
copy_bytes dest at [] = dest
copy_bytes dest at (b ∷ bytes) = copy_bytes (set dest at b) (at + 1) bytes

unfoldable pub has_nul : List ℕ → Bool
has_nul [] = false
has_nul (b ∷ bytes) = b == 0 || has_nul bytes

-- The loop of `read_string` from its round `i`, with the rounds that are left; `none` is the return
-- of -1. The search for a NUL in `dest` is made in the bytes that were just copied there.
unfoldable pub read_words : Stop → Address → ℕ → ℕ → ℕ → List ℕ → Option (List ℕ)
unfolding copy_bytes has_nul word_bytes
read_words stop base max_len zero i dest = some (set dest (max_len - 1) 0)
read_words stop base max_len (suc rounds) i dest =
    elim (stop.peek_data (base + i * chars_per_word)) [
      | none ↦ none
      | some word ↦
          let bytes = word_bytes word in
          let dest' = copy_bytes dest (i * chars_per_word) bytes in
          let rest = read_words stop base max_len rounds (i + 1) dest' in
          if has_nul bytes then some dest' else rest
    ]

-- The rounds `i` with `i * chars_per_word < max_len`.
abbrev pub word_count : ℕ → ℕ
word_count max_len = (max_len + chars_per_word - 1) / chars_per_word

unfoldable pub read_string : Stop → Address → List ℕ → ℕ → Option (List ℕ)
unfolding read_words
read_string stop base dest max_len = read_words stop base max_len (word_count max_len) 0 dest

-- The C string in a buffer.
unfoldable pub c_string : List ℕ → CString
c_string [] = []
c_string (b ∷ bytes) = let rest = c_string bytes in if b == 0 then [] else b ∷ rest

-- NANOS.
abbrev pub nanos : ℕ
nanos = 1000000000

abbrev pub ns_of : Timespec → ℕ
ns_of t = (t.tv_sec * nanos + t.tv_nsec) % ull_mod

-- `unsigned long long` subtraction.
unfoldable pub elapsed : Timespec → Timespec → ℕ
elapsed start current = (ns_of current + ull_mod - ns_of start) % ull_mod

module _ ⦃g : Glib⦄ ⦃d : Double⦄ where
  abbrev pub read_clock : Stop → Cmd Timespec
  read_clock stop = elim stop.clock [ none ↦ exit | some now ↦ pure now ]

  -- `save_current_time(&tmps->start_time, sc)`.
  unfoldable pub save_current_time : Stop → ℤ → Cmd (Unit {0})
  unfolding set_tmps
  save_current_time stop tracee = do
    now ← read_clock stop
    set_tmps tracee (λ tmps. record tmps { start_time = now })

  -- `thread_tmps_lookup`, and the NULL pointer that the first access to the record would read.
  unfoldable pub find_tmps : ℤ → Cmd ThreadTmps
  unfolding thread_tmps_lookup
  find_tmps tracee = do found ← thread_tmps_lookup tracee; deref found

  unfoldable pub calc_elapsed_ns : Stop → ℤ → Cmd (ThreadTmps × ℕ)
  unfolding find_tmps elapsed
  calc_elapsed_ns stop tracee = do
    current_time ← read_clock stop
    tmps ← find_tmps tracee
    pure (tmps, elapsed tmps.start_time current_time)
