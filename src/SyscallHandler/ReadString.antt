-- ===== src/SyscallHandler/ReadString.antt =====
-- `read_string` of src/syscall_handler.c reads the C string of the tracee, cut to the buffer.
use mathlib.Core.List.{append-nil, append_assoc}
use iotrace.Base.{
  ℕ, zero, suc, ◌+◌, ◌-◌, ◌*◌, ◌/◌, ◌<◌, ◌≤◌, ◌≡◌, refl, true, false, ◌||◌, ◌⊎◌, inl, inr, some,
  List, [], ◌∷◌, ◌++◌, arith, if◌then◌else◌, ℤ, CString, set, length-set, take, length,
  length-append, Bool-cases, ap, sym, ◌∙◌,
}
use iotrace.FdTable.{filename_buff_size}
use iotrace.Tracer.{Address}
use iotrace.SyscallHandler.Stop.{
  Stop, chars_per_word, low64, low_bytes, word_bytes, copy_bytes, has_nul, read_words, read_string,
  c_string,
}

abbrev pub drop : {A : Type 0} → ℕ → List A → List A
drop zero xs = xs
drop (suc n) [] = []
drop (suc n) (x ∷ xs) = drop n xs

-- The bytes of consecutive words.
abbrev pub text : List ℤ → List ℕ
text [] = []
text (w ∷ ws) = word_bytes w ++ text ws

-- The words of the tracee's memory from the `i`-th behind `base`.
abbrev pub Reads : Stop → Address → ℕ → List ℤ → Type 0
Reads stop base i [] = Unit
Reads stop base i (w ∷ ws) =
    (stop.peek_data (base + i * chars_per_word) ≡ some w) × Reads stop base (i + 1) ws

length-low_bytes : (n w : ℕ) → length (low_bytes n w) ≡ n
unfolding low_bytes
length-low_bytes zero w = refl
length-low_bytes (suc n) w = ap suc (length-low_bytes n (w / 256))

length-word_bytes : (w : ℤ) → length (word_bytes w) ≡ 8
unfolding word_bytes
length-word_bytes w = length-low_bytes 8 (low64 w)

set-append :
    {A : Type 0} (pre : List A) (o b : A) (old : List A)
    → set (pre ++ o ∷ old) (length pre) b ≡ pre ++ b ∷ old
set-append [] o b old = refl
set-append (x ∷ pre) o b old = ap (◌∷◌ x) (set-append pre o b old)

copy_bytes-append :
    (pre old bytes : List ℕ) (at : ℕ)
    → at ≡ length pre
    → length bytes ≤ length old
    → copy_bytes (pre ++ old) at bytes ≡ (pre ++ bytes) ++ drop (length bytes) old
unfolding copy_bytes
copy_bytes-append pre old [] at e h = rw append-nil
copy_bytes-append pre [] (b ∷ bytes) at e h = absurd (omega arith)
copy_bytes-append pre (o ∷ old) (b ∷ bytes) at e h =
    ap (λ d. copy_bytes d (at + 1) bytes)
      (ap (λ n. set (pre ++ o ∷ old) n b) e
        ∙ set-append pre o b old
        ∙ sym (append_assoc pre (b ∷ []) old))
    ∙ copy_bytes-append (pre ++ b ∷ []) old bytes (at + 1)
        (omega (arith, length-append pre (b ∷ []))) (omega arith)
    ∙ ap (λ p. p ++ drop (length bytes) old) (append_assoc pre (b ∷ []) bytes)

has_nul-append : (xs ys : List ℕ) → has_nul (xs ++ ys) ≡ (has_nul xs || has_nul ys)
unfolding has_nul
has_nul-append [] ys = refl
has_nul-append (x ∷ xs) ys = ground (arith, has_nul-append xs ys)

-- What stands behind a NUL does not matter.
c_string-append : (xs ys : List ℕ) → has_nul xs ≡ true → c_string (xs ++ ys) ≡ c_string xs
unfolding has_nul c_string
c_string-append [] ys h = cc
c_string-append (x ∷ xs) ys h = ground (arith, c_string-append xs ys)

length-c_string : (xs : List ℕ) → has_nul xs ≡ true → length (c_string xs) < length xs
unfolding has_nul c_string
length-c_string [] h = cc
length-c_string (x ∷ xs) h = ground (arith, length-c_string xs)

c_string_id : (xs : List ℕ) → has_nul xs ≡ false → c_string xs ≡ xs
unfolding has_nul c_string
c_string_id [] h = refl
c_string_id (x ∷ xs) h = ground (arith, c_string_id xs)

c_string-set :
    (xs : List ℕ) (n : ℕ) → has_nul xs ≡ false → n < length xs → c_string (set xs n 0) ≡ take n xs
unfolding has_nul c_string
c_string-set [] n h k = absurd (omega arith)
c_string-set (x ∷ xs) zero h k = refl
c_string-set (x ∷ xs) (suc n) h k = ground (arith, c_string-set xs n)

take_id : (text : CString) (n : ℕ) → length text ≤ n → take n text ≡ text
take_id [] zero few = refl
take_id [] (suc n) few = refl
take_id (c ∷ text) (suc n) few = ground (arith, take_id text n)
take_id (c ∷ text) zero few = absurd (omega arith)

length-drop : {A : Type 0} (n : ℕ) (xs : List A) → length (drop n xs) ≡ length xs - n
length-drop zero xs = omega arith
length-drop (suc n) [] = omega arith
length-drop (suc n) (x ∷ xs) = omega (arith, length-drop n xs)

-- A buffer that holds a text, cut to fit.
abbrev pub Holds : List ℕ → CString → Type 0
Holds buffer s = (length buffer ≡ filename_buff_size) × (c_string buffer ≡ take 255 s)

-- The words are enough: there is a NUL in them, or they fill the buffer.
abbrev pub Enough : ℕ → List ℤ → Type 0
Enough rounds ws = (has_nul (text ws) ≡ true) ⊎ (length ws ≡ rounds)

full-Holds :
    (pre : List ℕ) → has_nul pre ≡ false → length pre ≡ 256 → Holds (set pre 255 0) (c_string pre)
full-Holds pre h k = (
  omega (arith, length-set pre 255 0),
  c_string-set pre 255 h (omega arith) ∙ ap (take 255) (sym (c_string_id pre h)),
)

nul-Holds :
    (pre old rest : List ℕ)
    → has_nul pre ≡ true
    → length pre + length old ≡ 256
    → Holds (pre ++ old) (c_string (pre ++ rest))
nul-Holds pre old rest h k = (
  omega (arith, length-append pre old),
  c_string-append pre old h
      ∙ sym (take_id _ 255 (omega (arith, length-c_string pre h)))
      ∙ ap (take 255) (sym (c_string-append pre rest h)),
)

empty_nul : has_nul [] ≡ false
unfolding has_nul
empty_nul = refl

no_nul : ¬ (has_nul [] ≡ true)
unfolding has_nul
no_nul h = cc

Enough-tail :
    (k : ℕ) (w : ℤ) (ws : List ℤ)
    → has_nul (word_bytes w) ≡ false
    → Enough (suc k) (w ∷ ws)
    → Enough k ws
Enough-tail k w ws e (inl h) = inl (ground (arith, has_nul-append (word_bytes w) (text ws)))
Enough-tail k w ws e (inr h) = inr (omega arith)

module _ (stop : Stop) (base : Address) where
  step-bytes :
      (i : ℕ) (pre old : List ℕ) (w : ℤ)
      → length pre ≡ i * 8
      → 8 ≤ length old
      → copy_bytes (pre ++ old) (i * 8) (word_bytes w) ≡ (pre ++ word_bytes w) ++ drop 8 old
  step-bytes i pre old w e h =
      copy_bytes-append pre old (word_bytes w) (i * 8) (sym e) (omega (arith, length-word_bytes w))
      ∙ ap (λ n. (pre ++ word_bytes w) ++ drop n old) (length-word_bytes w)

  read_words-last :
      (i : ℕ) (dest : List ℕ)
      → read_words stop base filename_buff_size 0 i dest ≡ some (set dest 255 0)
  unfolding read_words
  read_words-last i dest = refl

  read_words-next :
      (k i : ℕ) (dest : List ℕ) (w : ℤ)
      → stop.peek_data (base + i * chars_per_word) ≡ some w
      → read_words stop base filename_buff_size (suc k) i dest ≡ (
          if has_nul (word_bytes w)
          then some (copy_bytes dest (i * 8) (word_bytes w))
          else read_words stop base filename_buff_size k
              (i + 1)
              (copy_bytes dest (i * 8) (word_bytes w)))
  unfolding read_words
  read_words-next k i dest w e = rw (e, read_words)

  -- The buffer after the loop, which may start in the middle.
  read_words-Holds :
      (rounds i : ℕ) (pre old : List ℕ) (ws : List ℤ)
      → has_nul pre ≡ false
      → length pre ≡ i * 8
      → length old ≡ rounds * 8
      → i + rounds ≡ 32
      → Reads stop base i ws
      → length ws ≤ rounds
      → Enough rounds ws
      → (buffer : List ℕ) × (read_words stop base filename_buff_size rounds i (pre ++ old)
          ≡ some buffer)
        × Holds buffer (c_string (pre ++ text ws))
  read_words-Holds zero i pre [] [] n p o r reads few enough =
      rw (append-nil pre) (set pre 255 0, read_words-last i pre, full-Holds pre n (omega arith))
  read_words-Holds zero i pre (x ∷ old) [] n p o r reads few enough = absurd (omega arith)
  read_words-Holds zero i pre old (w ∷ ws) n p o r reads few enough = absurd (omega arith)
  read_words-Holds (suc k) i pre old [] n p o r reads few (inl h) = absurd (no_nul h)
  read_words-Holds (suc k) i pre old [] n p o r reads few (inr h) = absurd (omega arith)
  read_words-Holds (suc k) i pre old (w ∷ ws) n p o r reads few enough =
      let same = step-bytes i pre old w p (omega arith) in
      let joined : has_nul (pre ++ word_bytes w) ≡ has_nul (word_bytes w) =
        ground (arith, has_nul-append pre (word_bytes w)) in
      let size : length (pre ++ word_bytes w) ≡ i * 8 + 8 =
        omega (arith, length-append pre (word_bytes w), length-word_bytes w) in
      let filled : length (pre ++ word_bytes w) + length (drop 8 old) ≡ 256 =
        omega (arith, size, length-drop 8 old) in
      rw (read_words-next k i (pre ++ old) w reads.0, same)
        (elim (Bool-cases (has_nul (word_bytes w))) [
          | inl e ↦
              rw (e, ← append_assoc pre (word_bytes w) (text ws))
                (
                  (pre ++ word_bytes w) ++ drop 8 old,
                  refl,
                  nul-Holds (pre ++ word_bytes w) (drop 8 old) (text ws) (joined ∙ e) filled,
                )
          | inr e ↦
              rw (e, ← append_assoc pre (word_bytes w) (text ws))
                (read_words-Holds k (i + 1) (pre ++ word_bytes w) (drop 8 old) ws (joined ∙ e)
                  (omega (arith, size)) (omega (arith, length-drop 8 old)) (omega arith) reads.1
                  (omega arith) (Enough-tail k w ws e enough))
        ])

  -- Where the words behind `base` can be read up to one with a NUL byte, or as many as the buffer
  -- has room for, `read_string` succeeds, and the buffer holds the string that begins at `base`, cut
  -- to 255 bytes, whatever the buffer held before.
  pub read_string-Holds :
      (dest : List ℕ) (ws : List ℤ)
      → length dest ≡ filename_buff_size
      → Reads stop base 0 ws
      → length ws ≤ 32
      → Enough 32 ws
      → (buffer : List ℕ) × (read_string stop base dest filename_buff_size ≡ some buffer)
        × (length buffer ≡ filename_buff_size)
        × (c_string buffer ≡ take 255 (c_string (text ws)))
  unfolding read_string
  read_string-Holds dest ws size reads few enough =
      let (buffer, found, holds) =
        read_words-Holds 32 0 [] dest ws empty_nul refl (omega arith) refl reads few enough in
      (buffer, found, holds.0, holds.1)
