-- ===== src/SyscallNames/Parser.antt =====
-- syscall_names/syscall_parser.sh, which generates src/syscall_names.c: the loop over the rows of a
-- table. What it greps and splits is left out; a row is what `read nr abi name entry` reads.
use iotrace.Base.{
  ℕ, zero, suc, ◌+◌, ◌-◌, ◌<◌, ◌≤◌, ◌≡◌, refl, Option, none, some, List, [], ◌∷◌, ◌++◌, arith, ltb,
  ◌==◌, if◌then◌else◌, or_else, Bool-cases, inl, inr, ◌∙◌, CString,
}
use iotrace.SyscallNames.{undefined_syscall, replicate}
use iotrace.Base.{get_elem?}

pub record Row : Type 0 where
  pub number : ℕ
  pub name : CString

-- `next` is `lastnum + 1`. The inner loop runs while `lastnum` is below the number before that of the
-- row.
unfoldable pub generate : ℕ → List Row → List CString
generate next [] = []
generate next (row ∷ rest) =
    replicate (row.number - next) undefined_syscall ++ row.name ∷ generate (row.number + 1) rest

-- The table is printed without its last newline, so that `read` fails on the last row.
abbrev pub all_but_last : List Row → List Row
all_but_last [] = []
all_but_last (row ∷ []) = []
all_but_last (row ∷ next ∷ rest) = row ∷ all_but_last (next ∷ rest)

unfoldable pub script : List Row → List CString
unfolding generate
script rows = generate 0 (all_but_last rows)

-- The numbers rise, from `next` on.
abbrev pub Rises : ℕ → List Row → Type 0
Rises next [] = Unit
Rises next (row ∷ rest) = (next ≤ row.number) × Rises (row.number + 1) rest

-- The name of the row with a number, and the number after the last row.
abbrev pub row_name : List Row → ℕ → Option CString
row_name [] n = none
row_name (row ∷ rest) n = if row.number == n then some row.name else row_name rest n

abbrev pub rows_end : ℕ → List Row → ℕ
rows_end next [] = next
rows_end next (row ∷ rest) = rows_end (row.number + 1) rest

get_elem?-replicate :
    (n i : ℕ) (s : CString) (xs : List CString)
    → get_elem? (replicate n s ++ xs) i ≡ (if ltb i n then some s else get_elem? xs (i - n))
get_elem?-replicate zero i s xs = ground arith
get_elem?-replicate (suc n) zero s xs = ground arith
get_elem?-replicate (suc n) (suc i) s xs = ground (arith, get_elem?-replicate n i s xs)

rows_end-le : (next : ℕ) (rows : List Row) → Rises next rows → next ≤ rows_end next rows
rows_end-le next [] h = omega arith
rows_end-le next (row ∷ rest) (h, hs) = omega (arith, h, rows_end-le (row.number + 1) rest hs)

row_name-below :
    (next : ℕ) (rows : List Row) (n : ℕ) → Rises next rows → n < next → row_name rows n ≡ none
row_name-below next [] n h l = refl
row_name-below next (row ∷ rest) n (h, hs) l =
    ground (arith, h, l, row_name-below (row.number + 1) rest n hs)

-- For rows whose numbers rise, the array that is generated holds the name of each row under its
-- number, UNDEFINED_SYSCALL in every gap, and ends with the last row.
pub generate-get_elem? :
    (next : ℕ) (rows : List Row) (i : ℕ)
    → Rises next rows
    → get_elem? (generate next rows) i ≡ (
        if ltb (next + i) (rows_end next rows)
        then some (or_else (row_name rows (next + i)) undefined_syscall)
        else none)
unfolding generate
generate-get_elem? next [] i h = ground arith
generate-get_elem? next (row ∷ rest) i (h, hs) =
    let gap = row.number - next in
    let later = generate (row.number + 1) rest in
    let far = rows_end-le (row.number + 1) rest hs in
    get_elem?-replicate gap i undefined_syscall (row.name ∷ later)
    ∙ elim (Bool-cases (ltb (next + i) row.number)) [
      | inl below ↦
          let none_there = row_name-below (row.number + 1) rest (next + i) hs (ground arith) in
          ground (arith, below, far, none_there, h)
      | inr above ↦ elim (Bool-cases (row.number == next + i)) [
        | inl at ↦ let here : i - gap ≡ 0 = ground arith in rw here (ground (arith, at, far, h))
        | inr past ↦
            let j = next + i - (row.number + 1) in
            let further : i - gap ≡ suc j = ground (arith, above, past, h) in
            let same : next + i ≡ row.number + 1 + j = ground (arith, above, past) in
            let rest_is = generate-get_elem? (row.number + 1) rest j hs in
            rw further (ground (arith, rest_is, same, above, past, h))
      ]
    ]
