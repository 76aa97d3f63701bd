-- ===== src/SyscallNames/Table.antt =====
-- The array in src/syscall_names.c against the rows of syscall_names/syscall_64.tbl.
use iotrace.Base.{
  ℕ, ◌+◌, ◌≡◌, refl, Bool, true, ◌&&◌, none, some, List, [], ◌∷◌, ◌++◌, ap, ◌∙◌, arith, leb, ltb,
  if◌then◌else◌, or_else, pos,
}
use iotrace.SyscallNames.{undefined_syscall, names_length, syscall_names, syscall_name}
use iotrace.Base.{get_elem?}
use iotrace.SyscallNames.Parser.{
  Row, generate, all_but_last, script, Rises, row_name, rows_end, generate-get_elem?,
}
use iotrace.SyscallNames.Rows0.{rows_from_0}
use iotrace.SyscallNames.Rows150.{rows_from_150}
use iotrace.SyscallNames.Rows300.{rows_from_300}

unfoldable pub syscall_64 : List Row
syscall_64 = rows_from_0 ++ (rows_from_150 ++ rows_from_300)

abbrev rises : ℕ → List Row → Bool
rises next [] = true
rises next (row ∷ rest) = leb next row.number && rises (row.number + 1) rest

rises-Rises : (next : ℕ) (rows : List Row) → rises next rows ≡ true → Rises next rows
rises-Rises next [] h = tt
rises-Rises next (row ∷ rest) h =
    (ground (arith, h), rises-Rises (row.number + 1) rest (ground (arith, h)))

-- The script gives the array.
syscall_names-script : syscall_names ≡ script syscall_64
unfolding syscall_names script syscall_64 generate
syscall_names-script = refl

table-Rises : Rises 0 (all_but_last syscall_64)
unfolding syscall_64
table-Rises = rises-Rises 0 (all_but_last syscall_64) refl

syscall_64-rows_end : rows_end 0 (all_but_last syscall_64) ≡ names_length
unfolding syscall_64
syscall_64-rows_end = refl

-- For every number: the array has the name that the table of the kernel gives it, in the table
-- without its last row; UNDEFINED_SYSCALL where the table has no row; and nothing from 547 on.
pub syscall_name-row_name :
    (n : ℕ)
    → syscall_name (pos n) ≡ (
        if ltb n names_length
        then some (or_else (row_name (all_but_last syscall_64) n) undefined_syscall)
        else none)
unfolding syscall_name script
syscall_name-row_name n =
    let rows = all_but_last syscall_64 in
    let zero_up : 0 + n ≡ n = omega arith in
    ap (λ names. get_elem? names n) syscall_names-script
    ∙ generate-get_elem? 0 rows n table-Rises
    ∙ ap
        (λ k.
          if ltb k (rows_end 0 rows)
          then some (or_else (row_name rows k) undefined_syscall)
          else none)
        zero_up
    ∙ ap (λ m. if ltb n m then some (or_else (row_name rows n) undefined_syscall) else none)
        syscall_64-rows_end
