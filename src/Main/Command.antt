-- ===== src/Main/Command.antt =====
-- `main` and `start_tracee` in src/main.c: what becomes of the arguments. The parser of the options,
-- with the help that it makes, and `fork` are parameters; `ptrace`, `kill` and the signal that tells
-- the parent to begin are left out.
use mathlib.Core.Option
use iotrace.Base.{
  ℕ, ◌+◌, ◌-◌, ◌≡◌, refl, Bool, Option, none, some, List, [], ◌∷◌, arith, ltb, if◌then◌else◌,
  length, ap, ℤ, pos, negsuc, eq_ℤ, CString, codes, get_elem?,
}
use iotrace.Double.{Double}
use iotrace.Stdio.{Arg, Printf}

-- What `g_option_context_parse` leaves: a message, or whether to be verbose, and the arguments that
-- are no options, the name of the program first.
pub data Parsed : Type 0 where
  failed : CString → Parsed
  parsed : Bool → List CString → Parsed

-- The loop of `memcpy` over the pointers; `none` is a read beyond the arguments.
copy_args : ℕ → List CString → Option (List (Option CString))
copy_args ℕ.zero argv = some (none ∷ [])
copy_args (ℕ.suc argc) [] = none
copy_args (ℕ.suc argc) (arg ∷ argv) = Option.map (λ args. some arg ∷ args) (copy_args argc argv)

-- The arguments that `start_tracee` calls `execvp` with, the last of which is NULL.
unfoldable pub start_tracee : ℕ → List CString → Option (List (Option CString))
unfolding copy_args
start_tracee argc argv = copy_args argc argv

-- What an exec reads: up to the first NULL.
abbrev pub up_to_null : List (Option CString) → List CString
up_to_null [] = []
up_to_null (none ∷ args) = []
up_to_null (some arg ∷ args) = arg ∷ up_to_null args

-- `argv + n`.
abbrev from : ℕ → List CString → List CString
from ℕ.zero argv = argv
from (ℕ.suc n) [] = []
from (ℕ.suc n) (arg ∷ argv) = from n argv

module _ ⦃d : Double⦄ where
  -- The process prints and exits with 1, becomes the program, or traces a child under a name.
  pub data Course : Type 0 where
    exits : List Printf → Course
    executes : List (Option CString) → Course
    traces : Bool → ℤ → CString → Course

  -- `none` is a read beyond the arguments.
  unfoldable pub main : (List CString → Parsed) → CString → ℤ → List CString → Option Course
  unfolding start_tracee
  main parse help pid args = elim (parse args) [
    | failed message ↦ some (
        exits (
          record { format = codes "Option parsing failed: %s\n"; args = Arg.text message ∷ [] }
          ∷ []))
    | parsed verbose argv ↦
        let argc = length argv in
        if ltb argc 3
        then some (exits (record { format = codes "%s"; args = Arg.text help ∷ [] } ∷ []))
        else if eq_ℤ pid (pos 0)
        then Option.map executes (start_tracee (argc - 2) (from 2 argv))
        else Option.map (traces verbose pid) (get_elem? argv 1)
  ]

  copy_args-length :
      (argv : List CString)
      → (args : List (Option CString)) × (copy_args (length argv) argv ≡ some args)
        × (up_to_null args ≡ argv)
        × (length args ≡ length argv + 1)
  unfolding copy_args
  copy_args-length [] = (none ∷ [], refl, refl, refl)
  copy_args-length (arg ∷ argv) =
      let (args, e, same, size) = copy_args-length argv in
      (
        some arg ∷ args,
        ap (Option.map (λ args. some arg ∷ args)) e,
        ap (λ l. arg ∷ l) same,
        omega (arith, size),
      )

  -- With arguments that can be parsed, a name for the trace and a program with any arguments, `main`
  -- reads no argument that is not there: the child becomes that program with just these arguments, in
  -- an array that holds one NULL more, and its parent traces it under that name, also where `fork`
  -- failed and there is no child.
  pub main-executes :
      (parse : List CString → Parsed) (help : CString) (args : List CString) (verbose : Bool)
      (name trace_id prog : CString) (rest : List CString)
      → parse args ≡ parsed verbose (name ∷ trace_id ∷ prog ∷ rest)
      → (array : List (Option CString)) × (main parse help (pos 0) args ≡ some (executes array))
        × (up_to_null array ≡ prog ∷ rest)
        × (length array ≡ length rest + 2)
        × ((n : ℕ)
            → main parse help (pos (ℕ.suc n)) args ≡ some (traces verbose (pos (ℕ.suc n)) trace_id))
        × (main parse help (negsuc 0) args ≡ some (traces verbose (negsuc 0) trace_id))
  unfolding main start_tracee
  main-executes parse help args verbose name trace_id prog rest e =
      let (array, copied, same, size) = copy_args-length (prog ∷ rest) in
      (
        array,
        ground (arith, e, copied),
        same,
        omega (arith, size),
        λ n. ground (arith, e),
        ground (arith, e),
      )
