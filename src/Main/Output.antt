-- ===== src/Main/Output.antt =====
-- The output at the end of `main_tracer` in src/main.c, and `print_stats_as_json` of
-- src/json_printer.c. The environment, the name of the host and the writing of a file are parameters.
use iotrace.Base.{
  ℕ, ◌+◌, Bool, Option, none, some, List, [], ◌∷◌, ◌++◌, ltb, if◌then◌else◌, length, or_else,
  CString, codes,
}
use mathlib.Core.Option
use iotrace.Glib.{Glib}
use iotrace.Double.{Double}
use iotrace.Stdio.{text, Printf}
use iotrace.FileStat.{FileStatTable}
use iotrace.FileStat.Print.{file_stat_print_all}
use iotrace.SyscallStat.{SyscallTable}
use iotrace.SyscallStat.Print.{syscall_stat_print_all}
use iotrace.Json.{Call, create_builder}

-- The first of the variables that is set.
unfoldable pub get_mpi_rank : (CString → Option CString) → Option CString
get_mpi_rank getenv = elim (getenv (codes "PMI_RANK")) [
  | some rank ↦ some rank
  | none ↦ elim (getenv (codes "PMIX_RANK")) [
    | some rank ↦ some rank
    | none ↦ elim (getenv (codes "OMPI_COMM_WORLD_RANK")) [
      | some rank ↦ some rank
      | none ↦ getenv (codes "ALPS_APP_PE")
    ]
  ]
]

-- `char filename[strlen(trace_id) + strlen(hostname) + 12]`.
abbrev filename_size : CString → CString → ℕ
filename_size trace_id hostname = length trace_id + length hostname + 12

-- `sprintf` with "%s_%s_%s.json" and its NUL; `none` where that is longer than the buffer.
unfoldable pub output_filename : CString → CString → Option CString → Option CString
output_filename trace_id hostname mpi_rank =
    let name =
      trace_id
      ++ codes "_"
      ++ hostname
      ++ codes "_"
      ++ or_else mpi_rank (codes "NULL")
      ++ codes ".json" in
    if ltb (length name) (filename_size trace_id hostname) then some name else none

module _ ⦃g : Glib⦄ ⦃d : Double⦄ (to_file : CString → List Call → Bool) where
  -- `to_file` is `json_generator_to_file`, which tells whether the file was written.
  unfoldable pub print_stats_as_json :
      CString → CString → CString → Option CString → FileStatTable → SyscallTable → Option Bool
  print_stats_as_json filename trace_id hostname rank file_stat_table syscall_table =
      Option.map (to_file filename)
        (create_builder trace_id hostname rank file_stat_table syscall_table)

infixl 5 ◌>>=◌
abbrev pub ◌>>=◌ : {A B : Type 0} → Option A → (A → Option B) → Option B
o >>= f = elim o [ none ↦ none | some a ↦ f a ]

module _ ⦃d : Double⦄ where
  abbrev pub line : CString → Printf
  line format = record { format = format; args = [] }

  abbrev pub outcome_lines : Bool → CString → List Printf
  outcome_lines success filename =
      if success
      then record {
        format = codes "File statistics were written to '%s'\n";
        args = text filename ∷ [];
      }
        ∷ line (codes "Run 'iotrace --help' to get information about the JSON output format\n")
        ∷ []
      else line (codes "\nError, JSON file could not be created\n") ∷ []

module _ ⦃g : Glib⦄ ⦃d : Double⦄ (to_file : CString → List Call → Bool)
    (getenv : CString → Option CString) (hostname : CString) (verbose : Bool) where
  verbose_lines : FileStatTable → SyscallTable → Option (List Printf)
  verbose_lines main_file_stat_table main_syscall_table =
      if verbose
      then Option.map (λ lines. file_stat_print_all main_file_stat_table ++ lines)
          (syscall_stat_print_all main_syscall_table)
      else some []

  -- What is printed, with the error message, and what `main_tracer` returns. `none` is a write or a
  -- read out of bounds.
  unfoldable pub print_results :
      CString → ℕ → FileStatTable → SyscallTable → Option (List Printf × ℕ)
  unfolding verbose_lines print_stats_as_json
  print_results trace_id err main_file_stat_table main_syscall_table = do
    shown ← verbose_lines main_file_stat_table main_syscall_table
    let mpi_rank = get_mpi_rank getenv
    filename ← output_filename trace_id hostname mpi_rank
    success ←
        print_stats_as_json to_file filename trace_id hostname mpi_rank main_file_stat_table
          main_syscall_table
    some (line (codes "\n") ∷ (shown ++ outcome_lines success filename), if success then err else 1)
