-- ===== src/Main/Results.antt =====
-- When the output at the end of `main_tracer` in src/main.c comes about.
use iotrace.Base.{
  ℕ, ◌+◌, ◌≤◌, ◌<◌, ◌≡◌, ◌↔◌, refl, Bool, true, Option, none, some, List, [], ◌∷◌, ◌++◌, arith, ltb,
  if◌then◌else◌, length, length-append, or_else, inl, inr, Bool-cases, Option-cases, ℤ, CString,
  codes,
}
use iotrace.Glib.{Glib}
use iotrace.Double.{Double}
use iotrace.Stdio.{Printf}
use iotrace.FileStat.{FileStatTable}
use iotrace.FileStat.Print.{file_stat_print_all}
use iotrace.SyscallStat
use iotrace.SyscallStat.{SyscallStat, SyscallTable}
use iotrace.SyscallStat.Print.{syscall_stat_print_all}
use iotrace.SyscallNames.Bounds.{is_named}
use iotrace.Json.{Call, create_builder}
use iotrace.Json.Report.{report_of}
use iotrace.Json.Layout.{create_builder-calls_of}
use iotrace.Json.Shown.{print_all-written}
use iotrace.Json.Unnamed.{create_builder-eq-none_iff}
use iotrace.Main.Output.{
  line, outcome_lines, get_mpi_rank, output_filename, print_stats_as_json, print_results,
}

length-parts :
    (t u h v r j : CString)
    → length (t ++ u ++ h ++ v ++ r ++ j)
      ≡ length t + length u + length h + length v + length r + length j
length-parts t u h v r j = simp (length-append)

fits_iff :
    (name : CString) (n t h r : ℕ)
    → n ≡ t + 1 + h + 1 + r + 5
    → ((if ltb n (t + h + 12) then some name else none) ≡ none) ↔ (4 < r)
fits_iff name n t h r e = ground (arith, e)

-- The name of the output file is longer than the buffer that is made for it exactly where the rank
-- has more than four characters, whatever the names of the trace and of the host are.
pub output_filename-eq-none_iff :
    (trace_id hostname : CString) (rank : Option CString)
    → (output_filename trace_id hostname rank ≡ none) ↔ (4 < length (or_else rank (codes "NULL")))
unfolding output_filename
output_filename-eq-none_iff trace_id hostname rank =
    let text = or_else rank (codes "NULL") in
    fits_iff _ _ (length trace_id) (length hostname) (length text)
      (length-parts trace_id (codes "_") hostname (codes "_") text (codes ".json"))

module _ ⦃g : Glib⦄ ⦃d : Double⦄ where
  -- Where the JSON output is made, the text can be too.
  prints :
      (trace_id hostname : CString) (rank : Option CString) (files : FileStatTable)
      (sums : SyscallTable) (calls : List Call)
      → create_builder trace_id hostname rank files sums ≡ some calls
      → (lines : List Printf) × (syscall_stat_print_all sums ≡ some lines)
  prints trace_id hostname rank files sums calls c =
      let same = create_builder-calls_of trace_id hostname rank files sums in
      elim (Option-cases (report_of trace_id hostname rank files sums)) [
        | inl o ↦ ground (arith, o, c, same)
        | inr (r, o) ↦
            let (lines, shown, _) = print_all-written trace_id hostname rank files sums r o in
            (lines, shown)
      ]

module _ ⦃g : Glib⦄ ⦃d : Double⦄ (to_file : CString → List Call → Bool)
    (getenv : CString → Option CString) (hostname : CString) (verbose : Bool) where
  -- Where the rank has at most four characters and each number of a system call has a name, the
  -- output comes to its end: the statistics are handed over as JSON, under the name of the trace, the
  -- host and the rank, and what is returned is 1 if the file was not written and else what went
  -- before.
  pub print_results-ends :
      (trace_id : CString) (err : ℕ) (files : FileStatTable) (sums : SyscallTable)
      → length (or_else (get_mpi_rank getenv) (codes "NULL")) ≤ 4
      → ((sc : ℤ) (stat : SyscallStat) → SyscallStat.get sums sc ≡ some stat → is_named sc ≡ true)
      → (filename : CString) × (calls : List Call) × (lines : List Printf) × (output_filename
            trace_id hostname
            (get_mpi_rank getenv)
          ≡ some filename)
        × (create_builder trace_id hostname (get_mpi_rank getenv) files sums ≡ some calls)
        × (print_results to_file getenv hostname verbose trace_id err files sums
            ≡ some (lines, if to_file filename calls then err else 1))
  unfolding print_results print_stats_as_json
  print_results-ends trace_id err files sums short named =
      let rank = get_mpi_rank getenv in
      elim (Option-cases (output_filename trace_id hostname rank)) [
        | inl o ↦
            let long = (output_filename-eq-none_iff trace_id hostname rank).0 o in
            absurd (omega (arith, long, short))
        | inr (filename, f) ↦
            elim (Option-cases (create_builder trace_id hostname rank files sums)) [
              | inl o ↦
                  let (sc, stat, found, unnamed) =
                    (create_builder-eq-none_iff trace_id hostname rank files sums).0 o in
                  absurd (ground (arith, named sc stat found, unnamed))
              | inr (calls, c) ↦
                  let (lines, shown) = prints trace_id hostname rank files sums calls c in
                  let told : List Printf → List Printf = λ before.
                    line (codes "\n")
                    ∷ (before ++ outcome_lines (to_file filename calls) filename) in
                  elim (Bool-cases verbose) [
                    | inl v ↦ (
                      filename,
                      calls,
                      told (file_stat_print_all files ++ lines),
                      f,
                      c,
                      rw (v, shown, f, c) refl,
                    )
                    | inr v ↦ (filename, calls, told [], f, c, rw (v, f, c) refl)
                  ]
            ]
      ]
