-- ===== src/Json/Unnamed.antt =====
-- Where src/json_printer.c reads the array of names out of its bounds.
use iotrace.Base.{
  ◌≡◌, ◌↔◌, false, Option, none, some, List, [], ◌∷◌, arith, ℤ, eq_ℤ_iff, Option-cases, CString,
  inl, inr,
}
use iotrace.Glib.{Glib, assoc}
use iotrace.Glib.Keys.{int_key}
use iotrace.Double.{Double}
use iotrace.FileStat.{FileStatTable}
use iotrace.SyscallStat
use iotrace.SyscallStat.{SyscallStat, SyscallTable}
use iotrace.SyscallNames.{syscall_name}
use iotrace.SyscallNames.Bounds.{is_named, syscall_name-eq-none_iff}
use iotrace.Json.{create_builder}
use iotrace.Json.Report.{named_calls, report_of}
use iotrace.Json.Layout.{create_builder-calls_of}

-- A system call of the list that has no name.
abbrev Unnamed : List (ℤ × SyscallStat) → Type 0
Unnamed es =
    (sc : ℤ) × (stat : SyscallStat) × (assoc int_key es sc ≡ some stat) × (is_named sc ≡ false)

module _ ⦃g : Glib⦄ ⦃d : Double⦄ where
  named_calls-Unnamed : (es : List (ℤ × SyscallStat)) → named_calls es ≡ none → Unnamed es
  unfolding assoc
  named_calls-Unnamed [] e = ground (arith, e)
  named_calls-Unnamed ((k, v) ∷ es) e = elim (Option-cases (syscall_name k)) [
    | inl f ↦ (k, v, ground (arith, eq_ℤ_iff k k), (syscall_name-eq-none_iff k).0 f)
    | inr (name, f) ↦ elim (Option-cases (named_calls es)) [
      | inl o ↦
          let (sc, stat, found, unnamed) = named_calls-Unnamed es o in
          (
            sc,
            stat,
            ground (arith, found, eq_ℤ_iff k sc, f, (syscall_name-eq-none_iff sc).1 unnamed),
            unnamed,
          )
      | inr (calls, o) ↦ ground (arith, e, f, o)
    ]
  ]

  Unnamed-named_calls : (es : List (ℤ × SyscallStat)) → Unnamed es → named_calls es ≡ none
  unfolding assoc
  Unnamed-named_calls [] (sc, stat, found, unnamed) = ground (arith, found)
  Unnamed-named_calls ((k, v) ∷ es) (sc, stat, found, unnamed) =
      elim (Option-cases (syscall_name k)) [
        | inl f ↦ ground (arith, f)
        | inr (name, f) ↦
            let later : named_calls es ≡ none = Unnamed-named_calls es (
              sc,
              stat,
              ground (arith, found, eq_ℤ_iff k sc, f, (syscall_name-eq-none_iff sc).1 unnamed),
              unnamed,
            ) in
            ground (arith, f, later)
      ]

  -- Writing the statistics reads the array of names out of its bounds exactly where the table has a
  -- system call whose number is not one of 0 to 546.
  pub create_builder-eq-none_iff :
      (trace_id hostname : CString) (rank : Option CString) (files : FileStatTable)
      (sums : SyscallTable)
      → (create_builder trace_id hostname rank files sums ≡ none) ↔ (
          (sc : ℤ) × (stat : SyscallStat) × (SyscallStat.get sums sc ≡ some stat)
          × (is_named sc ≡ false))
  unfolding report_of SyscallStat.get
  create_builder-eq-none_iff trace_id hostname rank files sums = (
    λ e.
        let (sc, stat, found, unnamed) =
          named_calls-Unnamed (g.entries sums)
            (ground (arith, e, create_builder-calls_of trace_id hostname rank files sums)) in
        (sc, stat, ground (arith, found, g.assoc-entries sums sc), unnamed),
    λ (sc, stat, found, unnamed).
        let o =
          Unnamed-named_calls (g.entries sums)
            (sc, stat, ground (arith, found, g.assoc-entries sums sc), unnamed) in
        ground (arith, o, create_builder-calls_of trace_id hostname rank files sums),
  )
