-- ===== src/Json/Layout.antt =====
-- That src/json_printer.c writes the tree of Json/Report.antt.
use iotrace.Base.{
  ℕ, ◌≡◌, refl, Option, List, [], ◌∷◌, ◌++◌, ap, ◌∙◌, ℤ, CString, Option-cases, inl, inr,
}
use mathlib.Core.Option
use mathlib.Core.List.{append_assoc}
use iotrace.Glib.{Glib}
use iotrace.Double.{Double}
use iotrace.FileStat.{FileStat, FileStatTable}
use iotrace.SyscallStat.{SyscallStat, SyscallTable}
use iotrace.SyscallNames.{syscall_name}
use iotrace.Json.{
  block_calls, file_calls, files_calls, syscall_calls, syscalls_calls, create_builder,
}
use iotrace.Json.Tree.{calls_of, item_calls}
use iotrace.Json.Report.{
  block_items, file_tree, file_items, syscall_items, tree_of, file_report, file_reports,
  named_calls, report_of,
}

module _ ⦃g : Glib⦄ ⦃d : Double⦄ where
  block_calls-block_items : (es : List (ℤ × ℕ)) → block_calls es ≡ item_calls (block_items es)
  unfolding block_calls calls_of
  block_calls-block_items [] = refl
  block_calls-block_items ((size, count) ∷ rest) = rw (block_calls-block_items rest) refl

  file_calls-file_tree :
      (key : CString) (stat : FileStat)
      → file_calls key stat ≡ calls_of (file_tree (file_report key stat))
  unfolding file_calls calls_of
  file_calls-file_tree key stat =
      rw
        (
          block_calls-block_items (g.entries stat.read_stats.blocks),
          block_calls-block_items (g.entries stat.write_stats.blocks),
        )
        (simp (append_assoc))

  files_calls-file_items :
      (es : List (CString × FileStat)) → files_calls es ≡ item_calls (file_items (file_reports es))
  unfolding files_calls calls_of
  files_calls-file_items [] = refl
  files_calls-file_items ((key, stat) ∷ rest) =
      ap (λ calls. calls ++ files_calls rest) (file_calls-file_tree key stat)
      ∙ ap (λ calls. calls_of (file_tree (file_report key stat)) ++ calls)
          (files_calls-file_items rest)

  syscalls_calls-syscall_items :
      (es : List (ℤ × SyscallStat))
      → syscalls_calls es ≡ Option.map (λ calls. item_calls (syscall_items calls)) (named_calls es)
  unfolding syscalls_calls syscall_calls calls_of
  syscalls_calls-syscall_items [] = refl
  syscalls_calls-syscall_items ((sc, stat) ∷ rest) = elim (Option-cases (syscall_name sc)) [
    | inl e ↦ rw (syscalls_calls, named_calls, e) refl
    | inr (name, e) ↦ elim (Option-cases (named_calls rest)) [
      | inl f ↦ rw (syscalls_calls, named_calls, e, syscalls_calls-syscall_items rest, f) refl
      | inr (calls, f) ↦
          rw (syscalls_calls, named_calls, e, syscalls_calls-syscall_items rest, f) refl
    ]
  ]

  -- For any statistics: where each number of a system call has a name, the calls that write them are
  -- those of the tree that the help text describes, with one element for each file, each size of
  -- blocks and each system call; and where one has none, an array is read out of its bounds.
  pub create_builder-calls_of :
      (trace_id hostname : CString) (rank : Option CString) (files : FileStatTable)
      (sums : SyscallTable)
      → create_builder trace_id hostname rank files sums
        ≡ Option.map (λ r. calls_of (tree_of r)) (report_of trace_id hostname rank files sums)
  unfolding create_builder calls_of tree_of report_of
  create_builder-calls_of trace_id hostname rank files sums =
      elim (Option-cases (named_calls (g.entries sums))) [
        | inl e ↦ rw (syscalls_calls-syscall_items (g.entries sums), e) refl
        | inr (calls, e) ↦
            rw
              (
                syscalls_calls-syscall_items (g.entries sums),
                files_calls-file_items (g.entries files),
                e,
              )
              (simp (append_assoc))
      ]
