-- ===== src/Json/Shown.antt =====
-- The text that `--verbose` prints, from src/file_stat.c and src/unconsidered_syscall_stat.c, against
-- the JSON output of src/json_printer.c.
use iotrace.Base.{
  ℕ, ◌≡◌, refl, Option, some, List, [], ◌∷◌, ◌++◌, arith, ap, ◌∙◌, ℤ, pos, CString, codes,
  to_gint64, ◌<◌, ◌^◌, Option-cases, inl, inr,
}
use mathlib.Core.Option
use mathlib.Core.List.{append_assoc, append-nil}
use iotrace.Glib.{Glib}
use iotrace.Double.{Double}
use iotrace.Stdio.{Arg, text, ull, long, floating, Printf}
use iotrace.FileStat.{FileStat, FileStatTable}
use iotrace.FileStat.Print.{
  print_open_close, print_blocks, print_read_write, print_file, print_files, file_stat_print_all,
}
use iotrace.SyscallStat.{SyscallStat, SyscallTable}
use iotrace.SyscallStat.Print.{print_syscalls, syscall_stat_print_all}
use iotrace.SyscallNames.{syscall_name}
use iotrace.Json.Tree.{
  Json, object, array, int, double, string, Items, end, item, Members, last, member,
}
use iotrace.Json.Reading.RoundTrip.{to_gint64-pos}
use iotrace.Json.Report.{
  block_items, file_tree, file_items, syscall_items, file_report, file_reports, named_calls, Report,
  report_of,
}

module _ ⦃d : Double⦄ where
  -- The numbers and texts of a tree, in order.
  mutual
    pub leaves : Json → List Json
    leaves (object members) = member_leaves members
    leaves (array items) = item_leaves items
    leaves (int n) = int n ∷ []
    leaves (double x) = double x ∷ []
    leaves (string s) = string s ∷ []

    pub item_leaves : Items → List Json
    item_leaves end = []
    item_leaves (item value items) = leaves value ++ item_leaves items

    pub member_leaves : Members → List Json
    member_leaves last = []
    member_leaves (member name value members) = leaves value ++ member_leaves members

  -- An argument of `printf` as json-glib takes it, `%llu` as a `gint64`.
  abbrev pub written_arg : Arg → Json
  written_arg (text s) = string s
  written_arg (ull n) = int (to_gint64 n)
  written_arg (long z) = int z
  written_arg (floating x) = double x

  abbrev pub written_args : List Arg → List Json
  written_args [] = []
  written_args (a ∷ rest) = written_arg a ∷ written_args rest

  pub written : List Printf → List Json
  written [] = []
  written (p ∷ ps) = written_args p.args ++ written ps

  written-append : (ps qs : List Printf) → written (ps ++ qs) ≡ written ps ++ written qs
  unfolding written
  written-append [] qs = refl
  written-append (p ∷ ps) qs = rw (written-append ps qs) (simp (append_assoc))

  -- An argument of `printf` as it is printed.
  abbrev pub shown_arg : Arg → Json
  shown_arg (text s) = string s
  shown_arg (ull n) = int (pos n)
  shown_arg (long z) = int z
  shown_arg (floating x) = double x

  abbrev pub shown_args : List Arg → List Json
  shown_args [] = []
  shown_args (a ∷ rest) = shown_arg a ∷ shown_args rest

  pub shown : List Printf → List Json
  shown [] = []
  shown (p ∷ ps) = shown_args p.args ++ shown ps

  -- What `%llu` prints is below 2 ^ 63.
  abbrev pub SmallArgs : List Arg → Type 0
  SmallArgs [] = Unit
  SmallArgs (ull n ∷ rest) = (n < 2 ^ 63) × SmallArgs rest
  SmallArgs (text s ∷ rest) = SmallArgs rest
  SmallArgs (long z ∷ rest) = SmallArgs rest
  SmallArgs (floating x ∷ rest) = SmallArgs rest

  abbrev pub SmallLines : List Printf → Type 0
  SmallLines [] = Unit
  SmallLines (p ∷ ps) = SmallArgs p.args × SmallLines ps

  shown_args-written_args : (args : List Arg) → SmallArgs args → shown_args args ≡ written_args args
  shown_args-written_args [] h = refl
  shown_args-written_args (ull n ∷ rest) h =
      rw (to_gint64-pos n h.0, shown_args-written_args rest h.1) refl
  shown_args-written_args (text s ∷ rest) h = rw (shown_args-written_args rest h) refl
  shown_args-written_args (long z ∷ rest) h = rw (shown_args-written_args rest h) refl
  shown_args-written_args (floating x ∷ rest) h = rw (shown_args-written_args rest h) refl

  shown-written : (ps : List Printf) → SmallLines ps → shown ps ≡ written ps
  unfolding shown written
  shown-written [] h = refl
  shown-written (p ∷ ps) h = rw (shown_args-written_args p.args h.0, shown-written ps h.1) refl

  SmallLines-append : (ps qs : List Printf) → SmallLines ps → SmallLines qs → SmallLines (ps ++ qs)
  SmallLines-append [] qs h k = k
  SmallLines-append (p ∷ ps) qs h k = (h.0, SmallLines-append ps qs h.1 k)

  abbrev line : CString → Printf
  line format = record { format = format; args = [] }

  abbrev files_title : CString
  files_title = codes "FILE STATISTICS:\n\n"

  abbrev calls_title : CString
  calls_title = codes "UNCONSIDERED SYSCALLS IN FILE STATISTICS:\n\n"

  -- Lines without arguments show nothing.
  written-framed :
      (ps : List Printf) (before after : CString)
      → written (line before ∷ (ps ++ line after ∷ [])) ≡ written ps
  unfolding written
  written-framed ps before after = written-append ps (line after ∷ []) ∙ append-nil (written ps)

  written-print_blocks :
      (es : List (ℤ × ℕ)) → written (print_blocks es) ≡ item_leaves (block_items es)
  unfolding written print_blocks leaves
  written-print_blocks [] = refl
  written-print_blocks ((size, count) ∷ rest) = rw (written-print_blocks rest) refl

module _ ⦃g : Glib⦄ ⦃d : Double⦄ where
  written-print_file :
      (key : CString) (stat : FileStat)
      → written (print_file key stat) ≡ leaves (file_tree (file_report key stat))
  unfolding written print_file print_open_close print_read_write leaves
  written-print_file key stat = simp (append_assoc, written-append, written-print_blocks)

  written-print_files :
      (es : List (CString × FileStat))
      → written (print_files es) ≡ item_leaves (file_items (file_reports es))
  unfolding written print_files leaves
  written-print_files [] = refl
  written-print_files ((key, stat) ∷ rest) =
      written-append (print_file key stat) (print_files rest)
      ∙ ap (λ l. l ++ written (print_files rest)) (written-print_file key stat)
      ∙ ap (λ l. leaves (file_tree (file_report key stat)) ++ l) (written-print_files rest)

  written-print_syscalls :
      (es : List (ℤ × SyscallStat))
      → Option.map written (print_syscalls es)
        ≡ Option.map (λ calls. item_leaves (syscall_items calls)) (named_calls es)
  unfolding written print_syscalls leaves
  written-print_syscalls [] = refl
  written-print_syscalls ((sc, stat) ∷ rest) = elim (Option-cases (syscall_name sc)) [
    | inl e ↦ rw (print_syscalls, named_calls, e) refl
    | inr (name, e) ↦ elim (Option-cases (named_calls rest)) [
      | inl f ↦ ground (arith, e, f, written-print_syscalls rest)
      | inr (calls, f) ↦ ground (arith, e, f, written-print_syscalls rest)
    ]
  ]

  -- The values that a report shows, in order.
  abbrev pub report_leaves : Report → List Json
  report_leaves r = leaves (array (file_items r.files)) ++ leaves (array (syscall_items r.syscalls))

  pub print_all-written :
      (trace_id hostname : CString) (rank : Option CString) (files : FileStatTable)
      (sums : SyscallTable) (r : Report)
      → report_of trace_id hostname rank files sums ≡ some r
      → (lines : List Printf) × (syscall_stat_print_all sums ≡ some lines)
        × (written (file_stat_print_all files ++ lines) ≡ report_leaves r)
  unfolding written leaves report_of file_stat_print_all syscall_stat_print_all
  print_all-written trace_id hostname rank files sums r e =
      elim (Option-cases (named_calls (g.entries sums))) [
        | inl o ↦ ground (arith, e, o)
        | inr (calls, o) ↦ elim (Option-cases (print_syscalls (g.entries sums))) [
          | inl p ↦ ground (arith, o, p, written-print_syscalls (g.entries sums))
          | inr (lines, p) ↦
              let same : written lines ≡ item_leaves (syscall_items calls) =
                ground (arith, o, p, written-print_syscalls (g.entries sums)) in
              let from : file_reports (g.entries files) ≡ r.files = ground (arith, e, o) in
              let names : calls ≡ r.syscalls = ground (arith, e, o) in
              let framed = written-framed lines calls_title (codes "\n") in
              (
                line calls_title ∷ (lines ++ line (codes "\n") ∷ []),
                ground (arith, p),
                written-append (file_stat_print_all files)
                      (line calls_title ∷ (lines ++ line (codes "\n") ∷ []))
                    ∙ (λ i.
                        (written-framed (print_files (g.entries files)) files_title (codes "\n")
                            ∙ written-print_files (g.entries files)
                            ∙ ap (λ rs. item_leaves (file_items rs)) from)
                          i
                        ++ (framed ∙ same ∙ ap (λ cs. item_leaves (syscall_items cs)) names) i),
              )
        ]
      ]

  -- Where each number of a system call has a name, `--verbose` prints the files and the system calls;
  -- if each number that it prints as an `unsigned long long` is below 2 ^ 63, the values it prints are
  -- those of the JSON output, in the same order.
  pub print_all-shown :
      (trace_id hostname : CString) (rank : Option CString) (files : FileStatTable)
      (sums : SyscallTable) (r : Report)
      → report_of trace_id hostname rank files sums ≡ some r
      → SmallLines (file_stat_print_all files)
      → ((lines : List Printf) → syscall_stat_print_all sums ≡ some lines → SmallLines lines)
      → (lines : List Printf) × (syscall_stat_print_all sums ≡ some lines)
        × (shown (file_stat_print_all files ++ lines) ≡ report_leaves r)
  print_all-shown trace_id hostname rank files sums r e small_files small_sums =
      let (lines, prints, same) = print_all-written trace_id hostname rank files sums r e in
      (
        lines,
        prints,
        shown-written (file_stat_print_all files ++ lines) (
              SmallLines-append (file_stat_print_all files) lines small_files
                (small_sums lines prints))
            ∙ same,
      )
