-- ===== src/SyscallStat/Print.antt =====
-- `syscall_stat_print_all` of src/unconsidered_syscall_stat.c.
use iotrace.Base.{Option, none, some, List, [], ◌∷◌, ◌++◌, ℤ, codes}
use mathlib.Core.Option
use iotrace.Glib.{Glib}
use iotrace.Double.{Double}
use iotrace.SyscallStat.{SyscallStat, SyscallTable}
use iotrace.SyscallNames.{syscall_name}
use iotrace.Stdio.{text, ull, Printf}

module _ ⦃g : Glib⦄ ⦃d : Double⦄ where
  -- `none` where the number of a system call is out of the bounds of the array of names.
  unfoldable pub print_syscalls : List (ℤ × SyscallStat) → Option (List Printf)
  print_syscalls [] = some []
  print_syscalls ((key, tmp) ∷ rest) =
      let later = print_syscalls rest in
      elim (syscall_name key) [
        | none ↦ none
        | some name ↦
            Option.map
              (λ lines.
                record {
                  format = codes "%s  ->  count: %llu, total: %llu ns\n";
                  args = text name ∷ ull tmp.count ∷ ull tmp.total_ns ∷ [];
                }
                ∷ lines)
              later
      ]

  unfoldable pub syscall_stat_print_all : SyscallTable → Option (List Printf)
  unfolding print_syscalls
  syscall_stat_print_all syscall_table =
      Option.map
        (λ lines.
          record { format = codes "UNCONSIDERED SYSCALLS IN FILE STATISTICS:\n\n"; args = [] }
          ∷ (lines ++ record { format = codes "\n"; args = [] } ∷ []))
        (print_syscalls (g.entries syscall_table))
