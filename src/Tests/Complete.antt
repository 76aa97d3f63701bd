-- ===== src/Tests/Complete.antt =====
-- The whole program in src/main.c at the end of a run, and at a step before.
use iotrace.Base.{
  ◌≡◌, refl, none, some, List, [], ◌∷◌, arith, ℤ, pos, Bool, true, false, codes, length, CString,
  if◌then◌else◌, negsuc, ℕ, Option,
}
use iotrace.Glib.Lists.{list_glib}
use iotrace.Glib.Keys.{int_key}
use iotrace.FileStat.History.{events_of, get_view}
use iotrace.SyscallStat
use iotrace.SyscallStat.Summary.{summary}
use iotrace.Tracer.{Address}
use iotrace.SyscallHandler.Sys
use iotrace.Ownership.Actions.{Outcome, act, returns_from}
use iotrace.Program.{Tracer, waits_over, Program, Steps, seen_by}
use iotrace.Program.Finished.{Steps-waits_over}
use iotrace.Program.Outcomes.{at_return, Steps-Outcome}
use iotrace.Program.Ends.{waits_over_reachable}
use iotrace.Program.Joined.{runs}
use iotrace.Main.Command.{Parsed, parsed, executes, traces, main, up_to_null, main-executes}
use iotrace.Json.{Call}
use iotrace.FileStat.Totals.{Describes}
use iotrace.Tests.Data.{end, whole_double, tracee, tmps}
use iotrace.Program.Descriptors.{Moves, descriptors, copies}
use iotrace.Program.Moved.{Steps-Moves}
use iotrace.Base.{has_bit}
use iotrace.Program
use iotrace.Tests.Whole.{
  s4, t5, p4, p4-Steps, no_child, child, other_return, first_state, m4, s5, c0, some_events,
  some_calls, begun, over, starts, begun-Steps, over-Steps,
}

Steps-waits_over_example :
    (over.tracers ≡ [])
    × ((i : ℤ) → list_glib.lookup {κ = int_key} over.shared.thread_tmps_table i ≡ none)
    × ((a : Address)
        → (over.shared.fd_tables a ≡ none)
          × (over.shared.share_counts a ≡ none)
          × (over.shared.mutexes a ≡ none))
    × ((f : CString) → Describes f (events_of f some_events) (get_view over.main_file_stat_table f))
    × ((sc : ℤ) → SyscallStat.get over.main_syscall_table sc ≡ summary sc some_calls)
Steps-waits_over_example =
    Steps-waits_over tmps tracee [] [] first_state starts over some_events some_calls over-Steps
      (omega arith) refl

-- A join of a thread that has not ended never comes back here.
abbrev joins : List Tracer → ℤ → Option (Unit {0})
joins tracers thread = if runs tracers thread then none else some tt

abbrev writes : CString → List Call → Bool
writes filename calls = true

abbrev no_variable : CString → Option CString
no_variable name = none

-- The parent's next return, of dup, while the child has begun.
Steps-Outcome_example :
    Outcome
      (seen_by m4 s5)
      (returns_from tracee Sys.dup other_return)
      (act (returns_from tracee Sys.dup other_return) (seen_by m4 s5))
Steps-Outcome_example =
    Steps-Outcome tmps tracee [] [] first_state starts begun some_events some_calls begun-Steps
      (c0 ∷ []) [] m4 refl refl (at_return Sys.dup other_return) (end, refl)

waits_over_reachable_example : (q : Program) × Steps begun [] [] q × (waits_over q ≡ true)
waits_over_reachable_example =
    waits_over_reachable tmps tracee [] [] first_state starts begun some_events some_calls
      begun-Steps

abbrev command : List CString
command = codes "iotrace" ∷ codes "run" ∷ codes "cp" ∷ codes "-r" ∷ []

abbrev no_options : List CString → Parsed
no_options args = parsed false args

main-executes_example :
    (array : List (Option CString)) × (main no_options (codes "Usage") (pos 0) command
      ≡ some (executes array))
    × (up_to_null array ≡ codes "cp" ∷ codes "-r" ∷ [])
    × (length array ≡ 3)
    × ((n : ℕ)
        → main no_options (codes "Usage") (pos (ℕ.suc n)) command
          ≡ some (traces false (pos (ℕ.suc n)) (codes "run")))
    × (main no_options (codes "Usage") (negsuc 0) command
        ≡ some (traces false (negsuc 0) (codes "run")))
main-executes_example =
    main-executes no_options (codes "Usage") command false (codes "iotrace") (codes "run")
      (codes "cp") (codes "-r" ∷ []) refl

-- The child gets a copy of its parent's table.
Steps-Moves_example : Moves (descriptors s4) (descriptors s5) (copies tracee child)
unfolding has_bit
Steps-Moves_example =
    Steps-Moves tmps tracee [] [] first_state starts p4 some_events some_calls p4-Steps begun [] []
      (Program.Step.begins [] [] m4 refl refl tmps child (pos 0) no_child s5 t5)
