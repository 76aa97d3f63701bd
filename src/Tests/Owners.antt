-- ===== src/Tests/Owners.antt =====
-- Runs of the tracer as a whole.
use iotrace.Base.{◌≡◌, refl, [], pos}
use iotrace.Glib.{assoc}
use iotrace.Glib.Lists.{list_glib}
use iotrace.Tracer.{ThreadTmps, State, ok}
use iotrace.SyscallHandler.Sys
use iotrace.SyscallHandler.Dispatch.{handle_syscall_call}
use iotrace.SyscallHandler.Saves.{HasSaved}
use iotrace.SyscallHandler.OtherSaves.{other_saved, handle_syscall_call-other}
use iotrace.Ownership.Sound.{IsSound}
use iotrace.Ownership.Actions.{returns_from, act, Stops, Outcome}
use iotrace.Ownership.Outcomes.{act-Outcome}
use iotrace.Ownership.Reach.{main_start, blank, started, started-IsSound, Reach, main_start-Reach}
use iotrace.Tests.Data.{stop_at, start, end, whole_double, tracee, tmps, state, state-IsReady}

abbrev first_state : State
first_state = started tmps tracee [] []

first_state-IsSound : IsSound first_state
first_state-IsSound = started-IsSound tmps tracee [] []

abbrev first_tmps : ThreadTmps
first_tmps = record tmps { fd_table = 0; share_count = 1; fd_mutex = 2 }

dup-Stops : Stops first_state tracee (stop_at (pos 5) end)
unfolding assoc
dup-Stops = record { tmps = first_tmps; found = refl; now = end; clock = refl }

-- A return of dup.
act-Outcome_example :
    Outcome first_state
      (returns_from tracee Sys.dup (stop_at (pos 5) end))
      (act (returns_from tracee Sys.dup (stop_at (pos 5) end)) first_state)
act-Outcome_example =
    act-Outcome first_state first_state-IsSound (returns_from tracee Sys.dup (stop_at (pos 5) end))
      dup-Stops

main_start-Reach_example :
    (s : State) × (main_start tmps tracee (blank [] []) ≡ ok tt s)
    × ((t : State) → Reach s t → IsSound t)
main_start-Reach_example = main_start-Reach tmps tracee [] []

handle_syscall_call-other_example :
    HasSaved state tracee
      (other_saved Sys.dup2 (stop_at (pos 3) start) start tmps)
      (handle_syscall_call (stop_at (pos 3) start) tracee Sys.dup2 state)
handle_syscall_call-other_example =
    handle_syscall_call-other state tracee tmps state-IsReady.found (stop_at (pos 3) start) start
      refl Sys.dup2 refl
