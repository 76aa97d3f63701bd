-- ===== src/Tests/Whole.antt =====
-- A run of the whole program in src/main.c: the first tracee makes a system call and has a child, and
-- both end.
use iotrace.Base.{
  none, ◌≡◌, refl, [], ◌∷◌, arith, ℤ, pos, true, false, has_bit, or_else, codes, to_int,
}
use iotrace.Glib.{assoc}
use iotrace.Glib.Lists.{list_glib}
use iotrace.Glib.Keys.{int_key}
use iotrace.FdTable
use iotrace.FdTable.{FdTable}
use iotrace.FileStat.History.{Events, has_read}
use iotrace.FileStat
use iotrace.SyscallStat
use mathlib.Core.Path.{subst}
use iotrace.SyscallHandler.Considered
use iotrace.SyscallHandler.Saves.{NameRead}
use iotrace.SyscallStat.Summary.{Calls}
use iotrace.Tracer.{ThreadTmps, State, Run, ok, exited, fault, blocked, and_then}
use iotrace.Tracer.Temporaries.{thread_tmps_remove}
use iotrace.Tracer.Locked.{fd_table_lookup}
use iotrace.SyscallHandler.Files.{handle_read_call, handle_read_return}
use iotrace.SyscallHandler.Unconsidered.{handle_unconsidered_call, handle_unconsidered_return}
use iotrace.SyscallHandler.Stop.{Stop}
use iotrace.SyscallHandler.Sys
use iotrace.SyscallHandler.Dispatch.{handle_syscall_call, handle_syscall_return}
use iotrace.Main.Threads.{threads_add, thread_begin}
use iotrace.Base.{List, some}
use iotrace.Main.Wait.{Wait, last_stop, wait_loop-signal_stops}
use iotrace.Main.Loop.{leaves, wait_for_syscall}
use iotrace.Ownership.Actions
use iotrace.Ownership.Actions.{Stops, Outcome, act, returns_from}
use iotrace.Ownership.Reach.{main_start, blank, started}
use iotrace.Program
use iotrace.Program.{
  waits_over, Tracer, Program, Step, Steps, new_tracer, first_program, seen_by, stopped, at_stage,
  fewer, files_merged, both_merged, record_removed,
}
use iotrace.Tests.Data.{stop_at, start, end, whole_double, tracee, tmps}

abbrev pub getpid : ℤ
getpid = pos 39

abbrev pub child : ℤ
child = pos 43

-- The stops: at the call and at the return of a read of five bytes from the descriptor 0, and then of
-- another system call.
abbrev read_call : Stop
read_call = stop_at (pos 0) start

abbrev read_return : Stop
read_return = stop_at (pos 5) end

abbrev other_call : Stop
other_call = stop_at (pos 9) start

abbrev pub other_return : Stop
other_return = stop_at (pos 42) end

abbrev pub first_state : State
first_state = started tmps tracee [] []

abbrev state_after : Run (Unit {0}) → State
state_after (ok a s) = s
state_after exited = first_state
state_after fault = first_state
state_after blocked = first_state

abbrev pub p0 : Program
p0 = first_program tracee first_state

abbrev pub m0 : Tracer
m0 = new_tracer tracee true

abbrev s1 : State
s1 = state_after (handle_syscall_call read_call tracee Sys.read (seen_by m0 first_state))

abbrev m1 : Tracer
m1 = stopped m0 s1

abbrev s2 : State
s2 = state_after (handle_syscall_return read_return tracee Sys.read (seen_by m1 s1))

abbrev m2 : Tracer
m2 = stopped m1 s2

abbrev s3 : State
s3 = state_after (handle_syscall_call other_call tracee getpid (seen_by m2 s2))

abbrev m3 : Tracer
m3 = stopped m2 s3

abbrev pub s4 : State
s4 = state_after (handle_syscall_return other_return tracee getpid (seen_by m3 s3))

abbrev pub m4 : Tracer
m4 = stopped m3 s4

abbrev pub s5 : State
s5 = state_after (and_then (threads_add child tracee (pos 0) s4) (thread_begin tmps))

abbrev s6 : State
s6 = state_after (and_then (thread_tmps_remove child s5) (λ _. ok tt))

abbrev s7 : State
s7 = state_after (and_then (thread_tmps_remove tracee s6) (λ _. ok tt))

abbrev pub c0 : Tracer
c0 = new_tracer child false

t1 : handle_syscall_call read_call tracee Sys.read (seen_by m0 first_state) ≡ ok tt s1
unfolding assoc handle_syscall_call handle_read_call
t1 = refl

t2 : handle_syscall_return read_return tracee Sys.read (seen_by m1 s1) ≡ ok tt s2
unfolding assoc handle_syscall_call handle_syscall_return handle_read_return handle_read_call
    fd_table_lookup
t2 = refl

t3 : handle_syscall_call other_call tracee getpid (seen_by m2 s2) ≡ ok tt s3
unfolding assoc handle_syscall_call handle_syscall_return handle_unconsidered_call
    handle_read_return handle_read_call fd_table_lookup
t3 = refl

t4 : handle_syscall_return other_return tracee getpid (seen_by m3 s3) ≡ ok tt s4
unfolding assoc handle_syscall_call handle_syscall_return handle_unconsidered_return
    handle_unconsidered_call handle_read_return handle_read_call fd_table_lookup
t4 = refl

pub t5 : and_then (threads_add child tracee (pos 0) s4) (thread_begin tmps) ≡ ok tt s5
unfolding assoc handle_syscall_call handle_syscall_return threads_add thread_begin
    handle_unconsidered_return handle_unconsidered_call handle_read_return handle_read_call
    fd_table_lookup has_bit
t5 = refl

t6 : thread_tmps_remove child s5 ≡ ok true s6
unfolding assoc handle_syscall_call handle_syscall_return threads_add thread_begin
    handle_unconsidered_return handle_unconsidered_call handle_read_return handle_read_call
    fd_table_lookup has_bit thread_tmps_remove
t6 = refl

t7 : thread_tmps_remove tracee s6 ≡ ok true s7
unfolding assoc handle_syscall_call handle_syscall_return threads_add thread_begin
    handle_unconsidered_return handle_unconsidered_call handle_read_return handle_read_call
    fd_table_lookup has_bit thread_tmps_remove
t7 = refl

-- The record of the first tracee.
abbrev tmps_in : State → ThreadTmps
tmps_in s = or_else (list_glib.lookup {κ = int_key} s.thread_tmps_table tracee) tmps

read_Calls : Actions.Calls (seen_by m0 first_state) tracee Sys.read read_call
unfolding assoc
read_Calls = record {
  stops = record { tmps = tmps_in first_state; found = refl; now = start; clock = refl };
  named = λ k e.
      let same : Considered.read ≡ k = ground (arith, e) in
      ([], subst (λ k. NameRead k read_call (tmps_in first_state) []) same tt);
}

read_Stops : Stops (seen_by m1 s1) tracee read_return
unfolding assoc handle_syscall_call handle_read_call
read_Stops = record { tmps = tmps_in s1; found = refl; now = end; clock = refl }

other_Calls : Actions.Calls (seen_by m2 s2) tracee getpid other_call
unfolding assoc handle_syscall_call handle_syscall_return handle_read_return handle_read_call
    fd_table_lookup
other_Calls = record {
  stops = record { tmps = tmps_in s2; found = refl; now = start; clock = refl };
  named = λ k e. absurd (ground (arith, e));
}

other_Stops : Stops (seen_by m3 s3) tracee other_return
unfolding assoc handle_syscall_call handle_syscall_return handle_unconsidered_return
    handle_unconsidered_call handle_read_return handle_read_call fd_table_lookup
other_Stops = record { tmps = tmps_in s3; found = refl; now = end; clock = refl }

-- What the two returns add.
abbrev pub some_events : Events
some_events = (codes "stdin", has_read 999999400 (pos 5)) ∷ []

abbrev pub some_calls : Calls
some_calls = (getpid, 999999400) ∷ []

abbrev pub p4 : Program
p4 = record p0 { shared = s4; tracers = m4 ∷ [] }

pub p4-Steps : Steps p0 some_events some_calls p4
unfolding assoc handle_syscall_call handle_syscall_return handle_unconsidered_return
    handle_unconsidered_call handle_read_return handle_read_call fd_table_lookup read_Stops
    other_Stops FdTable.lookup FdTable.create to_int
p4-Steps =
    Program.Steps.further
      (Program.Steps.further
        (Program.Steps.further
          (Program.Steps.further Program.Steps.here
            (Program.Step.calls [] [] m0 refl refl Sys.read read_call read_Calls s1 t1))
          (Program.Step.returns [] [] m1 refl refl Sys.read read_return read_Stops FdTable.create
            refl s2 t2))
        (Program.Step.calls [] [] m2 refl refl getpid other_call other_Calls s3 t3))
      (Program.Step.returns [] [] m3 refl refl getpid other_return other_Stops FdTable.create refl
        s4 t4)

abbrev pub begun : Program
begun = record p4 { shared = s5; active_threads = 1; threads = child ∷ []; tracers = c0 ∷ m4 ∷ [] }

pub no_child : list_glib.lookup {κ = int_key} s4.thread_tmps_table child ≡ none
unfolding assoc handle_syscall_call handle_syscall_return handle_unconsidered_return
    handle_unconsidered_call handle_read_return handle_read_call fd_table_lookup
no_child = refl

pub begun-Steps : Steps p0 some_events some_calls begun
begun-Steps =
    Program.Steps.further p4-Steps
      (Program.Step.begins [] [] m4 refl refl tmps child (pos 0) no_child s5 t5)

abbrev pub over : Program
over = record begun {
  shared = s7;
  active_threads = 0;
  tracers = [];
  main_file_stat_table =
      FileStat.merge (FileStat.merge FileStat.create c0.file_stat_table) m4.file_stat_table;
  main_syscall_table =
      SyscallStat.merge (SyscallStat.merge SyscallStat.create m4.syscall_table) c0.syscall_table;
}

abbrev m5 : Tracer
m5 = at_stage files_merged m4

abbrev m6 : Tracer
m6 = at_stage both_merged m5

abbrev c1 : Tracer
c1 = at_stage files_merged c0

abbrev c2 : Tracer
c2 = at_stage both_merged c1

-- Both tracees exit.
abbrev exits : List Wait
exits = last_stop (some 0) ∷ []

c0-leaves : wait_for_syscall child 0 exits (seen_by c0 s5) ≡ ok leaves (seen_by c0 s5)
c0-leaves = ground (arith, wait_loop-signal_stops (seen_by c0 s5) child 0 [] (some 0) [] tt)

m4-leaves : wait_for_syscall tracee 0 exits (seen_by m4 s5) ≡ ok leaves (seen_by m4 s5)
m4-leaves = ground (arith, wait_loop-signal_stops (seen_by m4 s5) tracee 0 [] (some 0) [] tt)

-- The child's files come first, and its other calls last.
pub over-Steps : Steps p0 some_events some_calls over
over-Steps =
    Program.Steps.further
      (Program.Steps.further
        (Program.Steps.further
          (Program.Steps.further
            (Program.Steps.further
              (Program.Steps.further
                (Program.Steps.further
                  (Program.Steps.further begun-Steps
                    (Program.Step.merges_files [] (m4 ∷ []) c0 refl refl 0 exits c0-leaves))
                  (Program.Step.merges_files (c1 ∷ []) [] m4 refl refl 0 exits m4-leaves))
                (Program.Step.merges_calls (c1 ∷ []) [] m5 refl refl))
              (Program.Step.merges_calls [] (m6 ∷ []) c1 refl refl))
            (Program.Step.removes [] (m6 ∷ []) c2 refl refl true s6 t6))
          (Program.Step.finishes [] (m6 ∷ []) (at_stage record_removed c2) refl refl))
        (Program.Step.removes [] [] m6 refl refl true s7 t7))
      (Program.Step.finishes [] [] (at_stage record_removed m6) refl refl)

pub starts : main_start tmps tracee (blank [] []) ≡ ok tt first_state
unfolding main_start assoc
starts = refl
