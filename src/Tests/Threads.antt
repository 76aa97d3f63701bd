-- ===== src/Tests/Threads.antt =====
-- Runs of src/main.c.
use iotrace.Base.{◌≡◌, refl, true, false, none, some, [], ◌∷◌, arith, has_bit, ℤ, pos}
use iotrace.Glib.{assoc}
use iotrace.Glib.Keys.{int_key}
use iotrace.Glib.Lists.{list_glib}
use iotrace.FdTable.View.{view, kept}
use iotrace.Tracer.Ready.{IsReady}
use iotrace.Tracer.{State, ok, fault, and_then}
use iotrace.Tracer.Temporaries.{thread_tmps_remove}
use iotrace.SyscallHandler.Unconsidered.{after_test, handle_execve_return}
use iotrace.Main.Threads.{threads_add, thread_begin}
use iotrace.Main.Runs.{IsShared}
use iotrace.Main.Sharing.{
  begins-shares, begins-copies, begins-late, handle_execve_return-unshares, after_test-late,
}
use iotrace.Main.Wait.{
  wait_loop, quiet, signal_stops, last_stop, failures, zeros, wait_loop-signal_stops,
  wait_loop-killed,
}
use iotrace.Base.{to_int}
use iotrace.FdTable.{FdTable}
use iotrace.FileStat
use iotrace.FileStat.History.{Events, record_events}
use iotrace.SyscallStat
use iotrace.SyscallHandler.Sys
use iotrace.SyscallHandler.Considered.{read, close}
use iotrace.Main.Loop.{Turn, leaves, tracer_loop, tracer_end}
use iotrace.Main.End.{tracer_end-last, tracer_end-shared}
use iotrace.Main.Visits.{
  Visit, turn_of, turns_of, record_of, records_of, IsVisit, Visits, tracer_loop-Visits,
}
use iotrace.Tests.Data.{
  stop_at, start, end, buffer, state-IsReady, whole_double, table, tracee, tmps, state,
}

abbrev child : ℤ
child = pos 43

state-IsShared : IsShared state tracee tmps table 1
unfolding assoc
state-IsShared = record {
  found = refl;
  table = refl;
  mutex = refl;
  count = refl;
  old_table = omega arith;
  old_mutex = omega arith;
  old_count = omega arith;
}

-- A second record of the same table.
abbrev shared_state : State
shared_state = record state {
  share_counts = λ p. some 2;
  thread_tmps_table = (child, tmps) ∷ (tracee, tmps) ∷ [];
}

shared_state-IsShared : IsShared shared_state tracee tmps table 2
unfolding assoc
shared_state-IsShared = record {
  found = refl;
  table = refl;
  mutex = refl;
  count = refl;
  old_table = omega arith;
  old_mutex = omega arith;
  old_count = omega arith;
}

child-unknown : list_glib.lookup {κ = int_key} state.thread_tmps_table child ≡ none
unfolding assoc
child-unknown = refl

begins-shares_example :
    (s' : State) × (and_then (threads_add child tracee (pos 1024) state) (thread_begin tmps)
      ≡ ok tt s')
    × IsShared s' tracee tmps table 2
    × IsShared s' child tmps table 2
unfolding has_bit
begins-shares_example =
    begins-shares state tracee tmps table 1 state-IsShared tmps child (pos 1024) refl refl
      child-unknown

begins-copies_example :
    (s' : State) × (and_then (threads_add child tracee (pos 0) state) (thread_begin tmps)
      ≡ ok tt s')
    × IsShared s' tracee tmps table 1
    × ((t' : FdTable) × IsShared s' child
          (record tmps { fd_table = 3; share_count = 4; fd_mutex = 5 })
          t'
          1
        × ((fd : ℤ) → view t' fd ≡ view table fd))
unfolding has_bit
begins-copies_example =
    begins-copies state tracee tmps table 1 state-IsShared tmps child (pos 0) refl refl
      child-unknown

begins-late_example :
    and_then
      (threads_add child tracee (pos 1024) state)
      (λ start s'. and_then (thread_tmps_remove tracee s') (λ _. thread_begin tmps start))
    ≡ fault
unfolding has_bit
begins-late_example =
    begins-late state tracee tmps table 1 state-IsShared tmps child (pos 1024) refl refl

handle_execve_return-unshares_example :
    (s' : State) × (handle_execve_return tracee shared_state ≡ ok tt s')
    × ((t' : FdTable) × IsShared s' tracee
          (record tmps { fd_table = 3; share_count = 4; fd_mutex = 5 })
          t'
          1
        × ((fd : ℤ) → view t' fd ≡ kept (view table fd)))
    × (s'.fd_tables 0 ≡ some table)
    × (s'.share_counts 1 ≡ some 1)
    × (s'.mutexes 2 ≡ some false)
handle_execve_return-unshares_example =
    handle_execve_return-unshares shared_state tracee tmps table 2 shared_state-IsShared
      (omega arith)

-- The tracee is alone with its table by now.
after_test-late_example :
    (s' : State) × (after_test tracee true state ≡ ok tt s')
    × ((t' : FdTable) × IsShared s' tracee (record tmps { fd_table = 3 }) t' 1
        × ((fd : ℤ) → view t' fd ≡ kept (view table fd)))
    × (s'.fd_tables 0 ≡ none)
after_test-late_example = after_test-late state tracee tmps table 1 state-IsShared refl

wait_loop-signal_stops_example :
    wait_loop tracee 0 (signal_stops (17 ∷ 2 ∷ []) (last_stop none ∷ [])) state
    ≡ ok (record { outcome = some false; rest = []; started = []; signals = 17 ∷ 2 ∷ [] }) state
wait_loop-signal_stops_example =
    wait_loop-signal_stops state tracee 0 (17 ∷ 2 ∷ []) none [] (omega arith, (omega arith, tt))

wait_loop-killed_example :
    wait_loop tracee 0 (quiet (some 9) ∷ failures 3) state
    ≡ ok (record { outcome = none; rest = []; started = []; signals = 0 ∷ zeros 3 }) state
wait_loop-killed_example = wait_loop-killed state tracee 0 9 3 (omega arith) (omega arith)

tracer_end-last_example :
    (s' : State) × (tracer_end tracee FileStat.create SyscallStat.create state
      ≡ ok (FileStat.merge FileStat.create [], SyscallStat.merge SyscallStat.create []) s')
    × (list_glib.lookup {κ = int_key} s'.thread_tmps_table tracee ≡ none)
    × (s'.fd_tables 0 ≡ none)
    × (s'.share_counts 1 ≡ none)
    × (s'.mutexes 2 ≡ none)
tracer_end-last_example =
    tracer_end-last state tracee tmps table 1 state-IsShared FileStat.create SyscallStat.create refl

tracer_end-shared_example :
    (s' : State) × (tracer_end tracee FileStat.create SyscallStat.create shared_state
      ≡ ok (FileStat.merge FileStat.create [], SyscallStat.merge SyscallStat.create []) s')
    × (list_glib.lookup {κ = int_key} s'.thread_tmps_table tracee ≡ none)
    × (s'.fd_tables 0 ≡ some table)
    × (s'.share_counts 1 ≡ some 1)
    × (s'.mutexes 2 ≡ some false)
tracer_end-shared_example =
    tracer_end-shared shared_state tracee tmps table 2 shared_state-IsShared FileStat.create
      SyscallStat.create (omega arith)

-- A read of three bytes and then a close, of descriptor 3, and the exit.
abbrev visit_read : Visit
visit_read = record {
  turn_junk = 0;
  call_signals = 17 ∷ [];
  return_signals = [];
  number = Sys.read;
  what = read;
  call = stop_at (pos 3) start;
  return = stop_at (pos 3) end;
  start = start;
  end = end;
  buffer = buffer;
}

abbrev visit_close : Visit
visit_close = record visit_read { number = Sys.close; what = close }

abbrev last_turn : Turn
last_turn = record (turn_of visit_close) { call_waits = last_stop (some 0) ∷ [] }

visit_read-IsVisit : IsVisit visit_read tmps
unfolding to_int
visit_read-IsVisit = record {
  known = refl;
  name = tt;
  call_clock = refl;
  return_clock = refl;
  call_signals = (omega arith, tt);
  return_signals = tt;
}

visit_close-IsVisit : IsVisit visit_close (record_of visit_read tmps)
unfolding to_int
visit_close-IsVisit = record {
  known = refl;
  name = tt;
  call_clock = refl;
  return_clock = refl;
  call_signals = (omega arith, tt);
  return_signals = tt;
}

tracer_loop-Visits_example :
    (s' : State) × (u : FdTable) × (es : Events) × (tracer_loop tracee
        (turns_of (visit_read ∷ visit_close ∷ []) last_turn)
        state
      ≡ ok leaves s')
    × Visits tmps table (visit_read ∷ visit_close ∷ []) u es
    × IsReady s' tracee (records_of (visit_read ∷ visit_close ∷ []) tmps) u
    × (s'.file_stat_table ≡ record_events [] es)
tracer_loop-Visits_example =
    tracer_loop-Visits tracee (visit_read ∷ visit_close ∷ []) last_turn 0 state tmps table refl
      (visit_read-IsVisit, (visit_close-IsVisit, tt)) state-IsReady
