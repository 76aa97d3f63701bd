-- ===== src/Main/Visits.antt =====
-- A tracee from its first system call to its exit: what the loop of `start_tracer` in src/main.c
-- leaves in the statistics of files.
use iotrace.Base.{
  ℕ, ◌≡◌, refl, none, some, List, [], ◌∷◌, ◌++◌, arith, sym, ap, ◌∙◌, foldl-append, ℤ, to_int,
}
use iotrace.Glib.{Glib}
use iotrace.Double.{Double}
use iotrace.FdTable
use iotrace.FdTable.{FdTable}
use iotrace.FdTable.Refinement.{run}
use iotrace.FileStat.{FileStatTable}
use iotrace.FileStat.History.{Events, record_event, record_events}
use iotrace.Tracer.{Timespec, ThreadTmps, State, Run, ok, exited, fault, blocked, Cmd, and_then}
use iotrace.Tracer.Ready.{IsReady}
use iotrace.SyscallHandler.Stop.{Stop, elapsed}
use iotrace.SyscallHandler.Files.{known_name}
use iotrace.SyscallHandler.Dispatch.{handle_syscall_call, handle_syscall_return}
use iotrace.SyscallHandler.Considered.{Considered, Effect, kind, effect}
use iotrace.SyscallHandler.Saves.{saved, NameRead}
use iotrace.SyscallHandler.Round.{call_return-Turned}
use iotrace.Main.Wait.{last_stop, signal_stops, AreSignals, wait_loop-signal_stops}
use iotrace.Main.Loop.{Turn, leaves, tracer_loop}

-- A system call of the tracee, with the signals that arrive before it and before its return.
pub record Visit : Type 0 where
  pub turn_junk : ℕ
  pub call_signals : List ℕ
  pub return_signals : List ℕ
  pub number : ℤ
  pub what : Considered
  pub call : Stop
  pub return : Stop
  pub start : Timespec
  pub end : Timespec
  pub buffer : List ℕ

abbrev pub turn_of : Visit → Turn
turn_of v = record {
  junk = v.turn_junk;
  call_waits = signal_stops v.call_signals (last_stop none ∷ []);
  orig_rax = v.number;
  call = v.call;
  return_waits = signal_stops v.return_signals (last_stop none ∷ []);
  return = v.return;
}

-- The record of the tracee after the call.
abbrev pub record_of : Visit → ThreadTmps → ThreadTmps
record_of v tmps = saved v.what v.call v.buffer v.start tmps

-- The record of the tracee after all calls.
abbrev pub records_of : List Visit → ThreadTmps → ThreadTmps
records_of [] tmps = tmps
records_of (v ∷ vs) tmps = records_of vs (record_of v tmps)

-- A call that is in the statistics of files, with clocks that work and a name that can be read.
pub record IsVisit (v : Visit) (tmps : ThreadTmps) : Type 0 where
  pub known : kind (to_int v.number) ≡ some v.what
  pub name : NameRead v.what v.call tmps v.buffer
  pub call_clock : v.call.clock ≡ some v.start
  pub return_clock : v.return.clock ≡ some v.end
  pub call_signals : AreSignals v.call_signals
  pub return_signals : AreSignals v.return_signals

abbrev pub AreVisits : List Visit → ThreadTmps → Type 0
AreVisits [] tmps = Unit
AreVisits (v ∷ vs) tmps = IsVisit v tmps × AreVisits vs (record_of v tmps)

-- The rounds of the loop: the calls, and then the exit of the tracee.
abbrev pub turns_of : List Visit → Turn → List Turn
turns_of [] last = last ∷ []
turns_of (v ∷ vs) last = turn_of v ∷ turns_of vs last

module _ ⦃g : Glib⦄ ⦃d : Double⦄ where
  abbrev pub visit_effect : Visit → ThreadTmps → FdTable → Effect
  visit_effect v tmps t =
      effect v.what v.return (record_of v tmps)
        (known_name (FdTable.lookup t (record_of v tmps).int_a)) (elapsed v.start v.end)

  -- The calls, one by one, from a record and a table to a table: each has its effect on the table that
  -- the ones before it have left, and the events are in their order.
  pub data Visits : ThreadTmps → FdTable → List Visit → FdTable → Events → Type 0 where
    done : {tmps : ThreadTmps} {t : FdTable} → Visits tmps t [] t []
    then :
        {tmps : ThreadTmps} {t t' u : FdTable} {v : Visit} {vs : List Visit} {es : Events}
        → run t (visit_effect v tmps t).ops ≡ some t'
        → Visits (record_of v tmps) t' vs u es
        → Visits tmps t (v ∷ vs) u ((visit_effect v tmps t).events ++ es)

  record_events-append :
      (t : FileStatTable) (es fs : Events)
      → record_events t (es ++ fs) ≡ record_events (record_events t es) fs
  unfolding record_events
  record_events-append t es fs = foldl-append record_event t es fs

  and_then-ok :
      (r : Run (Unit {0})) (k : Unit {0} → Cmd (Unit {0})) (s' : State)
      → and_then r k ≡ ok tt s'
      → (s : State) × (r ≡ ok tt s) × (k tt s ≡ ok tt s')
  and_then-ok (ok tt s) k s' e = (s, refl, e)
  and_then-ok exited k s' e = cc
  and_then-ok fault k s' e = cc
  and_then-ok blocked k s' e = cc

  -- One round of the loop.
  loop-turn :
      (tracee : ℤ) (s : State) (tmps : ThreadTmps) (v : Visit) (rs : List Turn) (s' : State)
      → IsVisit v tmps
      → and_then
          (handle_syscall_call v.call tracee (to_int v.number) s)
          (λ _. handle_syscall_return v.return tracee (to_int v.number))
        ≡ ok tt s'
      → tracer_loop tracee (turn_of v ∷ rs) s ≡ tracer_loop tracee rs s'
  unfolding tracer_loop
  loop-turn tracee s tmps v rs s' h e =
      let (s1, called, returned) =
        and_then-ok (handle_syscall_call v.call tracee (to_int v.number) s) _ s' e in
      let waited_c =
        wait_loop-signal_stops s tracee v.turn_junk v.call_signals none [] h.call_signals in
      let waited_r =
        wait_loop-signal_stops s1 tracee v.turn_junk v.return_signals none [] h.return_signals in
      ground (arith, waited_c, called, waited_r, returned)

  -- A tracee whose record and table are in place, with the mutex free, that makes any calls in the
  -- statistics of files, with clocks that work and names that can be read, and then exits; signals may
  -- arrive before each stop at a call. The loop handles the calls in turn, each with its effect on the table
  -- that the ones before it have left, and ends; the tracee's record then has what the calls saved and
  -- points to the table that the last of them has left, with the mutex free, and the statistics of files are those of all the events
  -- of these calls, in their order.
  pub tracer_loop-Visits :
      (tracee : ℤ) (vs : List Visit) (last : Turn) (code : ℕ) (s : State) (tmps : ThreadTmps)
      (t : FdTable)
      → last.call_waits ≡ last_stop (some code) ∷ []
      → AreVisits vs tmps
      → IsReady s tracee tmps t
      → (s' : State) × (u : FdTable) × (es : Events) × (tracer_loop tracee (turns_of vs last) s
          ≡ ok leaves s')
        × Visits tmps t vs u es
        × IsReady s' tracee (records_of vs tmps) u
        × (s'.file_stat_table ≡ record_events s.file_stat_table es)
  unfolding tracer_loop record_events
  tracer_loop-Visits tracee [] last code s tmps t e h ready = (
    s,
    t,
    [],
    ground (arith, e, wait_loop-signal_stops s tracee last.junk [] (some code) [] tt),
    done,
    ready,
    refl,
  )
  tracer_loop-Visits tracee (v ∷ vs) last code s tmps t e (is, more) ready =
      let turned =
        call_return-Turned s tracee tmps t ready v.call v.return v.start v.end is.call_clock
          is.return_clock v.buffer (to_int v.number) v.what is.known is.name in
      let (s', u, es, runs, visits, left, events) =
        tracer_loop-Visits tracee vs last code turned.next (record_of v tmps) turned.table e more
          turned.ready in
      (
        s',
        u,
        (visit_effect v tmps t).events ++ es,
        loop-turn tracee s tmps v (turns_of vs last) turned.next is turned.runs ∙ runs,
        then turned.ops visits,
        left,
        events
            ∙ ap (λ f. record_events f es) turned.events
            ∙ sym (record_events-append s.file_stat_table (visit_effect v tmps t).events es),
      )
