-- ===== src/SyscallHandler/Round.antt =====
-- A call and its return together: what the call saves is what the return uses.
use iotrace.Base.{ℕ, ◌≡◌, refl, sym, true, false, some, List, ℤ}
use iotrace.Glib.{Glib}
use iotrace.Glib.Keys.{int_key}
use iotrace.Double.{Double}
use iotrace.FdTable
use iotrace.FdTable.{FdTable}
use iotrace.FdTable.Refinement.{run}
use iotrace.FileStat.History.{record_events}
use iotrace.Tracer.{Address, Run, ok, and_then, Timespec, ThreadTmps, State}
use iotrace.Tracer.Ready.{IsReady, update_here}
use iotrace.SyscallHandler.Stop.{Stop, elapsed}
use iotrace.SyscallHandler.Files.{known_name}
use iotrace.SyscallHandler.Dispatch.{handle_syscall_call, handle_syscall_return}
use iotrace.SyscallHandler.Considered.{
  Considered, Effect, open_named, open_at, close, read, write, socket, socketpair, pipe, eventfd,
  epoll, accept, kind, effect,
}
use iotrace.SyscallHandler.Effects.{HasEffect, affected}
use iotrace.SyscallHandler.Returns.{handle_syscall_return-effect}
use iotrace.SyscallHandler.Saves.{saved, NameRead, handle_syscall_call-HasSaved}

module _ ⦃g : Glib⦄ ⦃d : Double⦄ where
  -- A run that ends well, its effect, and the tracee ready afterwards.
  pub record Turned (s : State) (tracee : ℤ) (tmps : ThreadTmps) (t : FdTable) (e : Effect)
      (r : Run (Unit {0})) : Type 0 where
    pub next : State
    pub table : FdTable
    pub runs : r ≡ ok tt next
    pub ready : IsReady next tracee tmps table
    pub ops : run t e.ops ≡ some table
    pub events : next.file_stat_table ≡ record_events s.file_stat_table e.events

module _ ⦃g : Glib⦄ ⦃d : Double⦄ (s : State) (t : FdTable) (e : Effect) (r : Run (Unit {0})) where
  moved : (p q : Address) → p ≡ q → HasEffect s p t e r → HasEffect s q t e r
  moved p q same h = rw (sym same) h

module _ ⦃g : Glib⦄ ⦃d : Double⦄ (s : State) (tracee : ℤ) (tmps : ThreadTmps) (t : FdTable)
    (ready : IsReady s tracee tmps t) (stop_c stop_r : Stop) (start end : Timespec)
    (clock_c : stop_c.clock ≡ some start) (clock_r : stop_r.clock ≡ some end)
    (buffer : List ℕ) where
  -- The record between the call and the return.
  abbrev between : Considered → ThreadTmps
  between k = saved k stop_c buffer start tmps

  -- What a return needs of the record: a call leaves the pointers to the table and the mutex.
  between-IsReady :
      (k : Considered) (table : g.Table int_key ThreadTmps)
      → g.lookup table tracee ≡ some (between k)
      → IsReady (record s { thread_tmps_table = table }) tracee (between k) t
  between-IsReady open_named table own = record {
    found = own;
    table = ready.table;
    mutex = ready.mutex;
  }
  between-IsReady open_at table own = record {
    found = own;
    table = ready.table;
    mutex = ready.mutex;
  }
  between-IsReady close table own = record { found = own; table = ready.table; mutex = ready.mutex }
  between-IsReady read table own = record { found = own; table = ready.table; mutex = ready.mutex }
  between-IsReady write table own = record { found = own; table = ready.table; mutex = ready.mutex }
  between-IsReady socket table own = record {
    found = own;
    table = ready.table;
    mutex = ready.mutex;
  }
  between-IsReady socketpair table own = record {
    found = own;
    table = ready.table;
    mutex = ready.mutex;
  }
  between-IsReady (pipe false) table own = record {
    found = own;
    table = ready.table;
    mutex = ready.mutex;
  }
  between-IsReady (pipe true) table own = record {
    found = own;
    table = ready.table;
    mutex = ready.mutex;
  }
  between-IsReady (eventfd false) table own = record {
    found = own;
    table = ready.table;
    mutex = ready.mutex;
  }
  between-IsReady (eventfd true) table own = record {
    found = own;
    table = ready.table;
    mutex = ready.mutex;
  }
  between-IsReady (epoll false) table own = record {
    found = own;
    table = ready.table;
    mutex = ready.mutex;
  }
  between-IsReady (epoll true) table own = record {
    found = own;
    table = ready.table;
    mutex = ready.mutex;
  }
  between-IsReady (accept false) table own = record {
    found = own;
    table = ready.table;
    mutex = ready.mutex;
  }
  between-IsReady (accept true) table own = record {
    found = own;
    table = ready.table;
    mutex = ready.mutex;
  }

  between-fd_table : (k : Considered) → (between k).fd_table ≡ tmps.fd_table
  between-fd_table open_named = refl
  between-fd_table open_at = refl
  between-fd_table close = refl
  between-fd_table read = refl
  between-fd_table write = refl
  between-fd_table socket = refl
  between-fd_table socketpair = refl
  between-fd_table (pipe false) = refl
  between-fd_table (pipe true) = refl
  between-fd_table (eventfd false) = refl
  between-fd_table (eventfd true) = refl
  between-fd_table (epoll false) = refl
  between-fd_table (epoll true) = refl
  between-fd_table (accept false) = refl
  between-fd_table (accept true) = refl

  return-effect :
      (sc : ℤ) (k : Considered)
      → kind sc ≡ some k
      → (table : g.Table int_key ThreadTmps) → g.lookup table tracee ≡ some (between k)
      → HasEffect
          (record s { thread_tmps_table = table })
          tmps.fd_table
          t
          (effect k stop_r
            (between k)
            (known_name (FdTable.lookup t (between k).int_a))
            (elapsed start end))
          (handle_syscall_return stop_r tracee sc (record s { thread_tmps_table = table }))
  return-effect sc k e table own = moved _ _ _ _ _ _ (between-fd_table k) (
      handle_syscall_return-effect (record s { thread_tmps_table = table }) tracee (between k) t
        (between-IsReady k table own) stop_r end clock_r sc k e)

  -- A call that is in the statistics of files and then its return, of one tracee whose record and
  -- table are in place, with the mutex free, a clock that works at both stops, and, for an open, a
  -- name that can be read: both end well, and together they change the record of the tracee, and
  -- then the table and the statistics by the effect that the arguments of the call and the result of
  -- the return have, with the time between the two readings of the clock.
  pub call_return-effect :
      (sc : ℤ) (k : Considered)
      → kind sc ≡ some k
      → NameRead k stop_c tmps buffer
      → (table : g.Table int_key ThreadTmps) × HasEffect
          (record s { thread_tmps_table = table })
          tmps.fd_table
          t
          (effect k stop_r
            (between k)
            (known_name (FdTable.lookup t (between k).int_a))
            (elapsed start end))
          (and_then
            (handle_syscall_call stop_c tracee sc s)
            (λ _. handle_syscall_return stop_r tracee sc))
  call_return-effect sc k e n =
      let has =
        handle_syscall_call-HasSaved s tracee tmps ready.found stop_c start clock_c buffer sc k e
          n in
      (has.table, rw has.runs (return-effect sc k e has.table has.own))

  -- The same, with what the next call of the tracee needs: its record, table and mutex are in place.
  pub call_return-Turned :
      (sc : ℤ) (k : Considered)
      → kind sc ≡ some k
      → NameRead k stop_c tmps buffer
      → Turned s tracee
          (between k)
          t
          (effect k stop_r
            (between k)
            (known_name (FdTable.lookup t (between k).int_a))
            (elapsed start end))
          (and_then
            (handle_syscall_call stop_c tracee sc s)
            (λ _. handle_syscall_return stop_r tracee sc))
  call_return-Turned sc k e n =
      let has =
        handle_syscall_call-HasSaved s tracee tmps ready.found stop_c start clock_c buffer sc k e
          n in
      let (t', ops, runs) = return-effect sc k e has.table has.own in
      record {
        next =
            affected (record s { thread_tmps_table = has.table }) tmps.fd_table t'
              (effect k stop_r (between k) (known_name (FdTable.lookup t (between k).int_a))
                (elapsed start end)).events;
        table = t';
        runs = rw has.runs runs;
        ready = record {
          found = has.own;
          table = rw (between-fd_table k) (update_here s.fd_tables tmps.fd_table (some t'));
          mutex = (between-IsReady k has.table has.own).mutex;
        };
        ops = ops;
        events = refl;
      }
