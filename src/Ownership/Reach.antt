-- ===== src/Ownership/Reach.antt =====
-- All that can happen to the records of the tracees, from the start of `main_tracer` in src/main.c.
use mathlib.Core.Path.{subst}
use iotrace.Base.{◌≡◌, refl, false, Option, none, some, arith, ==_iff, ℤ, inl, inr}
use iotrace.Glib.{Glib}
use iotrace.Glib.Keys.{int_key}
use iotrace.Glib.Count.{count-change, count_table-none}
use iotrace.Double.{Double}
use iotrace.FdTable
use iotrace.FileStat.{FileStatTable}
use iotrace.SyscallStat.{SyscallTable}
use iotrace.Tracer.{Address, ThreadTmps, State, Run, ok, Cmd, ◌>>=◌, ◌>>◌}
use iotrace.Tracer.Memory.{malloc, store_table, update}
use iotrace.Tracer.Temporaries.{thread_tmps_insert}
use iotrace.Ownership.Owners.{HasOwners}
use iotrace.Ownership.Sound.{uses, IsSound, set-IsSound}
use iotrace.Ownership.Actions.{
  Action, calls, returns_from, execs_late, begins_with, ends, switches, act, IsAllowed, GoesOn,
  Outcome,
}
use iotrace.Ownership.Outcomes.{act-Outcome}

no_value : {A : Type 0} (o : Option A) → ((a : A) → ¬ (o ≡ some a)) → o ≡ none
no_value none h = refl
no_value (some a) h = absurd (h a refl)

module _ ⦃g : Glib⦄ ⦃d : Double⦄ where
  -- The table and the record of the first tracee.
  unfoldable pub main_start : ThreadTmps → ℤ → Cmd (Unit {0})
  unfolding thread_tmps_insert
  main_start raw tracee = do
    main_fd_table ← malloc
    store_table main_fd_table FdTable.create
    thread_tmps_insert raw tracee main_fd_table none

  -- Nothing is allocated yet, and there is no record.
  abbrev pub blank : FileStatTable → SyscallTable → State
  blank files sums = record {
    next = 0;
    fd_tables = λ p. none;
    share_counts = λ p. none;
    mutexes = λ p. none;
    thread_tmps_table = g.new int_key ThreadTmps;
    file_stat_table = files;
    syscall_table = sums;
  }

  -- The states after any actions that can be and that do not fault.
  pub data Reach (s : State) : State → Type 0 where
    here : Reach s s
    later : {t u : State} → Reach s t → (a : Action) → IsAllowed t a → act a t ≡ ok tt u → Reach s u

  nobody :
      (files : FileStatTable) (sums : SyscallTable) (i : ℤ) (a : ThreadTmps)
      → ¬ (g.lookup (blank files sums).thread_tmps_table i ≡ some a)
  nobody files sums i a e = ground (arith, e, g.lookup-new int_key ThreadTmps i)

  blank-IsSound : (files : FileStatTable) (sums : SyscallTable) → IsSound (blank files sums)
  blank-IsSound files sums = record {
    held = λ i a e. absurd (nobody files sums i a e);
    agreed = λ i j a b e f. absurd (nobody files sums i a e);
    owners = record { table = λ p t e. cc; count = λ p n e. cc; mutex = λ p b e. cc };
  }

  abbrev pub first : ThreadTmps → ThreadTmps
  first raw = record raw { fd_table = 0; share_count = 1; fd_mutex = 2 }

  abbrev pub started : ThreadTmps → ℤ → FileStatTable → SyscallTable → State
  started raw tracee files sums = record (blank files sums) {
    next = 3;
    fd_tables = update (λ p. none) 0 (some FdTable.create);
    share_counts = update (update (λ p. none) 1 (some 0)) 1 (some 1);
    mutexes = update (λ p. none) 2 (some false);
    thread_tmps_table = g.insert (g.new int_key ThreadTmps) tracee (first raw);
  }

  pub main_start-started :
      (raw : ThreadTmps) (tracee : ℤ) (files : FileStatTable) (sums : SyscallTable)
      → main_start raw tracee (blank files sums) ≡ ok tt (started raw tracee files sums)
  unfolding main_start
  main_start-started raw tracee files sums = ground (arith, g.lookup-new int_key ThreadTmps tracee)

  started-HasOwners :
      (raw : ThreadTmps) (tracee : ℤ) (files : FileStatTable) (sums : SyscallTable)
      → HasOwners (started raw tracee files sums)
  started-HasOwners raw tracee files sums =
      let own : g.lookup (started raw tracee files sums).thread_tmps_table tracee
          ≡ some (first raw) =
        ground (
          arith,
          g.lookup-insert (g.new int_key ThreadTmps) tracee (first raw) tracee,
          int_key.same_refl tracee,
        ) in
      record {
        table = λ p t e. record {
          tracee = tracee;
          tmps = first raw;
          found = own;
          points = ground (arith, e, ==_iff 0 p);
        };
        count = λ p n e. record {
          tracee = tracee;
          tmps = first raw;
          found = own;
          points = ground (arith, e, ==_iff 1 p);
        };
        mutex = λ p b e. record {
          tracee = tracee;
          tmps = first raw;
          found = own;
          points = ground (arith, e, ==_iff 2 p);
        };
      }

  pub started-IsSound :
      (raw : ThreadTmps) (tracee : ℤ) (files : FileStatTable) (sums : SyscallTable)
      → IsSound (started raw tracee files sums)
  started-IsSound raw tracee files sums =
      let s = blank files sums in
      let look = g.lookup-insert s.thread_tmps_table tracee (first raw) in
      let alone =
        count_table-none (uses 1) s.thread_tmps_table (λ j v e. absurd (nobody files sums j v e)) in
      set-IsSound s (started raw tracee files sums) tracee (first raw) (blank-IsSound files sums)
        (started-HasOwners raw tracee files sums) look
        (λ j a other e. absurd (nobody files sums j a e))
        (record {
          files = FdTable.create;
          table = ground arith;
          mutex = ground arith;
          count = ground (
            arith,
            alone,
            g.lookup-new int_key ThreadTmps tracee,
            count-change (uses 1) s.thread_tmps_table
                (started raw tracee files sums).thread_tmps_table tracee (some (first raw)) look,
          );
          old_table = omega arith;
          old_mutex = omega arith;
          old_count = omega arith;
        })
        (λ j a other e. absurd (nobody files sums j a e))

  ok-IsSound : (r : Run (Unit {0})) (u : State) → r ≡ ok tt u → GoesOn r → IsSound u
  ok-IsSound r u e (s', f, h) = let same : s' ≡ u = cc in subst IsSound same h

  Outcome-IsSound :
      (s : State) (a : Action) (r : Run (Unit {0})) (u : State)
      → Outcome s a r
      → r ≡ ok tt u
      → IsSound u
  Outcome-IsSound s (calls tracee sc stop) r u o e = ok-IsSound r u e o
  Outcome-IsSound s (returns_from tracee sc stop) r u (inl o) e = ok-IsSound r u e o
  Outcome-IsSound s (returns_from tracee sc stop) r u (inr m) e =
      absurd (ground (arith, m.faults, e))
  Outcome-IsSound s (execs_late tracee) r u o e = ok-IsSound r u e o
  Outcome-IsSound s (begins_with raw child parent flags) r u o e = ok-IsSound r u e o
  Outcome-IsSound s (ends tracee files sums) r u o e = ok-IsSound r u e o
  Outcome-IsSound s (switches files sums) r u o e = ok-IsSound r u e o

  pub act-IsSound :
      (s u : State) → IsSound s → (a : Action) → IsAllowed s a → act a s ≡ ok tt u → IsSound u
  act-IsSound s u h a p e = Outcome-IsSound s a (act a s) u (act-Outcome s h a p) e

  -- Every action from a state where the records are in order leads to such a state.
  pub Reach-IsSound : {s t : State} → IsSound s → Reach s t → IsSound t
  Reach-IsSound h here = h
  Reach-IsSound h (later {t} {u} r a p e) = act-IsSound t u (Reach-IsSound h r) a p e

  -- `main_tracer` comes to a state with one record, and after any actions from there on, of any
  -- threads and in any order, at the return of execve also with others between its test of the count
  -- and what follows, where each can be (its tracee has a record, the clock works, the name of
  -- a file can be read, a new tracee has no record) and does not fault: each record points to a table,
  -- a count and a free mutex that are there, the count is the number of the records that point to it,
  -- two records have all three in common or none of them, and every table, count and mutex that is
  -- allocated is pointed to by a record.
  pub main_start-Reach :
      (raw : ThreadTmps) (tracee : ℤ) (files : FileStatTable) (sums : SyscallTable)
      → (s : State) × (main_start raw tracee (blank files sums) ≡ ok tt s)
        × ((t : State) → Reach s t → IsSound t)
  main_start-Reach raw tracee files sums = (
    started raw tracee files sums,
    main_start-started raw tracee files sums,
    λ t r. Reach-IsSound (started-IsSound raw tracee files sums) r,
  )

  pub IsSound-empty :
      (s : State)
      → IsSound s
      → ((i : ℤ) → g.lookup s.thread_tmps_table i ≡ none)
      → (p : Address) → (s.fd_tables p ≡ none) × (s.share_counts p ≡ none) × (s.mutexes p ≡ none)
  IsSound-empty s h empty p = (
    no_value (s.fd_tables p)
        (λ t e. let w = h.owners.table p t e in ground (arith, w.found, empty w.tracee)),
    no_value (s.share_counts p)
        (λ n e. let w = h.owners.count p n e in ground (arith, w.found, empty w.tracee)),
    no_value (s.mutexes p)
        (λ b e. let w = h.owners.mutex p b e in ground (arith, w.found, empty w.tracee)),
  )
