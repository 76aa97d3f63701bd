-- ===== src/Program/Runs.antt =====
-- What a run of one thread leaves of the records of all, and what it adds to the thread's statistics.
use mathlib.Core.Path.{subst}
use iotrace.Base.{
  ◌≡◌, refl, Bool, false, Option, none, some, [], ◌∷◌, arith, ltb, is_some, foldl, ℤ, eq_ℤ,
  eq_ℤ_iff, sym, ◌∙◌, inl, inr, Bool-cases, Option-cases,
}
use iotrace.Glib.{Glib}
use iotrace.Double.{Double}
use iotrace.FdTable
use iotrace.FdTable.{FdTable}
use iotrace.FileStat.History.{Events, record_events}
use iotrace.SyscallStat.Summary.{Calls, record_calls}
use iotrace.Tracer.{ThreadTmps, State, Run, ok}
use iotrace.Tracer.Ready.{IsReady}
use iotrace.SyscallHandler.Sys
use iotrace.SyscallHandler.Stop.{Stop, elapsed}
use iotrace.SyscallHandler.Files.{known_name}
use iotrace.SyscallHandler.Unconsidered.{handle_execve_return}
use iotrace.SyscallHandler.Dispatch.{handle_syscall_call, handle_syscall_return, apply_unconsidered}
use iotrace.SyscallHandler.Considered.{Considered, kind, effect}
use iotrace.SyscallHandler.Returns.{dispatch, returns, handle_syscall_return-effect}
use iotrace.SyscallHandler.Others.{counted, Ends, unconsidered-counted, handle_syscall_return-other}
use iotrace.SyscallHandler.Saves.{HasSaved, handle_syscall_call-HasSaved}
use iotrace.SyscallHandler.OtherSaves.{handle_syscall_call-other}
use iotrace.Main.Runs.{
  IsShared, alone, taking, unshared_state, taken_state, cleaned_state, execve-unshared,
  execve-cleaned, late-unshared, late-taken,
}
use iotrace.Ownership.Sound.{uses, users, IsSound, IsSound-IsShared}
use iotrace.Ownership.Continues.{switch-GoesOn}
use iotrace.Glib.Count.{count_table-one}
use iotrace.Base.{==_iff, true}
use iotrace.Tracer.{and_then}
use iotrace.SyscallHandler.Unconsidered.{after_test, handle_unconsidered_return}
use iotrace.Ownership.Actions
use iotrace.Ownership.Actions.{Stops}
use iotrace.Program.{adds_events, adds_calls}

module _ ⦃g : Glib⦄ ⦃d : Double⦄ where
  -- Whether a tracee has a record.
  abbrev pub recorded : State → ℤ → Bool
  recorded s i = is_some (g.lookup s.thread_tmps_table i)

  -- The records are those of the same tracees, and the statistics have more events and calls.
  pub record Adds (s : State) (es : Events) (cs : Calls) (u : State) : Type 0 where
    pub records : (i : ℤ) → recorded u i ≡ recorded s i
    pub files : u.file_stat_table ≡ record_events s.file_stat_table es
    pub sums : u.syscall_table ≡ record_calls s.syscall_table cs

  HasSaved-Adds :
      (s u : State) (tracee : ℤ) (tmps tmps' : ThreadTmps) (r : Run (Unit {0}))
      → g.lookup s.thread_tmps_table tracee ≡ some tmps
      → HasSaved s tracee tmps' r
      → r ≡ ok tt u
      → Adds s [] [] u
  unfolding record_events record_calls foldl
  HasSaved-Adds s u tracee tmps tmps' r found has e =
      let same : record s { thread_tmps_table = has.table } ≡ u = let f = has.runs in cc in
      subst (Adds s [] []) same (record {
        records = λ i. ground (arith, found, has.own, has.others i, eq_ℤ_iff tracee i);
        files = refl;
        sums = refl;
      })

  pub call-Adds :
      (s u : State) (tracee sc : ℤ) (stop : Stop)
      → Actions.Calls s tracee sc stop
      → handle_syscall_call stop tracee sc s ≡ ok tt u
      → Adds s [] [] u
  call-Adds s u tracee sc stop c e =
      let st = c.stops in
      elim (Option-cases (kind sc)) [
        | inl n ↦
            HasSaved-Adds s u tracee st.tmps _ _ st.found
              (handle_syscall_call-other s tracee st.tmps st.found stop st.now st.clock sc n) e
        | inr (k, n) ↦
            let (buffer, name) = c.named k n in
            HasSaved-Adds s u tracee st.tmps _ _ st.found
              (handle_syscall_call-HasSaved s tracee st.tmps st.found stop st.now st.clock buffer sc
                k n name)
              e
      ]

  -- What a return does, from the state that it ends in.
  ends-Adds :
      (s v u : State) (es : Events) (cs : Calls) (r : Run (Unit {0}))
      → r ≡ ok tt v
      → r ≡ ok tt u
      → Adds s es cs v
      → Adds s es cs u
  ends-Adds s v u es cs r e f h = let same : v ≡ u = cc in subst (Adds s es cs) same h

module _ ⦃g : Glib⦄ ⦃d : Double⦄ (s u : State) (h : IsSound s) (tracee : ℤ) (stop : Stop)
    (st : Stops s tracee stop) (files : FdTable)
    (table : s.fd_tables st.tmps.fd_table ≡ some files) where
  abbrev one_call : ℤ → Calls
  one_call sc = (sc, elapsed st.tmps.start_time st.now) ∷ []

  abbrev pub seen : ℤ → State
  seen sc = counted s (one_call sc)

  other-Adds :
      (sc : ℤ) (o : Option FdTable)
      → Ends (seen sc) st.tmps.fd_table o (handle_syscall_return stop tracee sc s)
      → handle_syscall_return stop tracee sc s ≡ ok tt u
      → Adds s [] (one_call sc) u
  unfolding record_events foldl
  other-Adds sc none f e = ground (arith, f, e)
  other-Adds sc (some t) f e =
      ends-Adds s _ u [] (one_call sc) _ f e
        (record { records = λ i. refl; files = refl; sums = refl })

  -- The mutex of a tracee's table is free, in a state where the records are in order.
  free : s.mutexes st.tmps.fd_mutex ≡ some false
  free = (h.held tracee st.tmps st.found).mutex

  abbrev is_ready : IsReady s tracee st.tmps files
  is_ready = record { found = st.found; table = table; mutex = free }

  pub execve-runs :
      handle_syscall_return stop tracee Sys.execve s ≡ handle_execve_return tracee (seen Sys.execve)
  unfolding apply_unconsidered
  execve-runs =
      rw
        (
          dispatch stop tracee Sys.execve s,
          returns,
          unconsidered-counted s tracee st.tmps files is_ready stop st.now st.clock Sys.execve,
        )
        refl

  execve-Adds :
      handle_syscall_return stop tracee Sys.execve s ≡ ok tt u → Adds s [] (one_call Sys.execve) u
  unfolding record_events foldl
  execve-Adds e =
      let (t, is) = IsSound-IsShared s tracee st.tmps h st.found in
      let n = users s st.tmps.share_count in
      let now_is : IsShared (seen Sys.execve) tracee st.tmps t n = record {
        found = is.found;
        table = is.table;
        mutex = is.mutex;
        count = is.count;
        old_table = is.old_table;
        old_mutex = is.old_mutex;
        old_count = is.old_count;
      } in
      elim (Bool-cases (ltb 1 n)) [
        | inl more ↦
            ends-Adds s (unshared_state (seen Sys.execve) tracee st.tmps t n) u []
              (one_call Sys.execve) _
              (execve-runs
                ∙ execve-unshared (seen Sys.execve) tracee st.tmps t n now_is
                    (ground (arith, more)))
              e
              (record {
                records = λ i. ground (
                  arith,
                  g.lookup-modify s.thread_tmps_table tracee
                      (alone (seen Sys.execve) tracee st.tmps t n) i,
                );
                files = refl;
                sums = refl;
              })
        | inr few ↦
            ends-Adds s (cleaned_state (seen Sys.execve) tracee st.tmps t n) u []
              (one_call Sys.execve) _
              (execve-runs
                ∙ execve-cleaned (seen Sys.execve) tracee st.tmps t n now_is (ground (arith, few)))
              e (record { records = λ i. refl; files = refl; sums = refl })
      ]

  -- The return of execve where others have gone on after its test of the count.
  abbrev pub late_return : Run (Unit {0})
  late_return =
      and_then (handle_unconsidered_return stop tracee Sys.execve s) (λ _. after_test tracee true)

  pub late_return-runs : late_return ≡ after_test tracee true (seen Sys.execve)
  late_return-runs =
      rw (unconsidered-counted s tracee st.tmps files is_ready stop st.now st.clock Sys.execve) refl

  pub late-Adds : late_return ≡ ok tt u → Adds s [] (one_call Sys.execve) u
  unfolding record_events foldl
  late-Adds e =
      let v = seen Sys.execve in
      let (t, is) =
        IsSound-IsShared v tracee st.tmps (switch-GoesOn s h s.file_stat_table v.syscall_table)
          st.found in
      let n = users v st.tmps.share_count in
      let some_user =
        count_table-one (uses st.tmps.share_count) s.thread_tmps_table tracee st.tmps st.found
          ((==_iff st.tmps.share_count st.tmps.share_count).1 refl) in
      elim (Bool-cases (ltb 1 n)) [
        | inl more ↦
            ends-Adds s (unshared_state v tracee st.tmps t n) u [] (one_call Sys.execve) _
              (late_return-runs ∙ late-unshared v tracee st.tmps t n is (ground (arith, more))) e
              (record {
                records = λ i. ground (
                  arith,
                  g.lookup-modify s.thread_tmps_table tracee (alone v tracee st.tmps t n) i,
                );
                files = refl;
                sums = refl;
              })
        | inr few ↦
            ends-Adds s (taken_state v tracee st.tmps t n) u [] (one_call Sys.execve) _
              (late_return-runs
                ∙ late-taken v tracee st.tmps t n is (ground (arith, few, some_user)))
              e
              (record {
                records = λ i. ground (
                  arith,
                  g.lookup-modify s.thread_tmps_table tracee (taking v tracee st.tmps t n) i,
                );
                files = refl;
                sums = refl;
              })
      ]

  considered-Adds :
      (sc : ℤ) (k : Considered)
      → kind sc ≡ some k
      → handle_syscall_return stop tracee sc s ≡ ok tt u
      → Adds s
          (effect k stop st.tmps
            (known_name (FdTable.lookup files st.tmps.int_a))
            (elapsed st.tmps.start_time st.now)).events
          []
          u
  unfolding record_calls foldl
  considered-Adds sc k n e =
      let (t', ops, runs) =
        handle_syscall_return-effect s tracee st.tmps files is_ready stop st.now st.clock sc k n in
      ends-Adds s _ u _ [] _ runs e (record { records = λ i. refl; files = refl; sums = refl })

  -- A return that ends well adds what the specification of its call says.
  pub return-Adds :
      (sc : ℤ)
      → handle_syscall_return stop tracee sc s ≡ ok tt u
      → Adds s (adds_events sc stop st.tmps files st.now) (adds_calls sc st.tmps st.now) u
  return-Adds sc e = elim (Option-cases (kind sc)) [
    | inr (k, n) ↦ rw (adds_events, adds_calls, n) (considered-Adds sc k n e)
    | inl n ↦
        rw (adds_events, adds_calls, n)
          (elim (Bool-cases (eq_ℤ sc Sys.execve)) [
            | inl x ↦
                let same = (eq_ℤ_iff sc Sys.execve).0 x in
                subst (λ k. Adds s [] (one_call k) u) (sym same)
                  (execve-Adds
                    (subst (λ k. handle_syscall_return stop tracee k s ≡ ok tt u) same e))
            | inr x ↦
                other-Adds sc _
                  (handle_syscall_return-other s tracee st.tmps files is_ready stop st.now st.clock
                    sc n x).0
                  e
          ])
  ]
