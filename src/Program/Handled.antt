-- ===== src/Program/Handled.antt =====
-- What a run of one thread of src/main.c does to the descriptors of all tracees.
use mathlib.Core.Path.{subst}
use iotrace.Base.{
  ◌≡◌, refl, ◌∙◌, arith, Bool, ltb, Option, none, some, [], ◌∷◌, if◌then◌else◌, ℤ, eq_ℤ, eq_ℤ_iff,
  to_int, ==_iff, inl, inr, Bool-cases, Option-cases,
}
use iotrace.Glib.{Glib}
use iotrace.Glib.Count.{count_table-one}
use iotrace.Double.{Double}
use iotrace.FdTable
use iotrace.FdTable.{FdTable}
use iotrace.FdTable.Refinement.{run}
use iotrace.Tracer.{Timespec, ThreadTmps, State, Run, ok, and_then}
use iotrace.Tracer.Ready.{IsReady, with_table}
use iotrace.Tracer.Temporaries.{thread_tmps_remove}
use iotrace.SyscallHandler.Sys
use iotrace.SyscallHandler.Stop.{Stop, rax, elapsed}
use iotrace.SyscallHandler.Files.{known_name}
use iotrace.SyscallHandler.Dispatch.{handle_syscall_call, handle_syscall_return}
use iotrace.SyscallHandler.Considered.{kind, effect}
use iotrace.SyscallHandler.Effects.{affected}
use iotrace.SyscallHandler.Returns.{handle_syscall_return-effect}
use iotrace.SyscallHandler.Others.{other_ops, counted, Ends, handle_syscall_return-other}
use iotrace.SyscallHandler.Saves.{HasSaved, handle_syscall_call-HasSaved}
use iotrace.SyscallHandler.OtherSaves.{handle_syscall_call-other}
use iotrace.Main.Threads.{shares_files, threads_add, thread_begin}
use iotrace.Main.Runs.{
  unshared_state, taken_state, late-unshared, late-taken, cleaned_state, last_state, left_state,
  begins-joined, begins-copied, execve-unshared, execve-cleaned,
}
use iotrace.Ownership.Sound.{uses, users, IsSame, IsSound, IsSound-IsShared}
use iotrace.Ownership.Actions
use iotrace.Ownership.Actions.{Stops}
use iotrace.Ownership.Continues.{switch-GoesOn, saved-IsSame, other_saved-IsSame}
use iotrace.Program.{adds_events}
use iotrace.Program.Runs.{execve-runs, late_return, late_return-runs}
use iotrace.Program.Records.{remove-last, remove-left}
use iotrace.Program.Descriptors.{
  Did, nothing, works, execs, joins, copies, ends, Moves, held_by, descriptors,
}
use iotrace.Program.Tables.{works-Moves, joined-Moves, copied-Moves, unshared-Moves, stays-Moves}
use iotrace.Program.Lone.{taken-Moves, cleaned-Moves, last-Moves, left-Moves}

module _ ⦃g : Glib⦄ ⦃d : Double⦄ where
  -- What a return does to the descriptors, as the specification of the calls has it.
  abbrev pub did_by_return : ℤ → ℤ → Stop → ThreadTmps → FdTable → Timespec → Did
  did_by_return tracee sc stop tmps files now = elim (kind sc) [
    | none ↦
        if eq_ℤ sc Sys.execve
        then execs tracee
        else works tracee (other_ops sc tmps (to_int (stop.peek_user rax)))
    | some k ↦
        let name = known_name (FdTable.lookup files tmps.int_a) in
        works tracee (effect k stop tmps name (elapsed tmps.start_time now)).ops
  ]

  -- A run that comes to one state and to another comes to the same.
  ends-Moves :
      (w v u : State) (x : Did) (r : Run (Unit {0}))
      → r ≡ ok tt v
      → r ≡ ok tt u
      → Moves (descriptors w) (descriptors v) x
      → Moves (descriptors w) (descriptors u) x
  ends-Moves w v u x r e f m =
      let same : v ≡ u = cc in subst (λ s. Moves (descriptors w) (descriptors s) x) same m

  saved-Moves :
      (s u : State) (tracee : ℤ) (tmps tmps' : ThreadTmps) (r : Run (Unit {0}))
      → g.lookup s.thread_tmps_table tracee ≡ some tmps
      → IsSame tmps tmps'
      → HasSaved s tracee tmps' r
      → r ≡ ok tt u
      → Moves (descriptors s) (descriptors u) nothing
  saved-Moves s u tracee tmps tmps' r found same has e =
      ends-Moves s (record s { thread_tmps_table = has.table }) u nothing r has.runs e
        (stays-Moves s (record s { thread_tmps_table = has.table }) (λ p. refl)
          (λ i. elim (Bool-cases (eq_ℤ tracee i)) [
            | inl x ↦ ground (arith, (eq_ℤ_iff tracee i).0 x, found, has.own, same.table)
            | inr x ↦ rw (held_by, has.others i x) refl
          ]))

  pub call-Moves :
      (s u : State) (tracee sc : ℤ) (stop : Stop)
      → Actions.Calls s tracee sc stop
      → handle_syscall_call stop tracee sc s ≡ ok tt u
      → Moves (descriptors s) (descriptors u) nothing
  call-Moves s u tracee sc stop c e =
      let st = c.stops in
      elim (Option-cases (kind sc)) [
        | inl n ↦
            saved-Moves s u tracee st.tmps _ _ st.found (other_saved-IsSame sc stop st.now st.tmps)
              (handle_syscall_call-other s tracee st.tmps st.found stop st.now st.clock sc n) e
        | inr (k, n) ↦
            let (buffer, name) = c.named k n in
            saved-Moves s u tracee st.tmps _ _ st.found (saved-IsSame k stop buffer st.now st.tmps)
              (handle_syscall_call-HasSaved s tracee st.tmps st.found stop st.now st.clock buffer sc
                k n name)
              e
      ]

module _ ⦃g : Glib⦄ ⦃d : Double⦄ (s u : State) (h : IsSound s) (tracee : ℤ) (stop : Stop)
    (st : Stops s tracee stop) (files : FdTable)
    (table : s.fd_tables st.tmps.fd_table ≡ some files) where
  abbrev is_ready : IsReady s tracee st.tmps files
  is_ready = record {
    found = st.found;
    table = table;
    mutex = (h.held tracee st.tmps st.found).mutex;
  }

  abbrev seen : ℤ → State
  seen sc = counted s ((sc, elapsed st.tmps.start_time st.now) ∷ [])

  other-Moves :
      (sc : ℤ) (o : Option FdTable)
      → run files (other_ops sc st.tmps (to_int (stop.peek_user rax))) ≡ o
      → Ends (seen sc) st.tmps.fd_table o (handle_syscall_return stop tracee sc s)
      → handle_syscall_return stop tracee sc s ≡ ok tt u
      → Moves
          (descriptors s)
          (descriptors u)
          (works tracee (other_ops sc st.tmps (to_int (stop.peek_user rax))))
  other-Moves sc none r f e = absurd (ground (arith, f, e))
  other-Moves sc (some t) r f e = ends-Moves s (with_table (seen sc) st.tmps.fd_table t) u _ _ f e (
      works-Moves s tracee st.tmps files st.found table (with_table (seen sc) st.tmps.fd_table t) t
        _ r (λ p. refl) (λ i. refl))

  execve-Moves :
      handle_syscall_return stop tracee Sys.execve s ≡ ok tt u
      → Moves (descriptors s) (descriptors u) (execs tracee)
  execve-Moves e =
      let v = seen Sys.execve in
      let hv : IsSound v = switch-GoesOn s h s.file_stat_table v.syscall_table in
      let (t, is) = IsSound-IsShared v tracee st.tmps hv st.found in
      let n = users v st.tmps.share_count in
      let runs = execve-runs s u h tracee stop st files table in
      elim (Bool-cases (ltb 1 n)) [
        | inl more ↦
            ends-Moves s (unshared_state v tracee st.tmps t n) u _ _
              (runs ∙ execve-unshared v tracee st.tmps t n is (ground (arith, more))) e
              (unshared-Moves v hv tracee st.tmps t n is)
        | inr few ↦
            ends-Moves s (cleaned_state v tracee st.tmps t n) u _ _
              (runs ∙ execve-cleaned v tracee st.tmps t n is (ground (arith, few))) e
              (cleaned-Moves v hv tracee st.tmps st.found t is.table n (ground (arith, few)))
      ]

  -- The same where others have gone on after the test of the count.
  pub late-Moves :
      late_return s u h tracee stop st files table ≡ ok tt u
      → Moves (descriptors s) (descriptors u) (execs tracee)
  late-Moves e =
      let v = seen Sys.execve in
      let hv : IsSound v = switch-GoesOn s h s.file_stat_table v.syscall_table in
      let (t, is) = IsSound-IsShared v tracee st.tmps hv st.found in
      let n = users v st.tmps.share_count in
      let runs = late_return-runs s u h tracee stop st files table in
      let some_user =
        count_table-one (uses st.tmps.share_count) s.thread_tmps_table tracee st.tmps st.found
          ((==_iff st.tmps.share_count st.tmps.share_count).1 refl) in
      elim (Bool-cases (ltb 1 n)) [
        | inl more ↦
            ends-Moves s (unshared_state v tracee st.tmps t n) u _ _
              (runs ∙ late-unshared v tracee st.tmps t n is (ground (arith, more))) e
              (unshared-Moves v hv tracee st.tmps t n is)
        | inr few ↦
            ends-Moves s (taken_state v tracee st.tmps t n) u _ _
              (runs ∙ late-taken v tracee st.tmps t n is (ground (arith, few, some_user))) e
              (taken-Moves v hv tracee st.tmps st.found t is.table (ground (arith, few)) n)
      ]

  pub return-Moves :
      (sc : ℤ)
      → handle_syscall_return stop tracee sc s ≡ ok tt u
      → Moves (descriptors s) (descriptors u) (did_by_return tracee sc stop st.tmps files st.now)
  return-Moves sc e = elim (Option-cases (kind sc)) [
    | inr (k, n) ↦
        let (t', ops, runs) =
          handle_syscall_return-effect s tracee st.tmps files is_ready stop st.now st.clock sc k
            n in
        rw (did_by_return, n)
          (ends-Moves s _ u _ _ runs e (
            works-Moves s tracee st.tmps files st.found table
              (affected s st.tmps.fd_table t' (adds_events sc stop st.tmps files st.now)) t' _ ops
              (λ p. refl) (λ i. refl)))
    | inl n ↦ elim (Bool-cases (eq_ℤ sc Sys.execve)) [
      | inl x ↦
          let same = (eq_ℤ_iff sc Sys.execve).0 x in
          rw (did_by_return, n, x)
            (execve-Moves (subst (λ k. handle_syscall_return stop tracee k s ≡ ok tt u) same e))
      | inr x ↦
          rw (did_by_return, n, x)
            (other-Moves sc _ refl
              (handle_syscall_return-other s tracee st.tmps files is_ready stop st.now st.clock sc n
                x).0
              e)
    ]
  ]

module _ ⦃g : Glib⦄ ⦃d : Double⦄ (s u : State) (h : IsSound s) (tracee : ℤ) (tmps : ThreadTmps)
    (found : g.lookup s.thread_tmps_table tracee ≡ some tmps) where
  pub begin-Moves :
      (raw : ThreadTmps) (child flags : ℤ)
      → g.lookup s.thread_tmps_table child ≡ none
      → and_then (threads_add child tracee flags s) (thread_begin raw) ≡ ok tt u
      → Moves
          (descriptors s)
          (descriptors u)
          (if shares_files flags then joins tracee child else copies tracee child)
  begin-Moves raw child flags new e =
      let (t, is) = IsSound-IsShared s tracee tmps h found in
      let n = users s tmps.share_count in
      elim (Bool-cases (shares_files flags)) [
        | inl f ↦ rw f (
            ends-Moves s _ u _ _ (begins-joined s tracee tmps t n is raw child flags f new) e
              (joined-Moves s h tracee tmps t n is raw child new))
        | inr f ↦ rw f (
            ends-Moves s _ u _ _ (begins-copied s tracee tmps t n is raw child flags f new) e
              (copied-Moves s h tracee tmps t n is raw child new))
      ]

  pub remove-Moves :
      (b : Bool)
      → thread_tmps_remove tracee s ≡ ok b u
      → Moves (descriptors s) (descriptors u) (ends tracee)
  remove-Moves b e =
      let (t, is) = IsSound-IsShared s tracee tmps h found in
      let n = users s tmps.share_count in
      let some_user =
        count_table-one (uses tmps.share_count) s.thread_tmps_table tracee tmps found
          ((==_iff tmps.share_count tmps.share_count).1 refl) in
      elim (Bool-cases (ltb 1 n)) [
        | inl more ↦
            let runs = remove-left s u h tracee tmps found t n is (ground (arith, more)) in
            let same : left_state s tracee tmps t n ≡ u = cc in
            subst (λ v. Moves (descriptors s) (descriptors v) (ends tracee)) same
              (left-Moves s h tracee tmps found t is.table n)
        | inr few ↦
            let runs =
              remove-last s u h tracee tmps found t n is (ground (arith, few, some_user)) in
            let same : last_state s tracee tmps t n ≡ u = cc in
            subst (λ v. Moves (descriptors s) (descriptors v) (ends tracee)) same
              (last-Moves s h tracee tmps found t is.table n (ground (arith, few)))
      ]
