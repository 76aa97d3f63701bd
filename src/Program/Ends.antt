-- ===== src/Program/Ends.antt =====
-- The threads of src/main.c can end, wherever they are.
use mathlib.Core.Path.{subst}
use mathlib.Core.List.{append_assoc, append-nil}
use iotrace.Base.{◌≡◌, refl, List, [], ◌∷◌, ◌++◌, arith, total, ap, sym, true, some, ==_iff, ℤ}
use iotrace.Glib.{Glib}
use iotrace.Double.{Double}
use iotrace.FileStat.{FileStatTable}
use iotrace.FileStat.History.{Events}
use iotrace.SyscallStat.{SyscallTable}
use iotrace.SyscallStat.Summary.{Calls}
use iotrace.Tracer.{ThreadTmps, State, ok}
use iotrace.Main.Wait.{last_stop, wait_loop-signal_stops}
use iotrace.Main.Loop.{leaves, wait_for_syscall}
use iotrace.Ownership.Reach.{main_start, blank}
use iotrace.Program
use iotrace.Program.{
  Stage, tracing, files_merged, both_merged, record_removed, Tracer, Program, Step, Steps,
  first_program, at_stage, seen_by, waits_over, any_own,
}
use iotrace.Program.Records.{remove-runs}
use iotrace.Program.Orderly.{live, live-found, counts}
use iotrace.Program.Kept.{IsOrderly, Step-IsOrderly, Steps-IsOrderly}
use iotrace.Program.Finished.{main_start-IsOrderly}

module _ ⦃g : Glib⦄ ⦃d : Double⦄ where
  -- Steps that add nothing, and after them a program with the given threads, in order.
  pub record Comes (p : Program) (ts : List Tracer) : Type 0 where
    pub to : Program
    pub steps : Steps p [] [] to
    pub left : to.tracers ≡ ts
    pub orderly : IsOrderly to

  Steps-trans :
      {p q r : Program} {ks ls : Events} {us vs : Calls}
      → Steps p ks us q
      → Steps q ls vs r
      → Steps p (ks ++ ls) (us ++ vs) r
  Steps-trans {p} {q} {r} {ks} {ls} {us} {vs} a Program.Steps.here =
      subst (λ l. Steps p l (us ++ []) q) (sym (append-nil ks))
        (subst (λ l. Steps p ks l q) (sym (append-nil us)) a)
  Steps-trans {p} {q} {r} {ks} {ls} {us} {vs} a (Program.Steps.further {es} {fs} {cs} {ds} b s) =
      subst (λ l. Steps p l (us ++ (cs ++ ds)) r) (append_assoc ks es fs)
        (subst (λ l. Steps p ((ks ++ es) ++ fs) l r) (append_assoc us cs ds)
          (Program.Steps.further (Steps-trans a b) s))

  then-Comes : (p q : Program) (ts : List Tracer) → Step p [] [] q → Comes q ts → Comes p ts
  then-Comes p q ts s c = record {
    to = c.to;
    steps = Steps-trans (Program.Steps.further Program.Steps.here s) c.steps;
    left = c.left;
    orderly = c.orderly;
  }

  removed-Comes :
      (p : Program) (t : Tracer) (after : List Tracer)
      → IsOrderly p
      → p.tracers ≡ t ∷ after
      → t.stage ≡ record_removed
      → Comes p after
  removed-Comes p t after o split stage =
      let s = Program.Step.finishes [] after t split stage in
      record {
        to = _;
        steps = Program.Steps.further Program.Steps.here s;
        left = refl;
        orderly = Step-IsOrderly s o;
      }

  merged-Comes :
      (p : Program) (t : Tracer) (after : List Tracer)
      → IsOrderly p
      → p.tracers ≡ t ∷ after
      → t.stage ≡ both_merged
      → Comes p after
  merged-Comes p t after o split stage =
      let (tmps, found) = live-found o [] after t split (ap live stage) in
      let (u, runs) = remove-runs p.shared p.shared o.sound t.tracee tmps found in
      let s = Program.Step.removes [] after t split stage true u runs in
      then-Comes p _ after s
        (removed-Comes _ (at_stage record_removed t) after (Step-IsOrderly s o) refl refl)

  files-Comes :
      (p : Program) (t : Tracer) (after : List Tracer)
      → IsOrderly p
      → p.tracers ≡ t ∷ after
      → t.stage ≡ files_merged
      → Comes p after
  files-Comes p t after o split stage =
      let s = Program.Step.merges_calls [] after t split stage in
      then-Comes p _ after s
        (merged-Comes _ (at_stage both_merged t) after (Step-IsOrderly s o) refl refl)

  tracing-Comes :
      (p : Program) (t : Tracer) (after : List Tracer)
      → IsOrderly p
      → p.tracers ≡ t ∷ after
      → t.stage ≡ tracing
      → Comes p after
  tracing-Comes p t after o split stage =
      let exits = last_stop (some 0) ∷ [] in
      let left : wait_for_syscall t.tracee 0 exits (seen_by t p.shared)
          ≡ ok leaves (seen_by t p.shared) =
        ground (arith, wait_loop-signal_stops (seen_by t p.shared) t.tracee 0 [] (some 0) [] tt) in
      let s = Program.Step.merges_files [] after t split stage 0 exits left in
      then-Comes p _ after s
        (files-Comes _ (at_stage files_merged t) after (Step-IsOrderly s o) refl refl)

  -- The first thread ends, wherever it is.
  head-Comes :
      (p : Program) (t : Tracer) (after : List Tracer) (stage : Stage)
      → t.stage ≡ stage
      → IsOrderly p
      → p.tracers ≡ t ∷ after
      → Comes p after
  head-Comes p t after tracing e o split = tracing-Comes p t after o split e
  head-Comes p t after files_merged e o split = files-Comes p t after o split e
  head-Comes p t after both_merged e o split = merged-Comes p t after o split e
  head-Comes p t after record_removed e o split = removed-Comes p t after o split e

  -- All threads end, one after the other.
  all-Comes : (ts : List Tracer) (p : Program) → IsOrderly p → p.tracers ≡ ts → Comes p []
  all-Comes [] p o e = record { to = p; steps = Program.Steps.here; left = e; orderly = o }
  all-Comes (t ∷ ts) p o e =
      let c = head-Comes p t ts t.stage refl o e in
      let rest = all-Comes ts c.to c.orderly c.left in
      record {
        to = rest.to;
        steps = Steps-trans c.steps rest.steps;
        left = rest.left;
        orderly = rest.orderly;
      }

  -- From where `main_tracer` comes to its call of `start_tracer`, after any steps of any threads, in
  -- any order: steps that add nothing to the statistics, among them the exit of each tracee that is
  -- traced yet, lead to where the loop that waits for the threads ends.
  pub waits_over_reachable :
      (raw : ThreadTmps) (tracee : ℤ) (files : FileStatTable) (sums : SyscallTable) (s : State)
      → main_start raw tracee (blank files sums) ≡ ok tt s
      → (p : Program) (es : Events) (cs : Calls) → Steps (first_program tracee s) es cs p
      → (q : Program) × Steps p [] [] q × (waits_over q ≡ true)
  waits_over_reachable raw tracee files sums s e p es cs r =
      let o = Steps-IsOrderly r (main_start-IsOrderly raw tracee files sums s e) in
      let c = all-Comes p.tracers p o refl in
      let q = c.to in
      let last = c.orderly in
      let nobody = c.left in
      (
        q,
        c.steps,
        ground (
          arith,
          last.same,
          ap any_own nobody,
          ap (total counts) nobody,
          ==_iff q.active_threads 0,
        ),
      )
