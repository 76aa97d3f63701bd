-- ===== src/Program/Kept.antt =====
-- The records and the threads stay in order while the threads of src/main.c go on.
use iotrace.Base.{◌≡◌, refl, Bool, arith, ap, ℤ}
use iotrace.Glib.{Glib}
use iotrace.Double.{Double}
use iotrace.FileStat.{FileStatTable}
use iotrace.SyscallStat.{SyscallTable}
use iotrace.Tracer.{State, ok}
use iotrace.Tracer.Temporaries.{thread_tmps_remove}
use iotrace.Main.Loop.{tracer_end}
use iotrace.Ownership.Sound.{IsSound}
use iotrace.Ownership.Actions.{calls, returns_from, execs_late, begins_with, ends, act}
use iotrace.Ownership.Continues.{switch-GoesOn}
use iotrace.Ownership.Reach.{act-IsSound}
use iotrace.FileStat.History.{Events}
use iotrace.SyscallStat.Summary.{Calls}
use iotrace.Program
use iotrace.Program.{
  Tracer, Program, Step, Steps, seen_by, stopped, at_stage, files_merged, both_merged,
  record_removed,
}
use iotrace.Base.{sym, ◌∙◌}
use iotrace.SyscallHandler.Sys
use iotrace.Program.Runs.{seen, call-Adds, return-Adds, late-Adds, late_return-runs}
use iotrace.Program.Records.{begin-Made, remove-Gone}
use iotrace.Program.Orderly.{
  Orderly, live, live-found, kept-Orderly, begun-Orderly, removed-Orderly, finished-Orderly,
}

module _ ⦃g : Glib⦄ ⦃d : Double⦄ where
  abbrev pub IsOrderly : Program → Type 0
  IsOrderly p = Orderly p.shared p.tracers p.active_threads p.threads

  pub seen_by-IsSound : (t : Tracer) (s : State) → IsSound s → IsSound (seen_by t s)
  seen_by-IsSound t s h = switch-GoesOn s h t.file_stat_table t.syscall_table

  remove-ends :
      (s u : State) (tracee : ℤ) (b : Bool) (files : FileStatTable) (sums : SyscallTable)
      → thread_tmps_remove tracee s ≡ ok b u
      → act (ends tracee files sums) s ≡ ok tt u
  unfolding tracer_end
  remove-ends s u tracee b files sums e = ground (arith, e)

  pub Step-IsOrderly :
      {p q : Program} {es : Events} {cs : Calls} → Step p es cs q → IsOrderly p → IsOrderly q
  Step-IsOrderly {p} (Program.Step.calls before after t split stage sc stop c s e) o =
      let h = seen_by-IsSound t p.shared o.sound in
      let adds = call-Adds (seen_by t p.shared) s t.tracee sc stop c e in
      kept-Orderly o before after t split s (stopped t s)
        (act-IsSound (seen_by t p.shared) s h (calls t.tracee sc stop) c e) adds.records refl refl
        refl
  Step-IsOrderly {p} (Program.Step.returns before after t split stage sc stop st files table s e)
        o =
      let h = seen_by-IsSound t p.shared o.sound in
      let adds = return-Adds (seen_by t p.shared) s h t.tracee stop st files table sc e in
      kept-Orderly o before after t split s (stopped t s)
        (act-IsSound (seen_by t p.shared) s h (returns_from t.tracee sc stop) st e) adds.records
        refl refl refl
  Step-IsOrderly {p} (Program.Step.executes_late before after t split stage stop st s e) o =
      let h = seen_by-IsSound t p.shared o.sound in
      let is = h.held t.tracee st.tmps st.found in
      let v = seen_by t p.shared in
      let adds = late-Adds v s h t.tracee stop st is.files is.table e in
      let counted_calls = seen v s h t.tracee stop st is.files is.table Sys.execve in
      kept-Orderly o before after t split s (stopped t s)
        (act-IsSound counted_calls s
          (switch-GoesOn v h v.file_stat_table counted_calls.syscall_table) (execs_late t.tracee)
          (st.tmps, st.found) (sym (late_return-runs v s h t.tracee stop st is.files is.table) ∙ e))
        adds.records refl refl refl
  Step-IsOrderly {p} (Program.Step.begins before after t split stage raw child flags new s e) o =
      let (tmps, found) = live-found o before after t split (ap live stage) in
      begun-Orderly o before after t split s child
        (act-IsSound p.shared s o.sound (begins_with raw child t.tracee flags) (tmps, found, new) e)
        new (begin-Made p.shared s o.sound t.tracee tmps found raw child flags new e)
  Step-IsOrderly {p} (Program.Step.merges_files before after t split stage junk answers left) o =
      kept-Orderly o before after t split p.shared (at_stage files_merged t) o.sound (λ i. refl)
        refl refl (ground (arith, stage))
  Step-IsOrderly {p} (Program.Step.merges_calls before after t split stage) o =
      kept-Orderly o before after t split p.shared (at_stage both_merged t) o.sound (λ i. refl) refl
        refl (ground (arith, stage))
  Step-IsOrderly {p} (Program.Step.removes before after t split stage b s e) o =
      let (tmps, found) = live-found o before after t split (ap live stage) in
      let sums = t.syscall_table in
      let files = t.file_stat_table in
      removed-Orderly o before after t split s (at_stage record_removed t)
        (act-IsSound p.shared s o.sound (ends t.tracee files sums) (tmps, found)
          (remove-ends p.shared s t.tracee b files sums e))
        (ap live stage) (remove-Gone p.shared s o.sound t.tracee tmps found b e) refl refl
  Step-IsOrderly (Program.Step.finishes before after t split stage) o =
      finished-Orderly o before after t split (ap live stage)

  pub Steps-IsOrderly :
      {p q : Program} {es : Events} {cs : Calls} → Steps p es cs q → IsOrderly p → IsOrderly q
  Steps-IsOrderly Program.Steps.here o = o
  Steps-IsOrderly (Program.Steps.further r s) o = Step-IsOrderly s (Steps-IsOrderly r o)
