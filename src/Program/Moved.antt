-- ===== src/Program/Moved.antt =====
-- The threads of src/main.c do to the tables of their tracees what the specification of the handlers
-- in src/syscall_handler.c says.
use iotrace.Base.{◌≡◌, refl, ap, if◌then◌else◌, ℤ}
use iotrace.Glib.{Glib}
use iotrace.Double.{Double}
use iotrace.FileStat.{FileStatTable}
use iotrace.FileStat.History.{Events}
use iotrace.SyscallStat.{SyscallTable}
use iotrace.SyscallStat.Summary.{Calls}
use iotrace.Tracer.{ThreadTmps, State, ok}
use iotrace.Main.Threads.{shares_files}
use iotrace.Ownership.Reach.{main_start, blank}
use iotrace.Program
use iotrace.Program.{adds_events, Tracer, Program, Step, Steps, first_program, seen_by}
use iotrace.Program.Orderly.{live, live-found}
use iotrace.Program.Kept.{IsOrderly, seen_by-IsSound, Steps-IsOrderly}
use iotrace.Program.Finished.{main_start-IsOrderly}
use iotrace.Program.Descriptors.{Did, nothing, execs, joins, copies, ends, Moves, descriptors}
use iotrace.Program.Tables.{stays-Moves}
use iotrace.Program.Handled.{
  did_by_return, call-Moves, return-Moves, late-Moves, begin-Moves, remove-Moves,
}

module _ ⦃g : Glib⦄ ⦃d : Double⦄ where
  -- What a step does to the descriptors: a return what its call is for, a new tracee and an end what
  -- they are, and everything else nothing.
  abbrev pub did : {p q : Program} {es : Events} {cs : Calls} → Step p es cs q → Did
  did (Program.Step.calls before after t split stage sc stop c s e) = nothing
  did (Program.Step.returns before after t split stage sc stop st files table s e) =
      did_by_return t.tracee sc stop st.tmps files st.now
  did (Program.Step.executes_late before after t split stage stop st s e) = execs t.tracee
  did (Program.Step.begins before after t split stage raw child flags new s e) =
      if shares_files flags then joins t.tracee child else copies t.tracee child
  did (Program.Step.merges_files before after t split stage junk answers left) = nothing
  did (Program.Step.merges_calls before after t split stage) = nothing
  did (Program.Step.removes before after t split stage b s e) = ends t.tracee
  did (Program.Step.finishes before after t split stage) = nothing

  Step-Moves :
      {p q : Program} {es : Events} {cs : Calls}
      → IsOrderly p
      → (step : Step p es cs q) → Moves (descriptors p.shared) (descriptors q.shared) (did step)
  Step-Moves {p} o (Program.Step.calls before after t split stage sc stop c s e) =
      call-Moves (seen_by t p.shared) s t.tracee sc stop c e
  Step-Moves {p} o (Program.Step.returns before after t split stage sc stop st files table s e) =
      return-Moves (seen_by t p.shared) s (seen_by-IsSound t p.shared o.sound) t.tracee stop st
        files table sc e
  Step-Moves {p} o (Program.Step.executes_late before after t split stage stop st s e) =
      let h = seen_by-IsSound t p.shared o.sound in
      let is = h.held t.tracee st.tmps st.found in
      late-Moves (seen_by t p.shared) s h t.tracee stop st is.files is.table e
  Step-Moves {p} o (Program.Step.begins before after t split stage raw child flags new s e) =
      let (tmps, found) = live-found o before after t split (ap live stage) in
      begin-Moves p.shared s o.sound t.tracee tmps found raw child flags new e
  Step-Moves {p} o (Program.Step.merges_files before after t split stage junk answers left) =
      stays-Moves p.shared p.shared (λ a. refl) (λ i. refl)
  Step-Moves {p} o (Program.Step.merges_calls before after t split stage) =
      stays-Moves p.shared p.shared (λ a. refl) (λ i. refl)
  Step-Moves {p} o (Program.Step.removes before after t split stage b s e) =
      let (tmps, found) = live-found o before after t split (ap live stage) in
      remove-Moves p.shared s o.sound t.tracee tmps found b e
  Step-Moves {p} o (Program.Step.finishes before after t split stage) =
      stays-Moves p.shared p.shared (λ a. refl) (λ i. refl)

  -- From where `main_tracer` comes to its call of `start_tracer`, after any steps of any threads, in
  -- any order: the next step of any thread does to the tables of all tracees what is specified for
  -- its handler, whatever the kernel does. A return
  -- changes the table of its tracee as its call asks for, which all tracees see that share it and
  -- nobody else; after the return of execve, failed or not, a tracee is alone with what has no close-on-exec
  -- flag; a new tracee
  -- shares the table of its parent with CLONE_FILES, and has a copy of its own without; an end takes
  -- away what only the tracee has; and nothing else changes anything.
  pub Steps-Moves :
      (raw : ThreadTmps) (tracee : ℤ) (files : FileStatTable) (sums : SyscallTable) (s : State)
      → main_start raw tracee (blank files sums) ≡ ok tt s
      → (p : Program) (es : Events) (cs : Calls) → Steps (first_program tracee s) es cs p
      → (q : Program) (fs : Events) (ds : Calls) (step : Step p fs ds q)
      → Moves (descriptors p.shared) (descriptors q.shared) (did step)
  Steps-Moves raw tracee files sums s e p es cs r q fs ds step =
      Step-Moves (Steps-IsOrderly r (main_start-IsOrderly raw tracee files sums s e)) step
