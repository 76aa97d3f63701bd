-- ===== src/Program/Finished.antt =====
-- The end of src/main.c: when the loop that waits for the threads ends, they all have ended, nothing of
-- theirs is left, and their statistics are those of all that they saw.
use mathlib.Core.Path.{subst}
use iotrace.Base.{
  ◌^◌, ◌<◌, ◌≡◌, refl, List, [], ◌∷◌, ◌++◌, arith, length, total, Same, ap, sym, ◌∙◌, true, false,
  ==_iff, ℤ, CString, none,
}
use iotrace.Glib.{Glib}
use iotrace.Glib.Keys.{int_key}
use iotrace.Double.{Double}
use iotrace.FileStat.{FileStatTable}
use iotrace.FileStat.History.{Events, events_of, get_view}
use iotrace.FileStat.Totals.{Describes, record_events-Describes}
use iotrace.FileStat.Order.{Describes-Same}
use iotrace.SyscallStat
use iotrace.SyscallStat.{SyscallTable}
use iotrace.SyscallStat.Summary.{Calls, record_calls-summary, summary}
use iotrace.SyscallStat.Order.{summary-Same}
use iotrace.Tracer.{Address, ThreadTmps, State, ok}
use iotrace.Main.Together.{all_of, merged_files-merged_calls}
use iotrace.Ownership.Reach.{
  main_start, blank, started, first, started-IsSound, main_start-started, IsSound-empty,
}
use iotrace.Program
use iotrace.Program.{
  Tracer, Program, Step, Steps, new_tracer, first_program, seen_by, stopped, at_stage, files_merged,
  both_merged, record_removed, any_own, waits_over,
}
use iotrace.Program.Runs.{call-Adds, return-Adds, late-Adds}
use iotrace.Program.Orderly.{holds, counts}
use iotrace.Program.Kept.{IsOrderly, seen_by-IsSound, Steps-IsOrderly}
use iotrace.Program.Logs.{Entry, tracers_of, late_files, late_calls}
use iotrace.Program.Accounts.{Accounts, first-Accounts, begun-Accounts}
use iotrace.Program.Changes.{
  went-Accounts, files-Accounts, calls-Accounts, removed-Accounts, finished-Accounts,
}

module _ ⦃g : Glib⦄ ⦃d : Double⦄ where
  abbrev pub HasAccounts : Program → Events → Calls → Type 0
  HasAccounts p es cs = Accounts p.tracers p.main_file_stat_table p.main_syscall_table es cs

  Step-HasAccounts :
      {p q : Program} {es fs : Events} {cs ds : Calls}
      → Step p fs ds q
      → IsOrderly p
      → HasAccounts p es cs
      → HasAccounts q (es ++ fs) (cs ++ ds)
  Step-HasAccounts {p} (Program.Step.calls before after t split stage sc stop c s e) o a =
      let adds = call-Adds (seen_by t p.shared) s t.tracee sc stop c e in
      went-Accounts a before after t split (stopped t s) _ _ stage refl adds.files adds.sums
  Step-HasAccounts {p} (Program.Step.returns before after t split stage sc stop st files table s e)
        o a =
      let h = seen_by-IsSound t p.shared o.sound in
      let adds = return-Adds (seen_by t p.shared) s h t.tracee stop st files table sc e in
      went-Accounts a before after t split (stopped t s) _ _ stage refl adds.files adds.sums
  Step-HasAccounts {p} (Program.Step.executes_late before after t split stage stop st s e) o a =
      let h = seen_by-IsSound t p.shared o.sound in
      let is = h.held t.tracee st.tmps st.found in
      let adds = late-Adds (seen_by t p.shared) s h t.tracee stop st is.files is.table e in
      went-Accounts a before after t split (stopped t s) _ _ stage refl adds.files adds.sums
  Step-HasAccounts (Program.Step.begins before after t split stage raw child flags new s e) o a =
      begun-Accounts a child
  Step-HasAccounts (Program.Step.merges_files before after t split stage junk answers left) o a =
      files-Accounts a before after t split (at_stage files_merged t) stage refl refl refl
  Step-HasAccounts (Program.Step.merges_calls before after t split stage) o a =
      calls-Accounts a before after t split (at_stage both_merged t) stage refl refl refl
  Step-HasAccounts (Program.Step.removes before after t split stage b s e) o a =
      removed-Accounts a before after t split (at_stage record_removed t) stage refl refl refl
  Step-HasAccounts (Program.Step.finishes before after t split stage) o a =
      finished-Accounts a before after t split stage

  pub Steps-HasAccounts :
      {p q : Program} {es : Events} {cs : Calls}
      → Steps p es cs q
      → IsOrderly p
      → HasAccounts p [] []
      → HasAccounts q es cs
  Steps-HasAccounts Program.Steps.here o a = a
  Steps-HasAccounts (Program.Steps.further r s) o a =
      Step-HasAccounts s (Steps-IsOrderly r o) (Steps-HasAccounts r o a)

  started-IsOrderly :
      (raw : ThreadTmps) (tracee : ℤ) (files : FileStatTable) (sums : SyscallTable)
      → IsOrderly (first_program tracee (started raw tracee files sums))
  started-IsOrderly raw tracee files sums = record {
    sound = started-IsSound raw tracee files sums;
    records = λ i. ground (
      arith,
      g.lookup-insert (g.new int_key ThreadTmps) tracee (first raw) i,
      g.lookup-new int_key ThreadTmps i,
    );
    same = refl;
    few = omega arith;
  }

  -- `main_tracer` comes to `start_tracer` with the records and its thread in order.
  pub main_start-IsOrderly :
      (raw : ThreadTmps) (tracee : ℤ) (files : FileStatTable) (sums : SyscallTable) (s : State)
      → main_start raw tracee (blank files sums) ≡ ok tt s
      → IsOrderly (first_program tracee s)
  main_start-IsOrderly raw tracee files sums s e =
      let same : started raw tracee files sums ≡ s =
        let f = main_start-started raw tracee files sums in cc in
      subst (λ u. IsOrderly (first_program tracee u)) same (started-IsOrderly raw tracee files sums)

  -- Without that of `main_tracer`, all threads are counted.
  counts-length : (ts : List Tracer) → any_own ts ≡ false → total counts ts ≡ length ts
  counts-length [] e = refl
  counts-length (t ∷ ts) e = ground (arith, e, counts-length ts)

  length-nil : {A : Type 0} (xs : List A) → length xs ≡ 0 → xs ≡ []
  length-nil [] e = refl
  length-nil (x ∷ xs) e = absurd (omega (arith, e))

  waits_over-nobody :
      (p : Program) → IsOrderly p → length p.threads < 2 ^ 32 → waits_over p ≡ true → p.tracers ≡ []
  waits_over-nobody p o few over =
      let none_own : any_own p.tracers ≡ false = ground (arith, over) in
      let zero : p.active_threads ≡ 0 = ground (arith, over, ==_iff p.active_threads 0) in
      length-nil p.tracers
        (omega (arith, o.same, o.few, zero, few, counts-length p.tracers none_own))

  none_recorded :
      (p : Program)
      → IsOrderly p
      → p.tracers ≡ []
      → (i : ℤ) → g.lookup p.shared.thread_tmps_table i ≡ none
  none_recorded p o e i = ground (arith, o.records i, ap (total (holds i)) e)

  no_entries : (entries : List Entry) → tracers_of entries ≡ [] → entries ≡ []
  no_entries [] e = refl
  no_entries (x ∷ entries) e = absurd (ground (arith, e))

  -- The statistics of the program where every thread has ended.
  merged_all :
      (p : Program) (es : Events) (cs : Calls)
      → HasAccounts p es cs
      → p.tracers ≡ []
      → ((f : CString) → Describes f (events_of f es) (get_view p.main_file_stat_table f))
        × ((sc : ℤ) → SyscallStat.get p.main_syscall_table sc ≡ summary sc cs)
  merged_all p es cs a e =
      let nobody = no_entries a.entries (a.threads ∙ e) in
      let same_files : Same (all_of a.merged_es) es =
        λ w. omega (arith, a.all_files w, ap (total (late_files w)) nobody) in
      let same_calls : Same (all_of a.merged_cs) cs =
        λ w. omega (arith, a.all_calls w, ap (total (late_calls w)) nobody) in
      let (files, calls) = merged_files-merged_calls a.merged_es a.merged_cs in
      (
        λ f.
            subst (Describes f (events_of f es))
              (sym (ap (λ t. get_view t f) a.main_files ∙ files f))
              (Describes-Same f (all_of a.merged_es) es _ same_files
                (record_events-Describes (all_of a.merged_es) f)),
        λ sc.
            ap (λ t. SyscallStat.get t sc) a.main_calls
            ∙ calls sc
            ∙ record_calls-summary (all_of a.merged_cs) sc
            ∙ summary-Same sc (all_of a.merged_cs) cs same_calls,
      )

  -- From where `main_tracer` comes to its call of `start_tracer`, after any steps of any threads, in
  -- any order, fewer than 2 ^ 32 of them begun: where the loop that waits for the threads ends, every
  -- thread has ended, no tracee has a record, no table, count or mutex is allocated, and the statistics
  -- of the program are those of all that the returns added on the way: the entry of each file counts
  -- and sums what happened to it, and that of each other system call its calls and their time.
  pub Steps-waits_over :
      (raw : ThreadTmps) (tracee : ℤ) (files : FileStatTable) (sums : SyscallTable) (s : State)
      → main_start raw tracee (blank files sums) ≡ ok tt s
      → (p : Program) (es : Events) (cs : Calls) → Steps (first_program tracee s) es cs p
      → length p.threads < 2 ^ 32
      → waits_over p ≡ true
      → (p.tracers ≡ [])
        × ((i : ℤ) → g.lookup p.shared.thread_tmps_table i ≡ none)
        × ((a : Address)
            → (p.shared.fd_tables a ≡ none)
              × (p.shared.share_counts a ≡ none)
              × (p.shared.mutexes a ≡ none))
        × ((f : CString) → Describes f (events_of f es) (get_view p.main_file_stat_table f))
        × ((sc : ℤ) → SyscallStat.get p.main_syscall_table sc ≡ summary sc cs)
  Steps-waits_over raw tracee files sums s e p es cs r few over =
      let begin = main_start-IsOrderly raw tracee files sums s e in
      let o = Steps-IsOrderly r begin in
      let nobody = waits_over-nobody p o few over in
      let gone = none_recorded p o nobody in
      let (all_files, all_calls) =
        merged_all p es cs (Steps-HasAccounts r begin (first-Accounts tracee)) nobody in
      (nobody, gone, IsSound-empty p.shared o.sound gone, all_files, all_calls)
