-- ===== src/Ownership/Lives.antt =====
-- How a thread begins and ends, in a state where the records are in order.
use iotrace.Base.{◌≡◌, refl, none, some, arith, ltb, ==_iff, ℤ, inl, inr, Bool-cases}
use iotrace.Glib.{Glib}
use iotrace.Glib.Count.{count_table-one}
use iotrace.Double.{Double}
use iotrace.FileStat.{FileStatTable}
use iotrace.SyscallStat.{SyscallTable}
use iotrace.Tracer.{ThreadTmps, State, pure, and_then}
use iotrace.Main.Threads.{shares_files, threads_add, thread_begin}
use iotrace.Main.Loop.{tracer_end}
use iotrace.Main.Runs.{begins-joined, begins-copied, end-last, end-left}
use iotrace.Ownership.Sound.{uses, users, IsSound, IsSound-IsShared}
use iotrace.Ownership.Preserved.{joined-IsSound, copied-IsSound}
use iotrace.Ownership.Ended.{left-IsSound, last-IsSound}
use iotrace.Ownership.Actions.{GoesOn}

module _ ⦃g : Glib⦄ ⦃d : Double⦄ (s : State) (h : IsSound s) where
  pub begin-GoesOn :
      (raw : ThreadTmps) (child parent flags : ℤ) (tmps : ThreadTmps)
      → g.lookup s.thread_tmps_table parent ≡ some tmps
      → g.lookup s.thread_tmps_table child ≡ none
      → GoesOn (and_then (threads_add child parent flags s) (thread_begin raw))
  begin-GoesOn raw child parent flags tmps found new =
      let (t, is) = IsSound-IsShared s parent tmps h found in
      elim (Bool-cases (shares_files flags)) [
        | inl f ↦ (
          _,
          begins-joined s parent tmps t (users s tmps.share_count) is raw child flags f new,
          joined-IsSound s h parent tmps found t raw child new,
        )
        | inr f ↦ (
          _,
          begins-copied s parent tmps t (users s tmps.share_count) is raw child flags f new,
          copied-IsSound s h parent tmps found t raw child new,
        )
      ]

  pub end-GoesOn :
      (tracee : ℤ) (files : FileStatTable) (sums : SyscallTable) (tmps : ThreadTmps)
      → g.lookup s.thread_tmps_table tracee ≡ some tmps
      → GoesOn (and_then (tracer_end tracee files sums s) (λ _. pure tt))
  end-GoesOn tracee files sums tmps found =
      let (t, is) = IsSound-IsShared s tracee tmps h found in
      let n = users s tmps.share_count in
      let some_user =
        count_table-one (uses tmps.share_count) s.thread_tmps_table tracee tmps found
          ((==_iff tmps.share_count tmps.share_count).1 refl) in
      elim (Bool-cases (ltb 1 n)) [
        | inl more ↦ (
          _,
          rw (end-left s tracee tmps t n is files sums (ground (arith, more))) refl,
          left-IsSound s h tracee tmps found t (ground (arith, more)),
        )
        | inr few ↦ (
          _,
          rw (end-last s tracee tmps t n is files sums (ground (arith, few, some_user))) refl,
          last-IsSound s h tracee tmps found t (ground (arith, few)),
        )
      ]
