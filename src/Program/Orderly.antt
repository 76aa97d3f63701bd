-- ===== src/Program/Orderly.antt =====
-- The invariant of the records and of the threads together: the records are in order, each thread whose
-- record is not removed has one, of its own, nobody else has one, and the count of active threads is
-- that of the threads.
use iotrace.Base.{
  ℕ, ◌+◌, ◌%◌, ◌^◌, ◌≤◌, ◌≡◌, Bool, true, false, ◌&&◌, none, some, List, ◌∷◌, ◌++◌, arith,
  if◌then◌else◌, length, one_if, total, total-append, ℤ, eq_ℤ, eq_ℤ_iff, ap, ◌∙◌, Option-cases, inl,
  inr,
}
use iotrace.Glib.{Glib}
use iotrace.Double.{Double}
use iotrace.Tracer.{ThreadTmps, State}
use iotrace.Ownership.Sound.{IsSound}
use iotrace.Program.{
  Stage, tracing, files_merged, both_merged, record_removed, Tracer, new_tracer, fewer,
}
use iotrace.Program.Runs.{recorded}
use iotrace.Program.Records.{Made, Gone}

abbrev pub live : Stage → Bool
live tracing = true
live files_merged = true
live both_merged = true
live record_removed = false

module _ ⦃g : Glib⦄ ⦃d : Double⦄ where
  -- A thread with a record for a tracee, and one that is counted as active.
  abbrev pub holds : ℤ → Tracer → ℕ
  holds i t = one_if (live t.stage && eq_ℤ t.tracee i)

  abbrev pub counts : Tracer → ℕ
  counts t = if t.own then 0 else 1

  pub record Orderly (s : State) (tracers : List Tracer) (active : ℕ) (threads : List ℤ)
      : Type 0 where
    pub sound : IsSound s
    pub records : (i : ℤ) → total (holds i) tracers ≡ one_if (recorded s i)
    pub same : active ≡ total counts tracers % 2 ^ 32
    pub few : total counts tracers ≤ length threads

  pub split-total :
      (w : Tracer → ℕ) (ts before after : List Tracer) (t : Tracer)
      → ts ≡ before ++ t ∷ after
      → total w ts ≡ total w before + (w t + total w after)
  split-total w ts before after t e = ap (total w) e ∙ total-append w before (t ∷ after)

module _ ⦃g : Glib⦄ ⦃d : Double⦄ {s : State} {ts : List Tracer} {active : ℕ} {threads : List ℤ}
    (o : Orderly s ts active threads) (before after : List Tracer) (t : Tracer)
    (split : ts ≡ before ++ t ∷ after) where
  -- A thread whose record is not removed has one.
  pub live-found :
      live t.stage ≡ true
      → (tmps : ThreadTmps) × (g.lookup s.thread_tmps_table t.tracee ≡ some tmps)
  live-found l = elim (Option-cases (g.lookup s.thread_tmps_table t.tracee)) [
    | inl e ↦ absurd (
        ground (
          arith,
          e,
          l,
          o.records t.tracee,
          split-total (holds t.tracee) ts before after t split,
          eq_ℤ_iff t.tracee t.tracee,
        ))
    | inr found ↦ found
  ]

  -- A thread went on, and the tracees with records are the same.
  pub kept-Orderly :
      (u : State) (t' : Tracer)
      → IsSound u
      → ((i : ℤ) → recorded u i ≡ recorded s i)
      → t'.tracee ≡ t.tracee
      → t'.own ≡ t.own
      → live t'.stage ≡ live t.stage
      → Orderly u (before ++ t' ∷ after) active threads
  kept-Orderly u t' h same_records tracee own stage = record {
    sound = h;
    records = λ i. ground (
      arith,
      o.records i,
      same_records i,
      tracee,
      stage,
      split-total (holds i) ts before after t split,
      total-append (holds i) before (t' ∷ after),
    );
    same = ground (
      arith,
      o.same,
      own,
      split-total counts ts before after t split,
      total-append counts before (t' ∷ after),
    );
    few = ground (
      arith,
      o.few,
      own,
      split-total counts ts before after t split,
      total-append counts before (t' ∷ after),
    );
  }

  pub begun-Orderly :
      (u : State) (child : ℤ)
      → IsSound u
      → g.lookup s.thread_tmps_table child ≡ none
      → Made s child u
      → Orderly u (new_tracer child false ∷ ts) ((active + 1) % 2 ^ 32) (child ∷ threads)
  begun-Orderly u child h new made = record {
    sound = h;
    records = λ i. ground (arith, o.records i, made i, new, eq_ℤ_iff child i);
    same = omega (arith, o.same);
    few = omega (arith, o.few);
  }

  pub removed-Orderly :
      (u : State) (t' : Tracer)
      → IsSound u
      → live t.stage ≡ true
      → Gone s t.tracee u
      → t'.own ≡ t.own
      → live t'.stage ≡ false
      → Orderly u (before ++ t' ∷ after) active threads
  removed-Orderly u t' h l gone own stage = record {
    sound = h;
    records = λ i. ground (
      arith,
      o.records i,
      gone i,
      l,
      stage,
      split-total (holds i) ts before after t split,
      total-append (holds i) before (t' ∷ after),
    );
    same = ground (
      arith,
      o.same,
      own,
      split-total counts ts before after t split,
      total-append counts before (t' ∷ after),
    );
    few = ground (
      arith,
      o.few,
      own,
      split-total counts ts before after t split,
      total-append counts before (t' ∷ after),
    );
  }

  pub finished-Orderly :
      live t.stage ≡ false → Orderly s (before ++ after) (fewer t.own active) threads
  finished-Orderly l = record {
    sound = o.sound;
    records = λ i. ground (
      arith,
      o.records i,
      l,
      split-total (holds i) ts before after t split,
      total-append (holds i) before after,
    );
    same = ground (
      arith,
      o.same,
      split-total counts ts before after t split,
      total-append counts before after,
    );
    few = ground (
      arith,
      o.few,
      split-total counts ts before after t split,
      total-append counts before after,
    );
  }
