-- ===== src/SyscallStat/Summary.antt =====
-- What a table says of a history of system calls.
use iotrace.Base.{
  ull_mod, ℕ, ◌+◌, ◌%◌, ◌≡◌, refl, Option, none, some, List, [], ◌∷◌, ◌++◌, arith, ◌==◌,
  if◌then◌else◌, ℤ, eq_ℤ, foldl, or_else, sym, ◌∙◌, Bool-cases, inl, inr,
}
use iotrace.Glib.{Glib}
use iotrace.Glib.Loop.{lookup-foldl}
use iotrace.Glib.Upsert.{lookup-upsert}
use iotrace.SyscallStat.{
  SyscallStat, zero_stat, add_stat, SyscallTable, create, get, incr, merge_step, merge,
}

-- A system call that returned, and the time that it took.
abbrev pub Calls : Type 0
Calls = List (ℤ × ℕ)

abbrev pub calls_of : ℤ → Calls → ℕ
calls_of sc [] = 0
calls_of sc ((k, ns) ∷ cs) = (if eq_ℤ k sc then 1 else 0) + calls_of sc cs

abbrev pub time_of : ℤ → Calls → ℕ
time_of sc [] = 0
time_of sc ((k, ns) ∷ cs) = (if eq_ℤ k sc then ns else 0) + time_of sc cs

-- No entry without a call; else the number of calls and their time, as the counters hold them.
abbrev pub summary : ℤ → Calls → Option SyscallStat
summary sc cs =
    if calls_of sc cs == 0
    then none
    else some (record { count = calls_of sc cs % ull_mod; total_ns = time_of sc cs % ull_mod })

-- An entry after `n` more calls, which took `ns`.
abbrev more : Option SyscallStat → ℕ → ℕ → Option SyscallStat
more o n ns = if n == 0 then o else some (add_stat (or_else o zero_stat) n ns)

-- An entry of the first table, and one of the second, joined.
abbrev pub join : Option SyscallStat → Option SyscallStat → Option SyscallStat
join o none = o
join o (some s) = some (add_stat (or_else o zero_stat) s.count s.total_ns)

time_of-zero : (sc : ℤ) (cs : Calls) → calls_of sc cs ≡ 0 → time_of sc cs ≡ 0
time_of-zero sc [] h = refl
time_of-zero sc ((k, ns) ∷ cs) h = elim (Bool-cases (eq_ℤ k sc)) [
  | inl e ↦ ground arith
  | inr e ↦ ground (arith, time_of-zero sc cs)
]

calls_of-append :
    (sc : ℤ) (cs ds : Calls) → calls_of sc (cs ++ ds) ≡ calls_of sc cs + calls_of sc ds
calls_of-append sc [] ds = omega arith
calls_of-append sc ((k, ns) ∷ cs) ds = omega (arith, calls_of-append sc cs ds)

time_of-append : (sc : ℤ) (cs ds : Calls) → time_of sc (cs ++ ds) ≡ time_of sc cs + time_of sc ds
time_of-append sc [] ds = omega arith
time_of-append sc ((k, ns) ∷ cs) ds = omega (arith, time_of-append sc cs ds)

-- The summaries of two histories join to that of the two in turn.
join-summary :
    (sc : ℤ) (cs ds : Calls) → join (summary sc cs) (summary sc ds) ≡ summary sc (cs ++ ds)
join-summary sc cs ds = ground (
  arith,
  calls_of-append sc cs ds,
  time_of-append sc cs ds,
  time_of-zero sc cs,
  time_of-zero sc ds,
)

module _ ⦃g : Glib⦄ where
  unfoldable pub incr_call : SyscallTable → ℤ × ℕ → SyscallTable
  incr_call t (sc, ns) = incr t sc ns

  -- The table after a history.
  unfoldable pub record_calls : SyscallTable → Calls → SyscallTable
  unfolding foldl incr_call
  record_calls = foldl incr_call

  pub get-incr :
      (t : SyscallTable) (k : ℤ) (ns : ℕ) (sc : ℤ)
      → get (incr t k ns) sc
        ≡ (if eq_ℤ k sc then some (add_stat (or_else (get t sc) zero_stat) 1 ns) else get t sc)
  unfolding get incr
  get-incr t k ns sc = lookup-upsert t k zero_stat (λ s. add_stat s 1 ns) sc

  get-record_calls :
      (t : SyscallTable) (cs : Calls) (sc : ℤ)
      → get (record_calls t cs) sc ≡ more (get t sc) (calls_of sc cs) (time_of sc cs)
  unfolding record_calls
  get-record_calls t [] sc = refl
  get-record_calls t ((k, ns) ∷ cs) sc =
      ground (arith, get-record_calls (incr t k ns) cs sc, get-incr t k ns sc, time_of-zero sc cs)

  get-create : (sc : ℤ) → get create sc ≡ none
  unfolding get create
  get-create sc = g.lookup-new _ _ sc

  -- From an empty table, each system call that was made has its number of calls and their time,
  -- modulo 2 ^ 64, and no other has an entry.
  pub record_calls-summary : (cs : Calls) (sc : ℤ) → get (record_calls create cs) sc ≡ summary sc cs
  record_calls-summary cs sc = get-record_calls create cs sc ∙ ground (arith, get-create sc)

  get-merge_step :
      (t : SyscallTable) (k : ℤ) (s : SyscallStat) (sc : ℤ)
      → get (merge_step t (k, s)) sc ≡ (
          if eq_ℤ k sc
          then some (add_stat (or_else (get t sc) zero_stat) s.count s.total_ns)
          else get t sc)
  unfolding get merge_step
  get-merge_step t k s sc = lookup-upsert t k zero_stat (λ r. add_stat r s.count s.total_ns) sc

  pub get-merge : (t u : SyscallTable) (sc : ℤ) → get (merge t u) sc ≡ join (get t sc) (get u sc)
  unfolding get merge
  get-merge t u sc = ground (
    arith,
    g.assoc-entries u sc,
    lookup-foldl merge_step (λ o s. add_stat (or_else o zero_stat) s.count s.total_ns)
        get-merge_step (g.entries u) (g.entries-Distinct u) t sc,
  )

  -- To merge the tables of two threads is to have one table for the calls of both.
  pub merge-record_calls :
      (cs ds : Calls) (sc : ℤ)
      → get (merge (record_calls create cs) (record_calls create ds)) sc
        ≡ get (record_calls create (cs ++ ds)) sc
  merge-record_calls cs ds sc =
      get-merge (record_calls create cs) (record_calls create ds) sc
      ∙ (λ i. join (record_calls-summary cs sc i) (record_calls-summary ds sc i))
      ∙ join-summary sc cs ds
      ∙ sym (record_calls-summary (cs ++ ds) sc)
