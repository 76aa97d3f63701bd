-- ===== src/Program/Logs.antt =====
-- The threads of src/main.c, each with what its returns added to its statistics so far.
use iotrace.Base.{
  ℕ, ◌+◌, ◌≡◌, refl, List, [], ◌∷◌, ◌++◌, arith, if◌then◌else◌, total, total-append, ap, Bool, true,
  false, CString, ℤ,
}
use iotrace.Glib.{Glib}
use iotrace.Double.{Double}
use iotrace.FileStat
use iotrace.FileStat.History.{Event, Events, record_events}
use iotrace.SyscallStat
use iotrace.SyscallStat.Summary.{Calls, record_calls}
use iotrace.Main.Together.{all_of}
use iotrace.Program.{Stage, tracing, files_merged, both_merged, record_removed, Tracer}

-- Whether a thread's statistics are not merged yet: those of files, and those of other calls.
abbrev pub keeps_files : Stage → Bool
keeps_files tracing = true
keeps_files files_merged = false
keeps_files both_merged = false
keeps_files record_removed = false

abbrev pub keeps_calls : Stage → Bool
keeps_calls tracing = true
keeps_calls files_merged = true
keeps_calls both_merged = false
keeps_calls record_removed = false

pub total-all_of :
    {A : Type 0} (w : A → ℕ) (xss : List (List A)) (xs : List A)
    → total w (all_of (xss ++ xs ∷ [])) ≡ total w (all_of xss) + total w xs
total-all_of w [] xs = omega (arith, total-append w xs [])
total-all_of w (ys ∷ xss) xs = omega (
  arith,
  total-all_of w xss xs,
  total-append w ys (all_of (xss ++ xs ∷ [])),
  total-append w ys (all_of xss),
)

module _ ⦃g : Glib⦄ ⦃d : Double⦄ where
  -- A thread and its logs.
  abbrev pub Entry : Type 0
  Entry = Tracer × (Events × Calls)

  abbrev pub tracers_of : List Entry → List Tracer
  tracers_of [] = []
  tracers_of ((t, log) ∷ entries) = t ∷ tracers_of entries

  -- A thread's statistics are those of its logs.
  abbrev pub IsOwn : Entry → Type 0
  IsOwn (t, (fs, ds)) =
      (t.file_stat_table ≡ record_events FileStat.create fs)
      × (t.syscall_table ≡ record_calls SyscallStat.create ds)

  abbrev pub AreOwn : List Entry → Type 0
  AreOwn [] = Unit
  AreOwn (x ∷ entries) = IsOwn x × AreOwn entries

  pub AreOwn-append : (xs ys : List Entry) → AreOwn xs → AreOwn ys → AreOwn (xs ++ ys)
  AreOwn-append [] ys h k = k
  AreOwn-append (x ∷ xs) ys (h, hs) k = (h, AreOwn-append xs ys hs k)

  pub AreOwn-parts : (xs ys : List Entry) → AreOwn (xs ++ ys) → AreOwn xs × AreOwn ys
  AreOwn-parts [] ys h = (tt, h)
  AreOwn-parts (x ∷ xs) ys (h, hs) = let (a, b) = AreOwn-parts xs ys hs in ((h, a), b)

  pub tracers_of-append :
      (xs ys : List Entry) → tracers_of (xs ++ ys) ≡ tracers_of xs ++ tracers_of ys
  tracers_of-append [] ys = refl
  tracers_of-append ((t, log) ∷ xs) ys = ap (λ l. t ∷ l) (tracers_of-append xs ys)

  -- What is not merged yet of a thread's logs, by weight.
  abbrev pub late_files : (CString × Event → ℕ) → Entry → ℕ
  late_files w (t, (fs, ds)) = if keeps_files t.stage then total w fs else 0

  abbrev pub late_calls : (ℤ × ℕ → ℕ) → Entry → ℕ
  late_calls w (t, (fs, ds)) = if keeps_calls t.stage then total w ds else 0

  -- The entry of a thread among the others.
  pub record Place (entries : List Entry) (before after : List Tracer) (t : Tracer) : Type 0 where
    pub left : List Entry
    pub log : Events × Calls
    pub right : List Entry
    pub whole : entries ≡ left ++ (t, log) ∷ right
    pub is_left : tracers_of left ≡ before
    pub is_right : tracers_of right ≡ after

  pub place :
      (entries : List Entry) (before after : List Tracer) (t : Tracer)
      → tracers_of entries ≡ before ++ t ∷ after
      → Place entries before after t
  place [] [] after t e = absurd (ground (arith, e))
  place [] (b ∷ before) after t e = absurd (ground (arith, e))
  place ((u, log) ∷ entries) [] after t e = record {
    left = [];
    log = log;
    right = entries;
    whole = ground (arith, e);
    is_left = refl;
    is_right = ground (arith, e);
  }
  place ((u, log) ∷ entries) (b ∷ before) after t e =
      let rest = place entries before after t (ground (arith, e)) in
      record {
        left = (u, log) ∷ rest.left;
        log = rest.log;
        right = rest.right;
        whole = ap (λ l. (u, log) ∷ l) rest.whole;
        is_left = let f = rest.is_left in ground (arith, e, f);
        is_right = rest.is_right;
      }
