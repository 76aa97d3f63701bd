-- ===== src/Program/Descriptors.antt =====
-- Which descriptors each tracee has in its table, without the addresses, the counts and the mutexes of
-- src/thread_temporaries.c, and what the handlers of system calls, clones, execve and ends are to make
-- of them.
use iotrace.Base.{◌≡◌, Bool, false, ◌||◌, ◌==◌, Option, none, some, List, if◌then◌else◌, ℤ, eq_ℤ}
use mathlib.Core.Option
use iotrace.Glib.{Glib}
use iotrace.Double.{Double}
use iotrace.FdTable.View.{Files, view, kept}
use iotrace.FdTable.Refinement.{Op, run_spec}
use iotrace.Tracer.{Address, State}

-- The open files of each tracee, `none` for one that is not traced, and whether two tracees have one
-- table in common.
pub record Descriptors : Type 0 where
  pub files : ℤ → Option Files
  pub shares : ℤ → ℤ → Bool

-- The tracee whose table another one has from the start on.
abbrev pub parent_of : ℤ → ℤ → ℤ → ℤ
parent_of child parent i = if eq_ℤ child i then parent else i

-- What is done to them.
pub data Did : Type 0 where
  nothing : Did
  works : ℤ → List Op → Did
  execs ends : ℤ → Did
  joins copies : ℤ → ℤ → Did

-- What becomes of them: nothing; operations on the table of a tracee, which all see that share it;
-- an execve, after which a tracee is alone with what it keeps; a new tracee, with the table of another
-- one or a copy of it; and the end of a tracee.
pub data Moves (v w : Descriptors) : Did → Type 0 where
  stay :
      ((i : ℤ) → w.files i ≡ v.files i)
      → ((i j : ℤ) → w.shares i j ≡ v.shares i j)
      → Moves v w nothing
  work :
      (k : ℤ) (m m' : Files) (ops : List Op)
      → v.files k ≡ some m
      → run_spec m ops ≡ some m'
      → ((i : ℤ) → w.files i ≡ (if v.shares k i then some m' else v.files i))
      → ((i j : ℤ) → w.shares i j ≡ v.shares i j)
      → Moves v w (works k ops)
  exec :
      (k : ℤ) (m : Files)
      → v.files k ≡ some m
      → ((i : ℤ) (fd : ℤ)
          → Option.map (λ (n : Files). n fd) (w.files i) ≡ (
              if eq_ℤ k i
              then some (kept (m fd))
              else Option.map (λ (n : Files). n fd) (v.files i)))
      → ((i j : ℤ) → w.shares i j ≡ (if eq_ℤ k i || eq_ℤ k j then eq_ℤ i j else v.shares i j))
      → Moves v w (execs k)
  join :
      (k child : ℤ) (m : Files)
      → v.files k ≡ some m
      → v.files child ≡ none
      → ((i : ℤ) → w.files i ≡ v.files (parent_of child k i))
      → ((i j : ℤ) → w.shares i j ≡ v.shares (parent_of child k i) (parent_of child k j))
      → Moves v w (joins k child)
  copy :
      (k child : ℤ) (m : Files)
      → v.files k ≡ some m
      → v.files child ≡ none
      → ((i : ℤ) (fd : ℤ)
          → Option.map (λ (n : Files). n fd) (w.files i)
            ≡ Option.map (λ (n : Files). n fd) (v.files (parent_of child k i)))
      → ((i j : ℤ)
          → w.shares i j ≡ (if eq_ℤ child i || eq_ℤ child j then eq_ℤ i j else v.shares i j))
      → Moves v w (copies k child)
  end_of :
      (k : ℤ)
      → ((i : ℤ) → w.files i ≡ (if eq_ℤ k i then none else v.files i))
      → ((i j : ℤ) → w.shares i j ≡ (if eq_ℤ k i || eq_ℤ k j then false else v.shares i j))
      → Moves v w (ends k)

abbrev pub same_table : Option Address → Option Address → Bool
same_table none q = false
same_table (some p) none = false
same_table (some p) (some q) = p == q

module _ ⦃g : Glib⦄ ⦃d : Double⦄ where
  -- The address of a tracee's table.
  abbrev pub held_by : State → ℤ → Option Address
  held_by s i = Option.map (λ tmps. tmps.fd_table) (g.lookup s.thread_tmps_table i)

  abbrev pub files_at : State → Option Address → Option Files
  files_at s none = none
  files_at s (some p) = Option.map view (s.fd_tables p)

  -- The descriptors in a state of the tracer.
  abbrev pub descriptors : State → Descriptors
  descriptors s = record {
    files = λ i. files_at s (held_by s i);
    shares = λ i j. same_table (held_by s i) (held_by s j);
  }
