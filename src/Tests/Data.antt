-- ===== src/Tests/Data.antt =====
-- Data for the runs in the other modules of this part: a tracee, its descriptors, two stops, and
-- whole numbers in the place of `double`.
use iotrace.Base.{
  ℕ, ◌/◌, ◌≡◌, ◌⊎◌, refl, true, false, none, some, List, [], ◌∷◌, ◌++◌, arith, ltb, if◌then◌else◌,
  ◌==◌, ℤ, pos, negsuc, CString, codes,
}
use iotrace.Glib.{assoc}
use iotrace.Glib.Lists.{list_glib}
use iotrace.Double.{Double}
use iotrace.FdTable.{FdTable}
use iotrace.FdTable.Refinement.{Op, inserts, dups, sets_cloexec, removes, removes_cloexec, copies}
use iotrace.FileStat.History.{Events, opened, closed, has_read, has_written}
use iotrace.SyscallStat.Summary.{Calls}
use iotrace.Tracer.{Timespec, ThreadTmps, State}
use iotrace.Tracer.Ready.{IsReady}
use iotrace.SyscallHandler.Stop.{Stop, rdi, rsi, rdx, r10, rax}

abbrev of_integer : ℤ → ℕ
of_integer (pos n) = n
of_integer (negsuc n) = 0

pub less_irrefl : (a : ℕ) → ltb a a ≡ false
less_irrefl a = ground arith

pub less_trans : (a b c : ℕ) → ltb a b ≡ true → ltb b c ≡ true → ltb a c ≡ true
less_trans a b c h k = ground arith

pub less_split : (a b c : ℕ) → false ≡ false → ltb a c ≡ true → (ltb a b ≡ true) ⊎ (ltb b c ≡ true)
less_split a b c n h = ground arith

-- Whole numbers, with a quotient that is rounded down.
instance abbrev pub whole_double : Double
whole_double = record {
  Carrier = ℕ;
  of_ull = λ n. n;
  of_ssize = of_integer;
  divide = λ a b. a / b;
  less = ltb;
  is_nan = λ a. false;
  less_irrefl = less_irrefl;
  less_trans = less_trans;
  less_split = less_split;
  of_ull_number = λ n. refl;
  quotient_number = λ n t. refl;
}

-- A table with one file.
abbrev pub data_file : CString
data_file = codes "data"

abbrev pub table : FdTable
table = (pos 3, record { filename = data_file; cloexec = true }) ∷ []

abbrev pub some_ops : List Op
some_ops =
    inserts (pos 4) (codes "log") false
    ∷ dups (pos 3) (pos 5) false true
    ∷ sets_cloexec (pos 4) true
    ∷ removes (pos 3)
    ∷ removes_cloexec
    ∷ copies
    ∷ []

abbrev pub some_events : Events
some_events =
    (data_file, opened 20)
    ∷ (codes "log", opened 5)
    ∷ (data_file, has_read 2000000000 (pos 100))
    ∷ (data_file, has_read 30 (negsuc 8))
    ∷ []

abbrev pub more_events : Events
more_events = (data_file, has_written 4 (pos 0)) ∷ (data_file, closed 7) ∷ []

abbrev pub some_calls : Calls
some_calls = (pos 39, 10) ∷ (pos 9, 4) ∷ (pos 39, 11) ∷ []

abbrev pub more_calls : Calls
more_calls = (pos 39, 5) ∷ []

-- A tracee, which is alone with its table.
abbrev pub tracee : ℤ
tracee = pos 42

-- A buffer of 256 bytes.
abbrev doubled : ℕ → List ℕ → List ℕ
doubled ℕ.zero xs = xs
doubled (ℕ.suc n) xs = doubled n (xs ++ xs)

abbrev pub buffer : List ℕ
buffer = doubled 8 (0 ∷ [])

abbrev pub tmps : ThreadTmps
tmps = record {
  start_time = record { tv_sec = 1; tv_nsec = 500 };
  ptr = 0;
  int_a = pos 3;
  int_b = pos 0;
  int_c = pos 0;
  filename_buffer = buffer;
  fd_table = 0;
  share_count = 1;
  fd_mutex = 2;
}

abbrev pub state : State
state = record {
  next = 3;
  fd_tables = λ p. if p == 0 then some table else none;
  share_counts = λ p. if p == 1 then some 1 else none;
  mutexes = λ p. if p == 2 then some false else none;
  thread_tmps_table = (tracee, tmps) ∷ [];
  file_stat_table = [];
  syscall_table = [];
}

pub state-IsReady : IsReady state tracee tmps table
unfolding assoc
state-IsReady = record { found = refl; table = refl; mutex = refl }

-- The words of the tracee's memory: "data" and a NUL.
abbrev pub data_word : ℤ
data_word = pos 1635017060

-- At the call the first argument is `first`, at the return the result is.
abbrev pub stop_at : ℤ → Timespec → Stop
stop_at first now = record {
  peek_user =
      λ r. elim r [ rdi ↦ first | rsi ↦ pos 524288 | rdx ↦ pos 0 | r10 ↦ pos 0 | rax ↦ first ];
  peek_data = λ p. some data_word;
  clock = some now;
}

abbrev pub start : Timespec
start = record { tv_sec = 1; tv_nsec = 700 }

abbrev pub end : Timespec
end = record { tv_sec = 2; tv_nsec = 100 }
