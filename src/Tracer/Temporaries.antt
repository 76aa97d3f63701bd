-- ===== src/Tracer/Temporaries.antt =====
-- src/thread_temporaries.c: the records of the tracees, and how their tables of file descriptors are
-- shared. The mutex of the table of records is held only inside these functions.
use iotrace.Base.{
  List, [], ◌∷◌, ◌+◌, ◌-◌, Bool, Option, none, some, ◌==◌, if◌then◌else◌, is_some, ℤ,
}
use iotrace.Glib.{Glib}
use iotrace.Double.{Double}
use iotrace.Tracer.{Address, ThreadTmps, Cmd, pure, ◌>>=◌, ◌>>◌, gets, puts}
use iotrace.Tracer.Memory.{
  malloc, new_mutex, load_count, store_count, free_count, free_table, free_mutex,
}

module _ ⦃g : Glib⦄ ⦃d : Double⦄ where
  -- `g_atomic_int_inc`, and `g_atomic_int_dec_and_test`.
  abbrev pub inc_count : Address → Cmd (Unit {0})
  inc_count p = do n ← load_count p; store_count p (n + 1)

  abbrev pub dec_and_test : Address → Cmd Bool
  dec_and_test p = do n ← load_count p; store_count p (n - 1); pure (n == 1)

  unfoldable pub free_single_thread_tmps : ThreadTmps → Cmd (Unit {0})
  free_single_thread_tmps tmps = do
    last ← dec_and_test tmps.share_count
    if last
        then (do free_table tmps.fd_table; free_count tmps.share_count; free_mutex tmps.fd_mutex)
        else pure tt

  unfoldable pub thread_tmps_lookup : ℤ → Cmd (Option ThreadTmps)
  thread_tmps_lookup thread = gets (λ s. g.lookup s.thread_tmps_table thread)

  -- A write through the pointer that the lookup returned.
  unfoldable pub set_tmps : ℤ → (ThreadTmps → ThreadTmps) → Cmd (Unit {0})
  set_tmps thread f =
      puts (λ s. record s { thread_tmps_table = g.modify s.thread_tmps_table thread f })

  -- A share count and a mutex: those of the table that is shared, or new ones.
  share : Option (Address × Address) → Cmd (Address × Address)
  share (some shared) = pure shared
  share none = do
    share_count ← malloc
    store_count share_count 0
    fd_mutex ← new_mutex
    pure (share_count, fd_mutex)

  -- The old record of the thread, which the table frees on an insertion for the same key.
  release : Option ThreadTmps → Cmd (Unit {0})
  unfolding free_single_thread_tmps
  release none = pure tt
  release (some tmps) = free_single_thread_tmps tmps

  -- `raw` is what the memory from `malloc` holds; the shared count and mutex are both NULL or
  -- neither.
  unfoldable pub thread_tmps_insert :
      ThreadTmps → ℤ → Address → Option (Address × Address) → Cmd (Unit {0})
  unfolding share release thread_tmps_lookup
  thread_tmps_insert raw thread fd_table shared = do
    (share_count, fd_mutex) ← share shared
    inc_count share_count
    old ← thread_tmps_lookup thread
    puts (λ s. record s {
      thread_tmps_table =
          g.insert s.thread_tmps_table thread
            (record raw { fd_table = fd_table; share_count = share_count; fd_mutex = fd_mutex });
    })
    release old

  unfoldable pub thread_tmps_remove : ℤ → Cmd Bool
  unfolding release thread_tmps_lookup
  thread_tmps_remove thread = do
    old ← thread_tmps_lookup thread
    puts (λ s. record s { thread_tmps_table = g.remove s.thread_tmps_table thread })
    release old
    pure (is_some old)

  free_all : List (ℤ × ThreadTmps) → Cmd (Unit {0})
  unfolding free_single_thread_tmps
  free_all [] = pure tt
  free_all ((thread, tmps) ∷ rest) = free_single_thread_tmps tmps >> free_all rest

  -- The table itself is gone afterwards: no function uses it.
  unfoldable pub thread_tmps_free : Cmd (Unit {0})
  unfolding free_all
  thread_tmps_free = do entries ← gets (λ s. g.entries s.thread_tmps_table); free_all entries
