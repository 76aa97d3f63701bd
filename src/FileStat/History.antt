-- ===== src/FileStat/History.antt =====
-- Histories of events on files, and the table that they leave.
use iotrace.Base.{
  ℕ, ◌≡◌, refl, Option, none, some, List, [], ◌∷◌, arith, if◌then◌else◌, ℤ, CString, codes, str_eq,
  foldl, or_else, ap, ◌∙◌, inl, inr, Bool-cases, Option-cases,
}
use mathlib.Core.Option
use iotrace.Glib.{Glib}
use iotrace.Glib.Keys.{str_key}
use iotrace.Glib.Loop.{lookup-foldl}
use iotrace.Glib.Upsert.{lookup-upsert}
use iotrace.Double.{Double}
use iotrace.FileStat.{
  incr_open_close, FileStat, FileStatTable, init_file_stat, create, get, get_safe, incr_open,
  incr_close, incr_read, incr_write, merge_file_stat, merge_step, merge,
}
use iotrace.FileStat.View.{
  FileView, no_event, transfer, join_view, view, view-init, view-incr_rw, view-merge_file_stat,
}

-- A call that returned: the time that it took, and for a transfer what it returned.
pub data Event : Type 0 where
  opened closed : ℕ → Event
  has_read has_written : ℕ → ℤ → Event

abbrev pub Events : Type 0
Events = List (CString × Event)

abbrev pub events_of : CString → Events → List Event
events_of f [] = []
events_of f ((name, e) ∷ es) = let rest = events_of f es in if str_eq name f then e ∷ rest else rest

module _ ⦃d : Double⦄ where
  -- What an event changes in the entry of its file.
  abbrev pub observe : FileView → Event → FileView
  observe v (opened ns) = record v { opens = incr_open_close v.opens ns }
  observe v (closed ns) = record v { closes = incr_open_close v.closes ns }
  observe v (has_read ns bytes) = record v { reads = transfer v.reads ns bytes }
  observe v (has_written ns bytes) = record v { writes = transfer v.writes ns bytes }

  -- An entry after more events; the first makes the entry.
  abbrev pub after : Option FileView → List Event → Option FileView
  after o [] = o
  after o (e ∷ es) = after (some (observe (or_else o no_event) e)) es

  abbrev pub join : Option FileView → Option FileView → Option FileView
  join o none = o
  join o (some w) = some (join_view (or_else o no_event) w)

  -- The start: an entry for "NULL", the name that stands for an unknown descriptor.
  abbrev pub initial : CString → Option FileView
  initial f = if str_eq (codes "NULL") f then some no_event else none

module _ ⦃g : Glib⦄ ⦃d : Double⦄ where
  unfoldable pub record_event : FileStatTable → CString × Event → FileStatTable
  record_event t (f, opened ns) = incr_open t f ns
  record_event t (f, closed ns) = incr_close t f ns
  record_event t (f, has_read ns bytes) = incr_read t f ns bytes
  record_event t (f, has_written ns bytes) = incr_write t f ns bytes

  -- The table after a history.
  unfoldable pub record_events : FileStatTable → Events → FileStatTable
  unfolding foldl record_event
  record_events = foldl record_event

  -- The entry of a file, as it is seen.
  abbrev pub get_view : FileStatTable → CString → Option FileView
  get_view t f = Option.map view (get t f)

  view-or_else :
      (o : Option FileStat) → view (or_else o init_file_stat) ≡ or_else (Option.map view o) no_event
  view-or_else none = view-init
  view-or_else (some s) = refl

  -- A change of an entry through the pointer that `file_stat_get_safe` returns.
  get_view-update :
      (F : FileStat → FileStat) (G : FileView → FileView)
      → ((s : FileStat) → view (F s) ≡ G (view s))
      → (t : FileStatTable) (name f : CString)
      → get_view (g.modify (get_safe t name) name F) f
        ≡ (if str_eq name f then some (G (or_else (get_view t f) no_event)) else get_view t f)
  get_view-update F G same t name f = elim (Bool-cases (str_eq name f)) [
    | inl e ↦
        rw (lookup-upsert t name init_file_stat F f, e)
          (ap some (same _ ∙ ap G (view-or_else (get t f))))
    | inr e ↦ rw (lookup-upsert t name init_file_stat F f, e) refl
  ]

  get_view-record_event :
      (t : FileStatTable) (name : CString) (e : Event) (f : CString)
      → get_view (record_event t (name, e)) f ≡ (
          if str_eq name f
          then some (observe (or_else (get_view t f) no_event) e)
          else get_view t f)
  unfolding record_event incr_open incr_close incr_read incr_write
  get_view-record_event t name (opened ns) f =
      get_view-update _ (λ v. observe v (opened ns)) (λ s. refl) t name f
  get_view-record_event t name (closed ns) f =
      get_view-update _ (λ v. observe v (closed ns)) (λ s. refl) t name f
  get_view-record_event t name (has_read ns bytes) f =
      get_view-update _ (λ v. observe v (has_read ns bytes))
        (λ s. ap (λ r. record (view s) { reads = r }) (view-incr_rw s.read_stats ns bytes)) t name f
  get_view-record_event t name (has_written ns bytes) f =
      get_view-update _ (λ v. observe v (has_written ns bytes))
        (λ s. ap (λ r. record (view s) { writes = r }) (view-incr_rw s.write_stats ns bytes)) t name
        f

  -- The entry of a file is what the events on that file make of it, in their order; events on other
  -- files do not touch it.
  pub get_view-record_events :
      (t : FileStatTable) (es : Events) (f : CString)
      → get_view (record_events t es) f ≡ after (get_view t f) (events_of f es)
  unfolding record_events
  get_view-record_events t [] f = refl
  get_view-record_events t ((name, e) ∷ es) f = elim (Bool-cases (str_eq name f)) [
    | inl p ↦
        get_view-record_events (record_event t (name, e)) es f
        ∙ rw (get_view-record_event t name e f, p) refl
    | inr p ↦
        get_view-record_events (record_event t (name, e)) es f
        ∙ rw (get_view-record_event t name e f, p) refl
  ]

  pub get_view-create : (f : CString) → get_view create f ≡ initial f
  unfolding create
  get_view-create f = elim (Bool-cases (str_eq (codes "NULL") f)) [
    | inl e ↦
        rw (g.lookup-insert (g.new str_key FileStat) (codes "NULL") init_file_stat f, e)
          (ap some view-init)
    | inr e ↦
        rw (g.lookup-insert (g.new str_key FileStat) (codes "NULL") init_file_stat f, e)
          (rw (g.lookup-new str_key FileStat f))
  ]

  merge_step-lookup :
      (t : FileStatTable) (k : CString) (s : FileStat) (f : CString)
      → get (merge_step t (k, s)) f ≡ (
          if str_eq k f
          then some (merge_file_stat (or_else (get t f) init_file_stat) s)
          else get t f)
  unfolding merge_step
  merge_step-lookup t k s f = lookup-upsert t k init_file_stat (λ r. merge_file_stat r s) f

  get-merge :
      (t u : FileStatTable) (f : CString)
      → get (merge t u) f ≡ (elim (get u f) [
        | none ↦ get t f
        | some s ↦ some (merge_file_stat (or_else (get t f) init_file_stat) s)
      ])
  unfolding merge
  get-merge t u f = ground (
    arith,
    g.assoc-entries u f,
    lookup-foldl merge_step (λ o s. merge_file_stat (or_else o init_file_stat) s) merge_step-lookup
        (g.entries u) (g.entries-Distinct u) t f,
  )

  pub get_view-merge :
      (t u : FileStatTable) (f : CString)
      → get_view (merge t u) f ≡ join (get_view t f) (get_view u f)
  get_view-merge t u f = elim (Option-cases (get u f)) [
    | inl e ↦ rw (get-merge t u f, e)
    | inr (s, e) ↦
        rw (get-merge t u f, e)
          (ap some
            (view-merge_file_stat _ s ∙ ap (λ v. join_view v (view s)) (view-or_else (get t f))))
  ]
