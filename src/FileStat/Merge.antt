-- ===== src/FileStat/Merge.antt =====
-- The tables of two threads, merged, are the table of one thread that saw the events of both.
use iotrace.Base.{
  ◌≡◌, refl, Option, none, some, List, [], ◌∷◌, ◌++◌, arith, CString, str_eq, codes, or_else, ap,
  ◌∙◌, sym, inl, inr, Bool-cases,
}
use iotrace.Glib.{Glib}
use iotrace.Double.{Double}
use iotrace.FileStat.{create, merge}
use iotrace.FileStat.View.{FileView, no_event}
use iotrace.FileStat.History.{
  Event, Events, events_of, observe, after, join, record_events, get_view, initial,
  get_view-record_events, get_view-create, get_view-merge,
}
use iotrace.FileStat.Sane.{
  IsSaneFile, no_event-IsSaneFile, observe-IsSaneFile, join_view-no_event, join_view-observe,
  IsSaneEntry, or_else-IsSane, after-IsSane,
}

module _ ⦃d : Double⦄ where
  join-after-some :
      (o : Option FileView) (w : FileView) (es : List Event)
      → IsSaneEntry o
      → IsSaneFile w
      → join o (after (some w) es) ≡ after (join o (some w)) es
  join-after-some o w [] h k = refl
  join-after-some o w (e ∷ es) h k =
      join-after-some o (observe w e) es h (observe-IsSaneFile w e k)
      ∙ ap (λ v. after (some v) es) (join_view-observe _ w e (or_else-IsSane o h) k)

  join-after-none :
      (o : Option FileView) (es : List Event) → IsSaneEntry o → join o (after none es) ≡ after o es
  join-after-none o [] h = refl
  join-after-none o (e ∷ es) h =
      join-after-some o (observe no_event e) es h
        (observe-IsSaneFile no_event e no_event-IsSaneFile)
      ∙ ap (λ v. after (some v) es)
          (join_view-observe _ no_event e (or_else-IsSane o h) no_event-IsSaneFile
            ∙ ap (λ v. observe v e) (join_view-no_event _ (or_else-IsSane o h)))

  join-after-no_event :
      (v : FileView) (es : List Event)
      → IsSaneFile v
      → join (some v) (after (some no_event) es) ≡ after (some v) es
  join-after-no_event v es h =
      join-after-some (some v) no_event es h no_event-IsSaneFile
      ∙ ap (λ w. after (some w) es) (join_view-no_event v h)

  pub after-some : (v : FileView) (es : List Event) → (w : FileView) × (after (some v) es ≡ some w)
  after-some v [] = (v, refl)
  after-some v (e ∷ es) = after-some (observe v e) es

  after-append :
      (o : Option FileView) (es fs : List Event) → after o (es ++ fs) ≡ after (after o es) fs
  after-append o [] fs = refl
  after-append o (e ∷ es) fs = after-append (some (observe (or_else o no_event) e)) es fs

  join-after-initial :
      (f : CString) (es fs : List Event)
      → join (after (initial f) es) (after (initial f) fs) ≡ after (initial f) (es ++ fs)
  join-after-initial f es fs = elim (Bool-cases (str_eq (codes "NULL") f)) [
    | inl p ↦
        let (w, e) = after-some no_event es in
        let sane = after-IsSane (some no_event) es no_event-IsSaneFile in
        rw (p, after-append, e) (join-after-no_event w fs (rw e at sane))
    | inr p ↦ rw (p, after-append) (join-after-none (after none es) fs (after-IsSane none es tt))
  ]

events_of-append :
    (f : CString) (es fs : Events) → events_of f (es ++ fs) ≡ events_of f es ++ events_of f fs
events_of-append f [] fs = refl
events_of-append f ((name, e) ∷ es) fs = ground (arith, events_of-append f es fs)

module _ ⦃g : Glib⦄ ⦃d : Double⦄ where
  pub get_view-record_events-create :
      (es : Events) (f : CString)
      → get_view (record_events create es) f ≡ after (initial f) (events_of f es)
  get_view-record_events-create es f =
      get_view-record_events create es f ∙ ap (λ o. after o (events_of f es)) (get_view-create f)

  -- To merge the statistics of two threads is to have one table for the events of both: for each file
  -- the counts, the times, the extremes and the sizes of blocks agree.
  pub merge-record_events :
      (es fs : Events) (f : CString)
      → get_view (merge (record_events create es) (record_events create fs)) f
        ≡ get_view (record_events create (es ++ fs)) f
  merge-record_events es fs f =
      get_view-merge (record_events create es) (record_events create fs) f
      ∙ (λ i. join (get_view-record_events-create es f i) (get_view-record_events-create fs f i))
      ∙ join-after-initial f (events_of f es) (events_of f fs)
      ∙ ap (after (initial f)) (sym (events_of-append f es fs))
      ∙ sym (get_view-record_events-create (es ++ fs) f)
