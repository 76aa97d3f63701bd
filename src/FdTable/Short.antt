-- ===== src/FdTable/Short.antt =====
-- The names in a table fit a buffer of FILENAME_BUFF_SIZE bytes, so that the copy to the buffer in
-- `fd_table_insert_dup` does not overrun it.
use iotrace.Base.{
  ◌<◌, ◌≡◌, ◌↔◌, refl, fun_ext, Bool, true, false, Option, none, some, List, [], ◌∷◌, arith, ℤ, pos,
  eq_ℤ, CString, codes, length, inl, inr, Bool-cases, ◌∙◌, ap, sym,
}
use mathlib.Core.Option
use iotrace.Glib.{Glib}
use iotrace.FdTable.{filename_buff_size, Entry, FdTable, dup_name, create, insert_dup}
use iotrace.FdTable.View.{Files, view, kept}
use iotrace.FdTable.Names.{slave_name_lem}
use iotrace.FdTable.Refinement.{
  Op, inserts, dups, sets_cloexec, removes, removes_cloexec, copies, put, entry, named, duplicate,
  flag, spec, run, run_spec, run-refines, dup-refines,
}

-- Every name fits a buffer of FILENAME_BUFF_SIZE bytes.
abbrev pub ShortEntry : Option Entry → Type 0
ShortEntry none = Unit
ShortEntry (some e) = length e.filename < filename_buff_size

abbrev pub Short : Files → Type 0
Short m = (fd : ℤ) → ShortEntry (m fd)

abbrev pub ShortOp : Op → Type 0
ShortOp (inserts fd name c) = length name < filename_buff_size
ShortOp (dups orig fd c slave) = Unit
ShortOp (sets_cloexec fd c) = Unit
ShortOp (removes fd) = Unit
ShortOp removes_cloexec = Unit
ShortOp copies = Unit

abbrev pub ShortOps : List Op → Type 0
ShortOps [] = Unit
ShortOps (o ∷ os) = ShortOp o × ShortOps os

put-Short : (m : Files) (fd : ℤ) (e : Option Entry) → Short m → ShortEntry e → Short (put m fd e)
put-Short m fd e h k j = elim (Bool-cases (eq_ℤ fd j)) [ inl p ↦ rw p k | inr p ↦ rw p (h j) ]

kept-ShortEntry : (e : Option Entry) → ShortEntry e → ShortEntry (kept e)
kept-ShortEntry none h = tt
kept-ShortEntry (some e) h = ground arith

abbrev pub ShortResult : Option Files → Type 0
ShortResult none = Unit
ShortResult (some m) = Short m

abbrev pub ShortName : Option CString → Type 0
ShortName none = Unit
ShortName (some name) = length name < filename_buff_size

dup_name-Short : (slave : Bool) (e : Entry) → ShortEntry (some e) → ShortName (dup_name slave e)
dup_name-Short false e k = k
dup_name-Short true e k =
    let (s, found, fits, _) = slave_name_lem e.filename k in rw (found, ShortName) fits

named-Short :
    (m : Files) (fd : ℤ) (c : Bool) (name : Option CString)
    → Short m
    → ShortName name
    → ShortResult (named m fd c name)
named-Short m fd c none h k = tt
named-Short m fd c (some name) h k = put-Short m fd (some (entry name c)) h k

duplicate-Short :
    (m : Files) (fd : ℤ) (c slave : Bool) (e : Option Entry)
    → Short m
    → ShortEntry e
    → ShortResult (duplicate m fd c slave e)
duplicate-Short m fd c slave none h k = tt
duplicate-Short m fd c slave (some e) h k =
    named-Short m fd c (dup_name slave e) h (dup_name-Short slave e k)

flag-Short :
    (m : Files) (fd : ℤ) (c : Bool) (e : Option Entry)
    → Short m
    → ShortEntry e
    → ShortResult (flag m fd c e)
flag-Short m fd c none h k = tt
flag-Short m fd c (some e) h k = put-Short m fd (some (entry e.filename c)) h k

spec-Short : (m : Files) (o : Op) → Short m → ShortOp o → ShortResult (spec m o)
spec-Short m (inserts fd name c) h k = put-Short m fd (some (entry name c)) h k
spec-Short m (dups orig fd c slave) h k = duplicate-Short m fd c slave (m orig) h (h orig)
spec-Short m (sets_cloexec fd c) h k = flag-Short m fd c (m fd) h (h fd)
spec-Short m (removes fd) h k = put-Short m fd none h tt
spec-Short m removes_cloexec h k = λ fd. kept-ShortEntry (m fd) (h fd)
spec-Short m copies h k = h

then-Short :
    (r : Option Files) (f : Files → Option Files)
    → ShortResult r
    → ((m : Files) → Short m → ShortResult (f m))
    → ShortResult (elim r [ none ↦ none | some m ↦ f m ])
then-Short none f h k = tt
then-Short (some m) f h k = k m h

run_spec-Short : (m : Files) (os : List Op) → Short m → ShortOps os → ShortResult (run_spec m os)
run_spec-Short m [] h k = h
run_spec-Short m (o ∷ os) h k =
    then-Short (spec m o) (λ m'. run_spec m' os) (spec-Short m o h k.0)
      (λ m' h'. run_spec-Short m' os h' k.1)

duplicate-none :
    (m : Files) (fd : ℤ) (c slave : Bool) (e : Option Entry)
    → ShortEntry e
    → (duplicate m fd c slave e ≡ none) ↔ (e ≡ none)
duplicate-none m fd c slave none h = (λ _. refl, λ _. refl)
duplicate-none m fd c false (some e) h = (λ p. cc, λ p. cc)
duplicate-none m fd c true (some e) h =
    let (s, found, _, _) = slave_name_lem e.filename h in
    rw (found, duplicate, named) (λ p. cc, λ p. cc)

map-none : {A B : Type 0} (f : A → B) (o : Option A) → Option.map f o ≡ none → o ≡ none
map-none f none p = refl
map-none f (some a) p = cc

module _ ⦃g : Glib⦄ where
  -- From a table whose names fit the buffer, insertions with names that fit it, and any other
  -- operations, end in such a table, if they do not fault.
  pub run-Short :
      (t : FdTable) (os : List Op)
      → Short (view t)
      → ShortOps os
      → ShortResult (Option.map view (run t os))
  run-Short t os h k = rw (run-refines t os) (run_spec-Short (view t) os h k)

  -- In a table whose names fit the buffer, a duplication faults exactly when the original descriptor
  -- is not in the table: a NULL pointer is read there, and the buffer is never overrun.
  pub insert_dup-eq-none_iff :
      (t : FdTable) (orig fd : ℤ) (c slave : Bool)
      → Short (view t)
      → (insert_dup t orig fd c slave ≡ none) ↔ (view t orig ≡ none)
  insert_dup-eq-none_iff t orig fd c slave h =
      let same = dup-refines t orig fd c slave in
      let iff = duplicate-none (view t) fd c slave (view t orig) (h orig) in
      (λ p. iff.0 (sym same ∙ ap (Option.map view) p), λ p. map-none view _ (same ∙ iff.1 p))

  -- At first the three standard streams are open, and nothing else.
  pub create-view :
      view create
      ≡ put
          (put
            (put (λ fd. none) (pos 0) (some (entry (codes "stdin") false)))
            (pos 1)
            (some (entry (codes "stdout") false)))
          (pos 2)
          (some (entry (codes "stderr") false))
  unfolding create
  create-view = fun_ext λ fd. simp (g.lookup-insert, g.lookup-new)
