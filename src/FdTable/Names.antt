-- ===== src/FdTable/Names.antt =====
-- The names that a table of file descriptors holds fit the buffers that they are copied to.
use mathlib.Core.List.{append_assoc}
use iotrace.Base.{
  ◌-◌, ◌≤◌, ◌+◌, ◌<◌, ◌≡◌, refl, none, some, ◌++◌, arith, ltb, CString, codes, length, take,
  length-append, length-take, sym, inl, inr, Bool-cases, [], ◌∷◌, ℕ,
}
use iotrace.FdTable.{filename_buff_size, strcpy, slave_name}

take-length-all : (xs : CString) → take (length xs) xs ≡ xs
take-length-all [] = refl
take-length-all (x ∷ xs) = ground (arith, take-length-all xs)

strcpy-fits :
    (s : CString) (offset : ℕ) (text : CString)
    → offset + length text < filename_buff_size
    → strcpy s offset text ≡ some (take offset s ++ text)
unfolding strcpy
strcpy-fits s offset text h = ground (arith, h)

strcpy-long :
    (s : CString) (offset : ℕ) (text : CString)
    → filename_buff_size ≤ offset + length text
    → strcpy s offset text ≡ none
unfolding strcpy
strcpy-long s offset text h = ground (arith, h)

-- From a name that fits the buffer, the name of the peer is made, fits the buffer too, and ends in
-- " slave".
pub slave_name_lem :
    (name : CString)
    → length name < filename_buff_size
    → (s : CString) × (slave_name name ≡ some s)
      × (length s < filename_buff_size)
      × ((p : CString) × (s ≡ p ++ codes " slave"))
unfolding slave_name
slave_name_lem name h = elim (Bool-cases (ltb (length name + 7) filename_buff_size)) [
  | inl e ↦ (
    name ++ codes " slave",
    ground (
      arith,
      strcpy-fits [] 0 name (omega (arith, h)),
      strcpy-fits name (length name) (codes " slave") (ground (arith, e)),
      take-length-all name,
    ),
    ground (arith, length-append name (codes " slave")),
    (name, refl),
  )
  | inr e ↦ (
    take (length name - 10) name ++ codes "... slave",
    ground (
      arith,
      strcpy-fits [] 0 name (omega (arith, h)),
      strcpy-fits name (length name - 10) (codes "... slave") (ground (arith, h)),
    ),
    ground (
      arith,
      length-append (take (length name - 10) name) (codes "... slave"),
      length-take (length name - 10) name,
    ),
    (
      take (length name - 10) name ++ codes "...",
      sym (append_assoc _ (codes "...") (codes " slave")),
    ),
  )
]

-- A name that does not fit overruns the buffer.
pub slave_name_long : (name : CString) → filename_buff_size ≤ length name → slave_name name ≡ none
unfolding slave_name
slave_name_long name h = ground (arith, strcpy-long [] 0 name (omega (arith, h)))
