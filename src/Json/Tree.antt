-- ===== src/Json/Tree.antt =====
-- Trees of JSON, and the calls of json-glib that build one. Reading the calls gives the tree back.
use iotrace.Base.{◌≡◌, refl, Option, none, some, List, [], ◌∷◌, ◌++◌, ap, sym, ℤ, CString}
use mathlib.Core.Option.{bind}
use iotrace.Double.{Double}
use iotrace.Json.{
  Call, set_member_name, begin_object, end_object, begin_array, end_array, add_int_value,
  add_double_value, add_string_value,
}

bind-some : {A : Type 0} (o : Option A) → bind o some ≡ o
unfolding bind
bind-some none = refl
bind-some (some a) = refl

module _ {A B C : Type 0} where
  bind_assoc :
      (o : Option A) (f : A → Option B) (k : B → Option C)
      → bind (bind o f) k ≡ bind o (λ a. bind (f a) k)
  unfolding bind
  bind_assoc none f k = refl
  bind_assoc (some a) f k = refl

module _ ⦃d : Double⦄ where
  mutual
    pub data Json : Type 0 where
      object : Members → Json
      array : Items → Json
      int : ℤ → Json
      double : d.Carrier → Json
      string : CString → Json

    pub data Items : Type 0 where
      end : Items
      item : Json → Items → Items

    pub data Members : Type 0 where
      last : Members
      member : CString → Json → Members → Members

  -- What builds a tree, in order: an array and an object stand between their brackets, and a name
  -- stands before its value.
  unfoldable mutual
    pub calls_of : Json → List Call
    calls_of (object members) = begin_object ∷ (member_calls members ++ end_object ∷ [])
    calls_of (array items) = begin_array ∷ (item_calls items ++ end_array ∷ [])
    calls_of (int n) = add_int_value n ∷ []
    calls_of (double x) = add_double_value x ∷ []
    calls_of (string s) = add_string_value s ∷ []

    pub item_calls : Items → List Call
    item_calls end = []
    item_calls (item value items) = calls_of value ++ item_calls items

    pub member_calls : Members → List Call
    member_calls last = []
    member_calls (member name value members) =
        set_member_name name ∷ (calls_of value ++ member_calls members)

  -- Reading goes from the last call to the first. A frame is what stands in the array or in the
  -- object that is open; in `named` the next name is still to come.
  data Frame : Type 0 where
    in_array : Items → Frame
    in_object : Members → Frame
    named : Json → Members → Frame

  abbrev Frames : Type 0
  Frames = List Frame

  abbrev put : Json → Frames → Option Frames
  put value [] = none
  put value (in_array items ∷ rest) = some (in_array (item value items) ∷ rest)
  put value (in_object members ∷ rest) = some (named value members ∷ rest)
  put value (named other members ∷ rest) = none

  abbrev back : Call → Frames → Option Frames
  back end_array frames = some (in_array end ∷ frames)
  back end_object frames = some (in_object last ∷ frames)
  back begin_array (in_array items ∷ rest) = put (array items) rest
  back begin_array _ = none
  back begin_object (in_object members ∷ rest) = put (object members) rest
  back begin_object _ = none
  back (set_member_name name) (named value members ∷ rest) =
      some (in_object (member name value members) ∷ rest)
  back (set_member_name name) _ = none
  back (add_int_value n) frames = put (int n) frames
  back (add_double_value x) frames = put (double x) frames
  back (add_string_value s) frames = put (string s) frames

  read_back : List Call → Frames → Option Frames
  unfolding bind
  read_back [] frames = some frames
  read_back (c ∷ cs) frames = bind (read_back cs frames) (back c)

  read_back-append :
      (cs ds : List Call) (frames : Frames)
      → read_back (cs ++ ds) frames ≡ bind (read_back ds frames) (read_back cs)
  unfolding read_back
  read_back-append [] ds frames = sym (bind-some (read_back ds frames))
  read_back-append (c ∷ cs) ds frames =
      rw (read_back-append cs ds frames) (bind_assoc (read_back ds frames) (read_back cs) (back c))

  mutual
    unfolding calls_of read_back bind

    read_back-calls_of :
        (value : Json) (frames : Frames) → read_back (calls_of value) frames ≡ put value frames
    read_back-calls_of (object members) frames =
        rw
          (
            read_back-append (member_calls members) (end_object ∷ []) frames,
            read_back-member_calls members frames,
          )
          refl
    read_back-calls_of (array items) frames =
        rw
          (
            read_back-append (item_calls items) (end_array ∷ []) frames,
            read_back-item_calls items frames,
          )
          refl
    read_back-calls_of (int n) frames = refl
    read_back-calls_of (double x) frames = refl
    read_back-calls_of (string s) frames = refl

    read_back-item_calls :
        (items : Items) (rest : Frames)
        → read_back (item_calls items) (in_array end ∷ rest) ≡ some (in_array items ∷ rest)
    read_back-item_calls end rest = refl
    read_back-item_calls (item value items) rest =
        rw
          (
            read_back-append (calls_of value) (item_calls items) (in_array end ∷ rest),
            read_back-item_calls items rest,
          )
          (read_back-calls_of value (in_array items ∷ rest))

    read_back-member_calls :
        (members : Members) (rest : Frames)
        → read_back (member_calls members) (in_object last ∷ rest) ≡ some (in_object members ∷ rest)
    read_back-member_calls last rest = refl
    read_back-member_calls (member name value members) rest =
        rw
          (
            read_back-append (calls_of value) (member_calls members) (in_object last ∷ rest),
            read_back-member_calls members rest,
            read_back-calls_of value (in_object members ∷ rest),
          )
          refl

  -- The only tree that was built.
  abbrev only : Option Frames → Option Json
  only (some (in_array (item value end) ∷ [])) = some value
  only _ = none

  pub read_tree : List Call → Option Json
  read_tree calls = only (read_back calls (in_array end ∷ []))

  -- The calls that build a tree are read as that tree.
  pub read_tree-calls_of : (value : Json) → read_tree (calls_of value) ≡ some value
  unfolding read_tree
  read_tree-calls_of value = ap only (read_back-calls_of value (in_array end ∷ []))
