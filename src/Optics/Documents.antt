-- ===== src/Optics/Documents.antt =====
-- crates/id_effect_optics/src/schema_bridge.rs: reading and writing documents by paths. `Unknown`
-- is that of crates/id_effect/src/schema/parse.rs; its integers and doubles are their 64 bits.
use effect_rs.Prelude.{
  ℕ, zero, suc, Bool, true, false, ◌&&◌, ◌||◌, not, Option, none, some, List, [], ◌∷◌, ◌++◌, Result,
  ok, err, ltb, leb, ◌==◌, if◌then◌else◌, ◌>>=◌,
}
use effect_rs.Optics.Paths.{
  Text, text_eq, PathSegment, field, index, append, parse_path, segments_to_dot,
}

mutual
  pub data Unknown : Type 0 where
    null : Unknown
    bool : Bool → Unknown
    i64 f64 : ℕ → Unknown
    string : Text → Unknown
    array : Items → Unknown
    object : Fields → Unknown

  pub data Items : Type 0 where
    nil : Items
    item : Unknown → Items → Items

  -- A `BTreeMap`: the fields in ascending order of their names.
  pub data Fields : Type 0 where
    end : Fields
    entry : Text → Unknown → Fields → Fields

abbrev pub count : Items → ℕ
count nil = 0
count (item x xs) = suc (count xs)

abbrev pub item_at : ℕ → Items → Option Unknown
item_at i nil = none
item_at zero (item x xs) = some x
item_at (suc i) (item x xs) = item_at i xs

abbrev pub set_item : ℕ → Unknown → Items → Items
set_item i v nil = nil
set_item zero v (item x xs) = item v xs
set_item (suc i) v (item x xs) = item x (set_item i v xs)

abbrev pub push : Unknown → Items → Items
push v nil = item v nil
push v (item x xs) = item x (push v xs)

-- The order of texts.
abbrev pub text_lt : Text → Text → Bool
text_lt as_ [] = false
text_lt [] (b ∷ bs) = true
text_lt (a ∷ as_) (b ∷ bs) = ltb a b || (a == b && text_lt as_ bs)

abbrev pub lookup : Text → Fields → Option Unknown
lookup name end = none
lookup name (entry k v rest) = if text_eq k name then some v else lookup name rest

abbrev pub put : Text → Unknown → Fields → Fields
put name v end = entry name v end
put name v (entry k w rest) =
    if text_lt name k
    then entry name v (entry k w rest)
    else (if text_eq k name then entry k v rest else entry k w (put name v rest))

pub data Reason : Type 0 where
  missing_field : Text → Reason
  out_of_bounds : ℕ → Reason
  not_readable not_settable : Reason
  cannot_traverse cannot_set : Unknown → PathSegment → Reason

pub record SchemaPathError : Type 0 where
  pub path : Text
  pub reason : Reason

path_error : {A : Type 0} → Text → Reason → Result A SchemaPathError
path_error path reason = err (record { path = path; reason = reason })

-- One round of the loop in `get_at_segments`.
unfoldable pub get_step : Text → Text → Unknown → PathSegment → Result Unknown SchemaPathError
unfolding path_error
get_step partial path (object fields) (field name) = elim (lookup name fields) [
  | some v ↦ ok v
  | none ↦ path_error partial (missing_field name)
]
get_step partial path (array items) (index i) = elim (item_at i items) [
  | some v ↦ ok v
  | none ↦ path_error partial (out_of_bounds i)
]
get_step partial path (array items) append = path_error path not_readable
get_step partial path other segment = path_error partial (cannot_traverse other segment)

-- The loop, `before` the segments it has passed.
unfoldable pub get_rest :
    List PathSegment → Unknown → List PathSegment → Text → Result Unknown SchemaPathError
unfolding get_step
get_rest before current [] path = ok current
get_rest before current (s ∷ ss) path = do
  next ← get_step (segments_to_dot (before ++ s ∷ [])) path current s
  get_rest (before ++ s ∷ []) next ss path

abbrev pub get_at_segments : Unknown → List PathSegment → Text → Result Unknown SchemaPathError
get_at_segments value segments path = get_rest [] value segments path

unfoldable pub assign_segment :
    Unknown → PathSegment → Unknown → Text → Bool → Result Unknown SchemaPathError
unfolding path_error
assign_segment (object fields) (field name) v path allow = ok (object (put name v fields))
assign_segment (array items) (index i) v path allow =
    if ltb (count items) i || (not allow && leb (count items) i)
    then path_error path (out_of_bounds i)
    else (if i == count items then ok (array (push v items)) else ok (array (set_item i v items)))
assign_segment (array items) append v path allow =
    if not allow then path_error path not_settable else ok (array (push v items))
assign_segment other segment v path allow = path_error path (cannot_set other segment)

abbrev pub reverse : List PathSegment → List PathSegment
reverse [] = []
reverse (s ∷ ss) = reverse ss ++ s ∷ []

-- `set_at_segments`, on the segments from the last one to the first. For no parents the calls answer
-- what the source's early returns do.
unfoldable pub set_back :
    Unknown → List PathSegment → Unknown → Text → Result Unknown SchemaPathError
unfolding assign_segment
set_back value [] v path = ok v
set_back value (last ∷ parents) v path = do
  parent ← get_at_segments value (reverse parents) path
  updated ← assign_segment parent last v path false
  set_back value parents updated path

abbrev pub set_at_segments :
    Unknown → List PathSegment → Unknown → Text → Result Unknown SchemaPathError
set_at_segments value segments v path = set_back value (reverse segments) v path

unfoldable pub default_container_for : PathSegment → Unknown
default_container_for (field name) = object end
default_container_for (index i) = array nil
default_container_for append = array nil

-- `create_at_segments`, likewise.
unfoldable pub create_back :
    Unknown → List PathSegment → Unknown → Text → Result Unknown SchemaPathError
unfolding assign_segment default_container_for
create_back value [] v path = ok v
create_back value (last ∷ parents) v path = do
  parent ← elim (get_at_segments value (reverse parents) path) [
    | ok parent ↦ ok parent
    | err e ↦ do
      ensured ← create_back value parents (default_container_for last) path
      get_at_segments ensured (reverse parents) path
  ]
  updated ← assign_segment parent last v path true
  create_back value parents updated path

abbrev pub create_at_segments :
    Unknown → List PathSegment → Unknown → Text → Result Unknown SchemaPathError
create_at_segments value segments v path = create_back value (reverse segments) v path

unfoldable pub get_at_path : Unknown → Text → Result Unknown SchemaPathError
unfolding get_rest parse_path
get_at_path value [] = ok value
get_at_path value (c ∷ cs) = get_at_segments value (parse_path (c ∷ cs)) (c ∷ cs)

unfoldable pub set_at_path : Unknown → Text → Unknown → Result Unknown SchemaPathError
unfolding set_back get_rest parse_path
set_at_path value [] v = ok v
set_at_path value (c ∷ cs) v = set_at_segments value (parse_path (c ∷ cs)) v (c ∷ cs)

unfoldable pub create_at_path : Unknown → Text → Unknown → Result Unknown SchemaPathError
unfolding create_back get_rest parse_path
create_at_path value [] v = ok v
create_at_path value (c ∷ cs) v = create_at_segments value (parse_path (c ∷ cs)) v (c ∷ cs)
