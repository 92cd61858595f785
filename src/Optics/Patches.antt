-- ===== src/Optics/Patches.antt =====
-- crates/id_effect_optics/src/json_patch.rs: the operations of JSON Patch on documents.
use effect_rs.Prelude.{
  ℕ, zero, suc, ◌*◌, ◌%◌, ◌^◌, Bool, true, false, ◌&&◌, ◌||◌, not, none, some, List, [], ◌∷◌,
  Result, ok, err, ltb, leb, ◌==◌, if◌then◌else◌, ◌>>=◌,
}
use effect_rs.Optics.Paths.{Text, text_eq, PathSegment, field, index, parse_path, segments_to_dot}
use effect_rs.Optics.Documents.{
  Unknown, null, bool, i64, f64, string, array, object, Items, nil, item, Fields, end, entry, count,
  lookup, SchemaPathError, reverse, get_at_path, set_at_path, create_at_path,
}

pub data PatchOp : Type 0 where
  add_op replace_op test_op : (path : Text) (value : Unknown) → PatchOp
  remove_op : (path : Text) → PatchOp
  move_op copy_op : (from path : Text) → PatchOp

pub data Message : Type 0 where
  remove_root mismatch : Message
  no_field : Text → Message
  no_index : ℕ → Message
  cannot_remove : PathSegment → Unknown → Message

pub data PatchError : Type 0 where
  path_failed : SchemaPathError → PatchError
  missing : (path : Text) (message : Message) → PatchError

-- `map_err(PatchError::from)`
abbrev pub at_path : {A : Type 0} → Result A SchemaPathError → Result A PatchError
at_path (ok a) = ok a
at_path (err e) = err (path_failed e)

-- `f64`'s equality, on the bits: no NaN is equal to anything, and the zeros are equal.
is_nan : ℕ → Bool
is_nan bits = ltb (2047 * 2 ^ 52) (bits % 2 ^ 63)

f64_eq : ℕ → ℕ → Bool
unfolding is_nan
f64_eq a b = not (is_nan a || is_nan b) && (a == b || (a % 2 ^ 63 == 0 && b % 2 ^ 63 == 0))

bool_eq : Bool → Bool → Bool
bool_eq true b = b
bool_eq false b = not b

-- The derived `PartialEq` of `Unknown`.
unfoldable mutual
  unfolding f64_eq bool_eq

  pub unknown_eq : Unknown → Unknown → Bool
  unknown_eq null null = true
  unknown_eq (bool a) (bool b) = bool_eq a b
  unknown_eq (i64 a) (i64 b) = a == b
  unknown_eq (f64 a) (f64 b) = f64_eq a b
  unknown_eq (string a) (string b) = text_eq a b
  unknown_eq (array xs) (array ys) = items_eq xs ys
  unknown_eq (object fs) (object gs) = fields_eq fs gs
  unknown_eq _ _ = false

  pub items_eq : Items → Items → Bool
  items_eq nil nil = true
  items_eq (item x xs) (item y ys) = unknown_eq x y && items_eq xs ys
  items_eq _ _ = false

  pub fields_eq : Fields → Fields → Bool
  fields_eq end end = true
  fields_eq (entry j x fs) (entry k y gs) = text_eq j k && (unknown_eq x y && fields_eq fs gs)
  fields_eq _ _ = false

-- `BTreeMap::remove`, without the value
abbrev pub drop_field : Text → Fields → Fields
drop_field name end = end
drop_field name (entry k v rest) = if text_eq k name then rest else entry k v (drop_field name rest)

-- `Vec::remove`, without the value
abbrev pub drop_item : ℕ → Items → Items
drop_item i nil = nil
drop_item zero (item x xs) = xs
drop_item (suc i) (item x xs) = item x (drop_item i xs)

unfoldable pub apply_replace : Unknown → Text → Unknown → Result Unknown PatchError
unfolding get_at_path set_at_path
apply_replace doc path value = do
  found ← at_path (get_at_path doc path)
  at_path (set_at_path doc path value)

unfoldable pub apply_add : Unknown → Text → Unknown → Result Unknown PatchError
unfolding apply_replace create_at_path
apply_add doc [] value = ok value
apply_add doc (c ∷ cs) value = elim (get_at_path doc (c ∷ cs)) [
  | ok found ↦ apply_replace doc (c ∷ cs) value
  | err e ↦ at_path (create_at_path doc (c ∷ cs) value)
]

-- The `match` on the parent and the last segment in `apply_remove`.
unfoldable pub detach : Text → Unknown → PathSegment → Result Unknown PatchError
detach path (object fields) (field name) = elim (lookup name fields) [
  | none ↦ err (missing path (no_field name))
  | some v ↦ ok (object (drop_field name fields))
]
detach path (array items) (index i) =
    if leb (count items) i then err (missing path (no_index i)) else ok (array (drop_item i items))
detach path other segment = err (missing path (cannot_remove segment other))

-- `apply_remove` after the path is parsed, on the segments from the last one to the first.
unfoldable pub remove_back : Unknown → Text → List PathSegment → Result Unknown PatchError
unfolding detach segments_to_dot get_at_path set_at_path
remove_back doc path [] = err (missing path remove_root)
remove_back doc path (last ∷ []) = detach path doc last
remove_back doc path (last ∷ up ∷ ups) = do
  let parent_path = segments_to_dot (reverse (up ∷ ups))
  parent ← at_path (get_at_path doc parent_path)
  updated ← detach path parent last
  at_path (set_at_path doc parent_path updated)

unfoldable pub apply_remove : Unknown → Text → Result Unknown PatchError
unfolding remove_back parse_path
apply_remove doc [] = err (missing [] remove_root)
apply_remove doc (c ∷ cs) = remove_back doc (c ∷ cs) (reverse (parse_path (c ∷ cs)))

unfoldable pub apply_move : Unknown → Text → Text → Result Unknown PatchError
unfolding apply_remove apply_add
apply_move doc from path = do
  value ← at_path (get_at_path doc from)
  without ← apply_remove doc from
  apply_add without path value

unfoldable pub apply_copy : Unknown → Text → Text → Result Unknown PatchError
unfolding apply_add
apply_copy doc from path = do value ← at_path (get_at_path doc from); apply_add doc path value

unfoldable pub apply_test : Unknown → Text → Unknown → Result Unknown PatchError
unfolding unknown_eq
apply_test doc path value = do
  current ← at_path (get_at_path doc path)
  if not (unknown_eq current value) then err (missing path mismatch) else ok doc

unfoldable pub apply_patch : Unknown → PatchOp → Result Unknown PatchError
unfolding apply_move apply_copy apply_test
apply_patch doc (add_op path value) = apply_add doc path value
apply_patch doc (replace_op path value) = apply_replace doc path value
apply_patch doc (remove_op path) = apply_remove doc path
apply_patch doc (move_op from path) = apply_move doc from path
apply_patch doc (copy_op from path) = apply_copy doc from path
apply_patch doc (test_op path value) = apply_test doc path value

unfoldable pub apply_patches : Unknown → List PatchOp → Result Unknown PatchError
unfolding apply_patch
apply_patches doc [] = ok doc
apply_patches doc (op ∷ ops) = do next ← apply_patch doc op; apply_patches next ops
