-- ===== src/Optics/PatchLaws.antt =====
-- What the operations of JSON Patch leave.
use effect_rs.Prelude.{
  ◌≡◌, refl, sym, ◌∙◌, true, [], ◌∷◌, Result, ok, err, chain_steps, arith, inl, inr, Result-cases,
}
use effect_rs.Optics.Paths.{Text, parse_path}
use effect_rs.Optics.Documents.{Unknown, SchemaPathError, get_at_path, set_at_path, create_at_path}
use effect_rs.Optics.Writes.{all_readable, get-create_at_segments, set_at_segments-get}
use effect_rs.Optics.Patches.{
  PatchOp, add_op, replace_op, remove_op, move_op, copy_op, test_op, at_path, unknown_eq,
  apply_replace, apply_add, apply_remove, apply_move, apply_copy, apply_test, apply_patch,
}

pub at_path-eq-ok :
    {A : Type 0} (r : Result A SchemaPathError) {a : A} → at_path r ≡ ok a → r ≡ ok a
at_path-eq-ok (ok b) h = ground (arith, h)
at_path-eq-ok (err e) h = cc

get-set_at_path :
    (doc : Unknown) (path : Text) (value : Unknown) {found : Unknown}
    → get_at_path doc path ≡ ok found
    → (doc' : Unknown) × (set_at_path doc path value ≡ ok doc') × (get_at_path doc' path ≡ ok value)
unfolding get_at_path set_at_path
get-set_at_path doc [] value h = (value, refl, refl)
get-set_at_path doc (c ∷ cs) value h =
    set_at_segments-get doc (parse_path (c ∷ cs)) value (c ∷ cs) (c ∷ cs) h

-- `replace` of a path that can be read succeeds, and the path then reads as the new value.
pub apply_replace-stores :
    (doc : Unknown) (path : Text) (value : Unknown) {found : Unknown}
    → get_at_path doc path ≡ ok found
    → (doc' : Unknown) × (apply_replace doc path value ≡ ok doc')
      × (get_at_path doc' path ≡ ok value)
unfolding apply_replace
apply_replace-stores doc path value h =
    let (doc', set, stored) = get-set_at_path doc path value h in
    (doc', rw (h, at_path, set) refl, stored)

replaced-found :
    (doc : Unknown) (path : Text) (value : Unknown) {doc' : Unknown}
    → apply_replace doc path value ≡ ok doc'
    → (found : Unknown) × (get_at_path doc path ≡ ok found)
unfolding apply_replace
replaced-found doc path value h =
    let (found, got, rest) = chain_steps (at_path (get_at_path doc path)) _ h in
    (found, at_path-eq-ok (get_at_path doc path) got)

replace-stores :
    (doc : Unknown) (path : Text) (value : Unknown) {doc' : Unknown}
    → apply_replace doc path value ≡ ok doc'
    → get_at_path doc' path ≡ ok value
replace-stores doc path value h =
    let (found, got) = replaced-found doc path value h in
    let (doc'', run, stored) = apply_replace-stores doc path value got in
    ground (arith, run, h, stored)

create-stores :
    (doc : Unknown) (path : Text) (value : Unknown) {doc' : Unknown}
    → all_readable (parse_path path) ≡ true
    → create_at_path doc path value ≡ ok doc'
    → get_at_path doc' path ≡ ok value
unfolding get_at_path create_at_path
create-stores doc [] value r h = sym h
create-stores doc (c ∷ cs) value r h =
    get-create_at_segments doc (parse_path (c ∷ cs)) value (c ∷ cs) (c ∷ cs) r h

add-stores :
    (doc : Unknown) (path : Text) (value : Unknown) {doc' : Unknown}
    → all_readable (parse_path path) ≡ true
    → apply_add doc path value ≡ ok doc'
    → get_at_path doc' path ≡ ok value
unfolding apply_add get_at_path
add-stores doc [] value r h = ground (arith, h)
add-stores doc (c ∷ cs) value r h = elim (Result-cases (get_at_path doc (c ∷ cs))) [
  | inl (found, e) ↦ replace-stores doc (c ∷ cs) value (rw (e, apply_add) at h)
  | inr (e', e) ↦ create-stores doc (c ∷ cs) value r (at_path-eq-ok _ (rw (e, apply_add) at h))
]

copy-stores :
    (doc : Unknown) (from path : Text) {doc' : Unknown}
    → all_readable (parse_path path) ≡ true
    → apply_copy doc from path ≡ ok doc'
    → get_at_path doc' path ≡ get_at_path doc from
unfolding apply_copy
copy-stores doc from path r h =
    let (value, got, added) = chain_steps (at_path (get_at_path doc from)) _ h in
    add-stores doc path value r added ∙ sym (at_path-eq-ok (get_at_path doc from) got)

move-stores :
    (doc : Unknown) (from path : Text) {doc' : Unknown}
    → all_readable (parse_path path) ≡ true
    → apply_move doc from path ≡ ok doc'
    → get_at_path doc' path ≡ get_at_path doc from
unfolding apply_move
move-stores doc from path r h =
    let (value, got, rest) = chain_steps (at_path (get_at_path doc from)) _ h in
    let (without, removed, added) = chain_steps (apply_remove doc from) _ rest in
    add-stores without path value r added ∙ sym (at_path-eq-ok (get_at_path doc from) got)

test-keeps :
    (doc : Unknown) (path : Text) (value : Unknown) {doc' : Unknown}
    → apply_test doc path value ≡ ok doc'
    → (doc' ≡ doc)
      × ((found : Unknown) × (get_at_path doc path ≡ ok found) × (unknown_eq found value ≡ true))
unfolding apply_test
test-keeps doc path value h =
    let (found, got, rest) = chain_steps (at_path (get_at_path doc path)) _ h in
    (ground (arith, rest), (found, at_path-eq-ok (get_at_path doc path) got, ground (arith, rest)))

-- The path that an operation writes to.
abbrev pub target : PatchOp → Text
target (add_op path value) = path
target (replace_op path value) = path
target (remove_op path) = path
target (move_op from path) = path
target (copy_op from path) = path
target (test_op path value) = path

-- What an operation other than `remove` leaves.
abbrev pub Leaves : Unknown → PatchOp → Unknown → Type 0
Leaves doc (add_op path value) doc' = get_at_path doc' path ≡ ok value
Leaves doc (replace_op path value) doc' = get_at_path doc' path ≡ ok value
Leaves doc (remove_op path) doc' = Unit
Leaves doc (move_op from path) doc' = get_at_path doc' path ≡ get_at_path doc from
Leaves doc (copy_op from path) doc' = get_at_path doc' path ≡ get_at_path doc from
Leaves doc (test_op path value) doc' =
    (doc' ≡ doc)
    × ((found : Unknown) × (get_at_path doc path ≡ ok found) × (unknown_eq found value ≡ true))

-- When an operation whose path has no append segment succeeds, then after `add` and `replace` the
-- path reads as the given value, after `move` and `copy` as the source's value before, and `test`
-- leaves the document, in which the path reads as a value equal to the given one.
pub apply_patch-Leaves :
    (doc : Unknown) (op : PatchOp) {doc' : Unknown}
    → all_readable (parse_path (target op)) ≡ true
    → apply_patch doc op ≡ ok doc'
    → Leaves doc op doc'
unfolding apply_patch
apply_patch-Leaves doc (add_op path value) r h = add-stores doc path value r h
apply_patch-Leaves doc (replace_op path value) r h = replace-stores doc path value h
apply_patch-Leaves doc (remove_op path) r h = tt
apply_patch-Leaves doc (move_op from path) r h = move-stores doc from path r h
apply_patch-Leaves doc (copy_op from path) r h = copy-stores doc from path r h
apply_patch-Leaves doc (test_op path value) r h = test-keeps doc path value h
