-- ===== src/Tests/Documents.antt =====
-- Runs of the document paths, of JSON Patch and of the zipper.
use effect_rs.Prelude.{ℕ, ◌≡◌, ◌≢◌, refl, true, some, [], ◌∷◌, ok, err}
use effect_rs.Optics.Paths.{Text, field, index, append, parse_path, segments_to_dot}
use effect_rs.Optics.Documents.{
  Unknown, null, i64, array, object, nil, item, end, entry, get_at_segments, set_at_segments,
  get_at_path, set_at_path, missing_field,
}
use effect_rs.Optics.Writes.{all_readable}
use effect_rs.Optics.Patches.{add_op, apply_remove, apply_patch, path_failed}
use effect_rs.Optics.PatchLaws.{Leaves, apply_patch-Leaves}
use effect_rs.Optics.Removals.{Removed, apply_remove-detaches}
use effect_rs.Optics.Zipper.{
  TrieNode, node, TrieZipper, leaf, start_at, descend, ascend, rebuild, set_value, edge, no_edge,
}
use effect_rs.Optics.ZipperLaws.{descend-keeps, node_at, keys_of, rebuild-focus}

-- { "a": [1, 2], "b": null }
abbrev doc : Unknown
doc = object (entry (97 ∷ []) (array (item (i64 1) (item (i64 2) nil))) (entry (98 ∷ []) null end))

-- "a.0" and "a.1"
abbrev a_0 : Text
a_0 = 97 ∷ 46 ∷ 48 ∷ []

abbrev a_1 : Text
a_1 = 97 ∷ 46 ∷ 49 ∷ []

parse_a_0 : parse_path a_0 ≡ field (97 ∷ []) ∷ index 0 ∷ []
unfolding parse_path
parse_a_0 = refl

-- "/~01-/-" is the field "~1-" and an append.
parse_escaped :
    parse_path (47 ∷ 126 ∷ 48 ∷ 49 ∷ 45 ∷ 47 ∷ 45 ∷ []) ≡ field (126 ∷ 49 ∷ 45 ∷ []) ∷ append ∷ []
unfolding parse_path
parse_escaped = refl

show_path :
    segments_to_dot (field (97 ∷ []) ∷ index 105 ∷ append ∷ [])
    ≡ 97 ∷ 46 ∷ 49 ∷ 48 ∷ 53 ∷ 46 ∷ 45 ∷ []
unfolding segments_to_dot
show_path = refl

get_a_1 : get_at_path doc a_1 ≡ ok (i64 2)
unfolding get_at_path
get_a_1 = refl

a_0_readable : all_readable (parse_path a_0) ≡ true
unfolding parse_path
a_0_readable = refl

-- `add` at an index of the array replaces what stands there.
add_replaces :
    apply_patch doc (add_op a_0 (i64 7))
    ≡ ok (
        object
          (entry (97 ∷ []) (array (item (i64 7) (item (i64 2) nil))) (entry (98 ∷ []) null end)))
unfolding apply_patch
add_replaces = refl

-- The document without the array's first item.
abbrev removed : Unknown
removed = object (entry (97 ∷ []) (array (item (i64 2) nil)) (entry (98 ∷ []) null end))

remove_a_0 : apply_remove doc a_0 ≡ ok removed
unfolding apply_remove
remove_a_0 = refl

-- "/a.b/0" names the field "a.b", but `remove` reads its parent's text "a.b" as two fields.
abbrev dotted : Unknown
dotted = object (entry (97 ∷ 46 ∷ 98 ∷ []) (array (item null nil)) end)

abbrev slash_dotted : Text
slash_dotted = 47 ∷ 97 ∷ 46 ∷ 98 ∷ 47 ∷ 48 ∷ []

remove_dotted :
    (get_at_path dotted slash_dotted ≡ ok null)
    × (apply_remove dotted slash_dotted
        ≡ err (path_failed (record { path = 97 ∷ []; reason = missing_field (97 ∷ []) })))
unfolding apply_remove get_at_path
remove_dotted = (refl, refl)

abbrev replaced : Unknown
replaced =
    object (entry (97 ∷ []) (array (item (i64 7) (item (i64 2) nil))) (entry (98 ∷ []) null end))

apply_patch-Leaves_example : Leaves doc (add_op a_0 (i64 7)) replaced
apply_patch-Leaves_example = apply_patch-Leaves doc (add_op a_0 (i64 7)) a_0_readable add_replaces

parents_read : parse_path (segments_to_dot (field (97 ∷ []) ∷ [])) ≡ field (97 ∷ []) ∷ []
unfolding parse_path segments_to_dot
parents_read = refl

parent_text : segments_to_dot (field (97 ∷ []) ∷ []) ≢ []
unfolding segments_to_dot
parent_text e = cc

apply_remove-detaches_example : Removed doc a_0 (index 0) (field (97 ∷ []) ∷ []) removed
apply_remove-detaches_example =
    apply_remove-detaches doc a_0 (index 0) (field (97 ∷ []) ∷ []) (λ e. cc) parse_a_0
      (parent_text, parents_read) remove_a_0

read_item : get_at_segments doc (field (97 ∷ []) ∷ index 1 ∷ []) a_1 ≡ ok (i64 2)
unfolding get_at_path
read_item = refl

-- A missing last field is created, although the target is asked to exist.
set_creates :
    set_at_segments (object end) (field (97 ∷ []) ∷ []) null (97 ∷ [])
    ≡ ok (object (entry (97 ∷ []) null end))
unfolding get_at_path set_at_path
set_creates = refl

abbrev root : TrieNode ℕ
root = node (some 1) (edge 97 (leaf 2) no_edge)

abbrev at_child : TrieZipper ℕ
at_child = record { focus = leaf 2; path = (97, root) ∷ [] }

root_descended : descend (start_at root) 97 ≡ some at_child
unfolding descend start_at
root_descended = refl

descend-keeps_example :
    (rebuild at_child ≡ rebuild (start_at root)) × (ascend at_child ≡ some (start_at root))
descend-keeps_example = descend-keeps (start_at root) at_child 97 root_descended

rebuild-focus_example :
    node_at (keys_of (set_value at_child 5).path) (rebuild (set_value at_child 5))
    ≡ some (set_value at_child 5).focus
rebuild-focus_example = rebuild-focus (set_value at_child 5)

-- A step up drops the edit.
ascend_forgets : ascend (set_value at_child 5) ≡ some (start_at root)
unfolding ascend set_value start_at
ascend_forgets = refl
