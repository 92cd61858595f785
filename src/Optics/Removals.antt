-- ===== src/Optics/Removals.antt =====
-- What `remove` of JSON Patch leaves.
use effect_rs.Prelude.{
  ℕ, zero, suc, ◌≡◌, ◌≢◌, refl, sym, ap, ◌∙◌, false, none, some, leb, Bool-cases, Option-cases,
  List, [], ◌∷◌, ok, chain_steps, arith, inl, inr,
}
use mathlib.Core.Path.{subst}
use effect_rs.Optics.Paths.{
  Text, text_eq, PathSegment, field, index, append, segments_to_dot, parse_path,
}
use effect_rs.Optics.Access.{text_eq_iff}
use effect_rs.Optics.Documents.{
  Unknown, null, bool, i64, f64, string, array, object, Items, nil, item, Fields, end, entry, count,
  lookup, reverse, get_at_segments, set_at_segments, get_at_path, set_at_path,
}
use effect_rs.Optics.Writes.{get_rest-any, set_at_segments-get, reverse-reverse}
use effect_rs.Optics.Patches.{at_path, detach, apply_remove, remove_back, drop_field, drop_item}
use effect_rs.Optics.PatchLaws.{at_path-eq-ok}

get_at_path-nonempty :
    (doc : Unknown) (path : Text)
    → path ≢ []
    → get_at_path doc path ≡ get_at_segments doc (parse_path path) path
unfolding get_at_path
get_at_path-nonempty doc [] n = absurd (n refl)
get_at_path-nonempty doc (c ∷ cs) n = refl

set_at_path-nonempty :
    (doc : Unknown) (path : Text) (value : Unknown)
    → path ≢ []
    → set_at_path doc path value ≡ set_at_segments doc (parse_path path) value path
unfolding set_at_path
set_at_path-nonempty doc [] value n = absurd (n refl)
set_at_path-nonempty doc (c ∷ cs) value n = refl

removed-back :
    (doc : Unknown) (path : Text) (last : PathSegment) (ups : List PathSegment) {doc' : Unknown}
    → path ≢ []
    → parse_path path ≡ reverse (last ∷ ups)
    → apply_remove doc path ≡ ok doc'
    → remove_back doc path (last ∷ ups) ≡ ok doc'
unfolding apply_remove
removed-back doc [] last ups n parsed h = absurd (n refl)
removed-back doc (c ∷ cs) last ups {doc'} n parsed h =
    subst (λ ss. remove_back doc (c ∷ cs) ss ≡ ok doc')
      (ap reverse parsed ∙ reverse-reverse (last ∷ ups)) h

abbrev joined_fields : Fields → Fields → Fields
joined_fields end after = after
joined_fields (entry k v rest) after = entry k v (joined_fields rest after)

abbrev joined_items : Items → Items → Items
joined_items nil after = after
joined_items (item x rest) after = item x (joined_items rest after)

-- The second document is the first without the value at the segment: the one field of that name,
-- or the element at that index, is gone from its place, and everything before and after it stays.
abbrev pub TakenOut : PathSegment → Unknown → Unknown → Type 0
TakenOut (field name) parent updated =
    (before after : Fields) × (v : Unknown) × (parent
      ≡ object (joined_fields before (entry name v after)))
    × (lookup name before ≡ none)
    × (updated ≡ object (joined_fields before after))
TakenOut (index i) parent updated =
    (before after : Items) × (x : Unknown) × (parent ≡ array (joined_items before (item x after)))
    × (count before ≡ i)
    × (updated ≡ array (joined_items before after))
TakenOut append parent updated = ⊥

drop_field-parts :
    (name : Text) (fields : Fields) (v : Unknown)
    → lookup name fields ≡ some v
    → (before after : Fields) × (fields ≡ joined_fields before (entry name v after))
      × (lookup name before ≡ none)
      × (drop_field name fields ≡ joined_fields before after)
drop_field-parts name end v h = absurd (cc h)
drop_field-parts name (entry k w rest) v h = elim (Bool-cases (text_eq k name)) [
  | inl e ↦
      let same : k ≡ name = (text_eq_iff k name).0 e in
      let value : w ≡ v = ground (arith, h, e) in
      (end, rest, rw (same, value) refl, refl, rw e refl)
  | inr e ↦
      let (before, after, split, fresh, dropped) =
        drop_field-parts name rest v (ground (arith, h, e)) in
      (entry k w before, after, ap (entry k w) split, rw e fresh, rw e (ap (entry k w) dropped))
]

drop_item-parts :
    (i : ℕ) (items : Items)
    → leb (count items) i ≡ false
    → (before after : Items) × (x : Unknown) × (items ≡ joined_items before (item x after))
      × (count before ≡ i)
      × (drop_item i items ≡ joined_items before after)
drop_item-parts i nil h = absurd (ground arith)
drop_item-parts zero (item x rest) h = (nil, rest, x, refl, refl, refl)
drop_item-parts (suc i) (item y rest) h =
    let (before, after, x, split, at_i, dropped) = drop_item-parts i rest (ground arith) in
    (item y before, after, x, ap (item y) split, ap suc at_i, ap (item y) dropped)

detach-TakenOut :
    (path : Text) (parent : Unknown) (last : PathSegment) {updated : Unknown}
    → detach path parent last ≡ ok updated
    → TakenOut last parent updated
unfolding detach
detach-TakenOut path (object fields) (field name) {updated} h =
    elim (Option-cases (lookup name fields)) [
      | inl e ↦ absurd (ground (arith, h, e))
      | inr (v, e) ↦
          let (before, after, split, fresh, dropped) = drop_field-parts name fields v e in
          let left : object (drop_field name fields) ≡ updated = ground (arith, h, e) in
          (before, after, v, ap object split, fresh, sym left ∙ ap object dropped)
    ]
detach-TakenOut path (array items) (index i) {updated} h = elim (Bool-cases (leb (count items) i)) [
  | inl e ↦ absurd (ground (arith, h, e))
  | inr e ↦
      let (before, after, x, split, at_i, dropped) = drop_item-parts i items e in
      let left : array (drop_item i items) ≡ updated = ground (arith, h, e) in
      (before, after, x, ap array split, at_i, sym left ∙ ap array dropped)
]
detach-TakenOut path (object fields) (index i) h = absurd (cc h)
detach-TakenOut path (object fields) append h = absurd (cc h)
detach-TakenOut path (array items) (field name) h = absurd (cc h)
detach-TakenOut path (array items) append h = absurd (cc h)
detach-TakenOut path null last h = absurd (cc h)
detach-TakenOut path (bool b) last h = absurd (cc h)
detach-TakenOut path (i64 n) last h = absurd (cc h)
detach-TakenOut path (f64 n) last h = absurd (cc h)
detach-TakenOut path (string s) last h = absurd (cc h)

-- The text of the parent's segments, from the last one to the first, reads back as them.
abbrev pub ReadsBack : List PathSegment → Type 0
ReadsBack [] = Unit
ReadsBack (up ∷ ups) =
    (segments_to_dot (reverse (up ∷ ups)) ≢ [])
    × (parse_path (segments_to_dot (reverse (up ∷ ups))) ≡ reverse (up ∷ ups))

-- The value at the last segment is taken out of the parent: of the document, or of what stands at
-- the parent's segments.
abbrev pub Removed : Unknown → Text → PathSegment → List PathSegment → Unknown → Type 0
Removed doc path last [] doc' = TakenOut last doc doc'
Removed doc path last (up ∷ ups) doc' =
    (parent updated : Unknown) × (get_at_segments doc (reverse (up ∷ ups)) path ≡ ok parent)
    × TakenOut last parent updated
    × (get_at_segments doc' (reverse (up ∷ ups)) path ≡ ok updated)

-- When `remove` of a path with at least one segment succeeds and the text of its parent's segments,
-- where it has a parent, reads back as them, then the parent (the document for one segment) with
-- the named field, or the element at the index, taken out of its place, and all else of it in
-- order, stands where the parent stood.
pub apply_remove-detaches :
    (doc : Unknown) (path : Text) (last : PathSegment) (ups : List PathSegment) {doc' : Unknown}
    → path ≢ []
    → parse_path path ≡ reverse (last ∷ ups)
    → ReadsBack ups
    → apply_remove doc path ≡ ok doc'
    → Removed doc path last ups doc'
unfolding remove_back
apply_remove-detaches doc path last [] {doc'} n parsed back h =
    detach-TakenOut path doc last (removed-back doc path last [] n parsed h)
apply_remove-detaches doc path last (up ∷ ups) {doc'} n parsed (n', back) h =
    let parents = reverse (up ∷ ups) in
    let parent_path = segments_to_dot parents in
    let run : remove_back doc path (last ∷ up ∷ ups) ≡ ok doc' =
      removed-back doc path last (up ∷ ups) n parsed h in
    let (parent, got, rest) = chain_steps (at_path (get_at_path doc parent_path)) _ run in
    let (updated, detached, set) = chain_steps (detach path parent last) _ rest in
    let got' : get_at_segments doc parents parent_path ≡ ok parent =
      subst (λ ss. get_at_segments doc ss parent_path ≡ ok parent) back
        (sym (get_at_path-nonempty doc parent_path n') ∙ at_path-eq-ok _ got) in
    let set' : set_at_segments doc parents updated parent_path ≡ ok doc' =
      subst (λ ss. set_at_segments doc ss updated parent_path ≡ ok doc') back
        (sym (set_at_path-nonempty doc parent_path updated n') ∙ at_path-eq-ok _ set) in
    let (doc'', run', stored) =
      set_at_segments-get doc parents updated parent_path path
        (get_rest-any [] [] doc parents parent_path path got') in
    let same : doc'' ≡ doc' = ground (arith, run', set') in
    (
      parent,
      updated,
      get_rest-any [] [] doc parents parent_path path got',
      detach-TakenOut path parent last detached,
      subst (λ d. get_at_segments d parents path ≡ ok updated) same stored,
    )
