-- ===== src/Optics/Access.antt =====
-- What the reads of a document give after the writes.
use effect_rs.Prelude.{
  ℕ, zero, suc, ◌≡◌, refl, Bool, true, false, some, [], ◌∷◌, ok, ltb, if◌then◌else◌, arith, ◌↔◌,
}
use effect_rs.Optics.Paths.{Text, text_eq, PathSegment, field, index, append}
use effect_rs.Optics.Documents.{
  Unknown, array, object, Items, nil, item, Fields, end, entry, count, item_at, set_item, push,
  lookup, put, get_step, assign_segment,
}

pub text_eq_iff : (a b : Text) → (text_eq a b ≡ true) ↔ (a ≡ b)
text_eq_iff [] [] = (λ e. refl, λ e. refl)
text_eq_iff [] (b ∷ bs) = ground arith
text_eq_iff (a ∷ as_) [] = ground arith
text_eq_iff (a ∷ as_) (b ∷ bs) = ground (arith, text_eq_iff as_ bs)

pub lookup-put :
    (n m : Text) (v : Unknown) (fs : Fields)
    → lookup m (put n v fs) ≡ (if text_eq n m then some v else lookup m fs)
lookup-put n m v end = refl
lookup-put n m v (entry k w rest) =
    ground (arith, lookup-put n m v rest, text_eq_iff k n, text_eq_iff k m, text_eq_iff n m)

pub item_at-set :
    (i : ℕ) (v : Unknown) (xs : Items)
    → ltb i (count xs) ≡ true
    → item_at i (set_item i v xs) ≡ some v
item_at-set i v nil h = ground arith
item_at-set zero v (item x xs) h = refl
item_at-set (suc i) v (item x xs) h = item_at-set i v xs (ground arith)

item_at-push : (v : Unknown) (xs : Items) → item_at (count xs) (push v xs) ≡ some v
item_at-push v nil = refl
item_at-push v (item x xs) = item_at-push v xs

item_at-lt : (i : ℕ) (xs : Items) (w : Unknown) → item_at i xs ≡ some w → ltb i (count xs) ≡ true
item_at-lt i nil w h = ground arith
item_at-lt zero (item x xs) w h = ground arith
item_at-lt (suc i) (item x xs) w h = ground (arith, item_at-lt i xs w)

abbrev pub readable : PathSegment → Bool
readable append = false
readable _ = true

pub get_step-any :
    (p q p' q' : Text) (v : Unknown) (s : PathSegment) {x : Unknown}
    → get_step p q v s ≡ ok x
    → get_step p' q' v s ≡ ok x
unfolding get_step
get_step-any p q p' q' (object fs) (field n) h = ground arith
get_step-any p q p' q' (array xs) (index i) h = ground arith
get_step-any p q p' q' (array xs) append h = cc
get_step-any p q p' q' v s h = ground arith

pub get_step-assign :
    (p q path : Text) (allow : Bool) (v : Unknown) (s : PathSegment) (new : Unknown) {v' : Unknown}
    → readable s ≡ true
    → assign_segment v s new path allow ≡ ok v'
    → get_step p q v' s ≡ ok new
unfolding get_step assign_segment
get_step-assign p q path allow (object fs) (field n) new r h =
    ground (arith, lookup-put n n new fs, text_eq_iff n n)
get_step-assign p q path allow (array xs) (index i) new r h =
    ground (arith, item_at-set i new xs, item_at-push new xs)
get_step-assign p q path allow v s new r h = ground arith

-- What can be read can be assigned.
pub assign-get_step :
    (p q path : Text) (allow : Bool) (v : Unknown) (s : PathSegment) (new : Unknown) {w : Unknown}
    → get_step p q v s ≡ ok w
    → (v' : Unknown) × (assign_segment v s new path allow ≡ ok v')
unfolding get_step assign_segment
assign-get_step p q path allow (object fs) (field n) new h = (object (put n new fs), refl)
assign-get_step p q path allow (array xs) (index i) new {w} h =
    let inside = item_at-lt i xs w (ground arith) in (array (set_item i new xs), ground arith)
assign-get_step p q path allow (array xs) append new h = cc
assign-get_step p q path allow v s new h = ground arith

pub get_step-readable :
    (p q : Text) (v : Unknown) (s : PathSegment) {w : Unknown}
    → get_step p q v s ≡ ok w
    → readable s ≡ true
unfolding get_step
get_step-readable p q v (field n) h = refl
get_step-readable p q v (index n) h = refl
get_step-readable p q (array xs) append h = cc
get_step-readable p q v append h = ground arith
