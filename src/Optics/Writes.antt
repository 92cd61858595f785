-- ===== src/Optics/Writes.antt =====
-- A value that a write stores is what a read of the same path gives.
use effect_rs.Prelude.{
  ◌≡◌, refl, sym, ap, ◌∙◌, Bool, true, false, ◌&&◌, List, [], ◌∷◌, ◌++◌, ok, err, ◌>>=◌,
  chain_steps, arith,
}
use mathlib.Core.Path.{subst}
use effect_rs.Optics.Paths.{Text, PathSegment, segments_to_dot}
use effect_rs.Optics.Documents.{
  Unknown, reverse, get_step, get_rest, get_at_segments, assign_segment, set_back, set_at_segments,
  create_back, create_at_segments, default_container_for,
}
use effect_rs.Optics.Access.{
  readable, get_step-any, get_step-assign, assign-get_step, get_step-readable,
}

abbrev pub all_readable : List PathSegment → Bool
all_readable [] = true
all_readable (s ∷ ss) = readable s && all_readable ss

get_rest-snoc :
    (before : List PathSegment) (v : Unknown) (ss : List PathSegment) (s : PathSegment)
    (path : Text) (p q : Text) {u w : Unknown}
    → get_rest before v ss path ≡ ok u
    → get_step p q u s ≡ ok w
    → get_rest before v (ss ++ s ∷ []) path ≡ ok w
unfolding get_rest
get_rest-snoc before v [] s path p q {u} {w} h k =
    let same : u ≡ v = ground (arith, h) in
    let step = get_step-any p q (segments_to_dot (before ++ s ∷ [])) path v s (rw (sym same) k) in
    rw step refl
get_rest-snoc before v (t ∷ ts) s path p q h k =
    let (next, first, rest) =
      chain_steps (get_step (segments_to_dot (before ++ t ∷ [])) path v t) _ h in
    rw first (get_rest-snoc (before ++ t ∷ []) next ts s path p q rest k)

pub get_rest-any :
    (before before' : List PathSegment) (v : Unknown) (ss : List PathSegment) (path path' : Text)
    {w : Unknown}
    → get_rest before v ss path ≡ ok w
    → get_rest before' v ss path' ≡ ok w
unfolding get_rest
get_rest-any before before' v [] path path' h = h
get_rest-any before before' v (t ∷ ts) path path' h =
    let (next, first, rest) =
      chain_steps (get_step (segments_to_dot (before ++ t ∷ [])) path v t) _ h in
    let first' = get_step-any _ _ (segments_to_dot (before' ++ t ∷ [])) path' v t first in
    rw first' (get_rest-any (before ++ t ∷ []) (before' ++ t ∷ []) next ts path path' rest)

reverse-snoc : (ss : List PathSegment) (s : PathSegment) → reverse (ss ++ s ∷ []) ≡ s ∷ reverse ss
reverse-snoc [] s = refl
reverse-snoc (t ∷ ts) s = ap (λ l. l ++ t ∷ []) (reverse-snoc ts s)

pub reverse-reverse : (ss : List PathSegment) → reverse (reverse ss) ≡ ss
reverse-reverse [] = refl
reverse-reverse (s ∷ ss) = reverse-snoc (reverse ss) s ∙ ap (λ l. s ∷ l) (reverse-reverse ss)

get-set_back :
    (v : Unknown) (back : List PathSegment) (new : Unknown) (path path' : Text) {v' : Unknown}
    → all_readable back ≡ true
    → set_back v back new path ≡ ok v'
    → get_at_segments v' (reverse back) path' ≡ ok new
unfolding set_back get_rest
get-set_back v [] new path path' r h = sym h
get-set_back v (last ∷ parents) new path path' r h =
    let (parent, got, rest) = chain_steps (get_at_segments v (reverse parents) path) _ h in
    let (updated, assigned, set) = chain_steps (assign_segment parent last new path false) _ rest in
    let above = get-set_back v parents updated path path' (ground arith) set in
    get_rest-snoc [] _ (reverse parents) last path' [] [] above
      (get_step-assign [] [] path false parent last new (ground arith) assigned)

get-create_back :
    (v : Unknown) (back : List PathSegment) (new : Unknown) (path path' : Text) {v' : Unknown}
    → all_readable back ≡ true
    → create_back v back new path ≡ ok v'
    → get_at_segments v' (reverse back) path' ≡ ok new
unfolding create_back get_rest
get-create_back v [] new path path' r h = sym h
get-create_back v (last ∷ parents) new path path' r h =
    let (parent, got, rest) =
      chain_steps
        (elim (get_at_segments v (reverse parents) path) [
          | ok parent ↦ ok parent
          | err e ↦ do
            ensured ← create_back v parents (default_container_for last) path
            get_at_segments ensured (reverse parents) path
        ])
        _ h in
    let (updated, assigned, created) =
      chain_steps (assign_segment parent last new path true) _ rest in
    let above = get-create_back v parents updated path path' (ground arith) created in
    get_rest-snoc [] _ (reverse parents) last path' [] [] above
      (get_step-assign [] [] path true parent last new (ground arith) assigned)

all_readable-snoc :
    (ss : List PathSegment) (s : PathSegment)
    → all_readable (ss ++ s ∷ []) ≡ (all_readable ss && readable s)
all_readable-snoc [] s = ground arith
all_readable-snoc (t ∷ ts) s = ground (arith, all_readable-snoc ts s)

all_readable-reverse : (ss : List PathSegment) → all_readable (reverse ss) ≡ all_readable ss
all_readable-reverse [] = refl
all_readable-reverse (s ∷ ss) =
    ground (arith, all_readable-reverse ss, all_readable-snoc (reverse ss) s)

-- When a document is set at segments without an append, a read of the segments gives the value.
pub get-set_at_segments :
    (v : Unknown) (segments : List PathSegment) (new : Unknown) (path path' : Text) {v' : Unknown}
    → all_readable segments ≡ true
    → set_at_segments v segments new path ≡ ok v'
    → get_at_segments v' segments path' ≡ ok new
get-set_at_segments v segments new path path' {v'} r h =
    subst (λ ss. get_at_segments v' ss path' ≡ ok new) (reverse-reverse segments)
      (get-set_back v (reverse segments) new path path' (all_readable-reverse segments ∙ r) h)

-- When a document is created at segments without an append, a read of the segments gives the
-- value.
pub get-create_at_segments :
    (v : Unknown) (segments : List PathSegment) (new : Unknown) (path path' : Text) {v' : Unknown}
    → all_readable segments ≡ true
    → create_at_segments v segments new path ≡ ok v'
    → get_at_segments v' segments path' ≡ ok new
get-create_at_segments v segments new path path' {v'} r h =
    subst (λ ss. get_at_segments v' ss path' ≡ ok new) (reverse-reverse segments)
      (get-create_back v (reverse segments) new path path' (all_readable-reverse segments ∙ r) h)

get_rest-unsnoc :
    (before : List PathSegment) (v : Unknown) (ss : List PathSegment) (s : PathSegment)
    (path : Text) {w : Unknown}
    → get_rest before v (ss ++ s ∷ []) path ≡ ok w
    → (u : Unknown) × (get_rest before v ss path ≡ ok u) × (get_step [] [] u s ≡ ok w)
unfolding get_rest
get_rest-unsnoc before v [] s path h =
    let (next, first, rest) =
      chain_steps (get_step (segments_to_dot (before ++ s ∷ [])) path v s) _ h in
    (v, refl, get_step-any _ path [] [] v s (first ∙ rest))
get_rest-unsnoc before v (t ∷ ts) s path h =
    let (next, first, rest) =
      chain_steps (get_step (segments_to_dot (before ++ t ∷ [])) path v t) _ h in
    let (u, got, last) = get_rest-unsnoc (before ++ t ∷ []) next ts s path rest in
    let here : get_rest before v (t ∷ ts) path ≡ ok u = ground (arith, first, got) in
    (u, here, last)

set_back-get :
    (v : Unknown) (back : List PathSegment) (new : Unknown) (path path' : Text) {w : Unknown}
    → get_at_segments v (reverse back) path' ≡ ok w
    → (v' : Unknown) × (set_back v back new path ≡ ok v') × (all_readable back ≡ true)
unfolding set_back
set_back-get v [] new path path' h = (new, refl, refl)
set_back-get v (last ∷ parents) new path path' h =
    let (parent, got, step) = get_rest-unsnoc [] v (reverse parents) last path' h in
    let (updated, assigned) = assign-get_step [] [] path false parent last new step in
    let (v', set, all) = set_back-get v parents updated path path' got in
    let got' = get_rest-any [] [] v (reverse parents) path' path got in
    (v', rw (got', assigned) set, ground (arith, all, get_step-readable [] [] parent last step))

-- What can be read at segments can be set there, and then reads as the new value.
pub set_at_segments-get :
    (v : Unknown) (segments : List PathSegment) (new : Unknown) (path path' : Text) {w : Unknown}
    → get_at_segments v segments path' ≡ ok w
    → (v' : Unknown) × (set_at_segments v segments new path ≡ ok v')
      × (get_at_segments v' segments path' ≡ ok new)
set_at_segments-get v segments new path path' {w} h =
    let (v', set, all) =
      set_back-get v (reverse segments) new path path'
        (subst (λ ss. get_at_segments v ss path' ≡ ok w) (sym (reverse-reverse segments)) h) in
    (
      v',
      set,
      get-set_at_segments v segments new path path' (sym (all_readable-reverse segments) ∙ all) set,
    )
