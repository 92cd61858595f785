-- ===== src/Events/Stored.antt =====
-- crates/id_effect_events/src/event_store.rs: the events of a stream. Streams and events are named
-- by numbers.
use effect_rs.Prelude.{
  ℕ, suc, ◌+◌, ◌≡◌, refl, List, [], ◌∷◌, ◌++◌, leb, ◌==◌, if◌then◌else◌, length, arith,
}

pub record StoredEvent (E : Type 0) : Type 0 where
  pub event_id : ℕ
  pub version : ℕ
  pub payload : E

-- A map of streams.
abbrev pub Streams : Type 0 → Type 0
Streams E = List (ℕ × List (StoredEvent E))

module _ {E : Type 0} where
  -- A stream that is not there is empty.
  abbrev pub stream_of : ℕ → List (ℕ × List (StoredEvent E)) → List (StoredEvent E)
  stream_of id [] = []
  stream_of id ((k, events) ∷ rest) = if k == id then events else stream_of id rest

  abbrev pub set_stream :
      ℕ → List (StoredEvent E) → List (ℕ × List (StoredEvent E)) → List (ℕ × List (StoredEvent E))
  set_stream id new [] = (id, new) ∷ []
  set_stream id new ((k, events) ∷ rest) =
      if k == id then (k, new) ∷ rest else (k, events) ∷ set_stream id new rest

  -- The `filter` of both `read`s.
  abbrev pub from_on : ℕ → List (StoredEvent E) → List (StoredEvent E)
  from_on from [] = []
  from_on from (e ∷ es) =
      let rest = from_on from es in if leb from e.version then e ∷ rest else rest

  -- The versions of a stream are the numbers from `n` on.
  abbrev pub Counts : ℕ → List (StoredEvent E) → Type 0
  Counts n [] = Unit
  Counts n (e ∷ es) = (e.version ≡ n) × Counts (suc n) es

  pub stream_of-set :
      (id k : ℕ) (new : List (StoredEvent E)) (streams : List (ℕ × List (StoredEvent E)))
      → stream_of k (set_stream id new streams) ≡ (if id == k then new else stream_of k streams)
  stream_of-set id k new [] = refl
  stream_of-set id k new ((j, events) ∷ rest) = ground (arith, stream_of-set id k new rest)

  pub Counts-snoc :
      (n : ℕ) (es : List (StoredEvent E)) (e : StoredEvent E)
      → Counts n es
      → e.version ≡ n + length es
      → Counts n (es ++ e ∷ [])
  Counts-snoc n [] e c h = (omega arith, tt)
  Counts-snoc n (x ∷ xs) e c h = (c.0, Counts-snoc (suc n) xs e c.1 (omega arith))
