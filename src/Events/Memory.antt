-- ===== src/Events/Memory.antt =====
-- `MemoryEventStore` of crates/id_effect_events/src/event_store.rs.
use effect_rs.Prelude.{
  ℕ, suc, ◌+◌, ◌-◌, ◌%◌, ◌^◌, ◌<◌, ◌≡◌, refl, sym, ◌∙◌, List, [], ◌∷◌, ◌++◌, leb, ◌==◌,
  if◌then◌else◌, length, length-append, arith, inl, inr, Bool-cases,
}
use mathlib.Core.Path.{subst}
use effect_rs.Coordination.Offers.{drop, drop_nil, snoc-append, append_nil}
use effect_rs.Events.Stored.{
  Streams, StoredEvent, stream_of, set_stream, from_on, Counts, stream_of-set,
}

-- `n as u64 + 1`
abbrev pub next_version : ℕ → ℕ
next_version n = (n + 1) % 2 ^ 64

module _ {E : Type 0} where
  -- The loop of `append` over the payloads, each beside the id that is drawn for it: the stream and
  -- what is given out.
  unfoldable pub push_each :
      List (ℕ × E)
      → List (StoredEvent E)
      → List (StoredEvent E)
      → List (StoredEvent E) × List (StoredEvent E)
  push_each [] stream out = (stream, out)
  push_each ((id, payload) ∷ rest) stream out =
      let stored : StoredEvent E = record {
        event_id = id;
        version = next_version (length stream);
        payload = payload;
      } in
      push_each rest (stream ++ stored ∷ []) (out ++ stored ∷ [])

  unfoldable pub append : ℕ → List (ℕ × E) → Streams E → List (StoredEvent E) × Streams E
  unfolding push_each
  append stream_id events streams =
      let (stream, out) = push_each events (stream_of stream_id streams) [] in
      (out, set_stream stream_id stream streams)

  unfoldable pub read : ℕ → ℕ → Streams E → List (StoredEvent E)
  read stream_id from_version streams = from_on from_version (stream_of stream_id streams)

  unfoldable pub latest_version : ℕ → Streams E → ℕ
  latest_version stream_id streams = length (stream_of stream_id streams) % 2 ^ 64

  -- What is stored for payloads that follow `n` events.
  abbrev pub stamp : ℕ → List (ℕ × E) → List (StoredEvent E)
  stamp n [] = []
  stamp n ((id, payload) ∷ rest) =
      record { event_id = id; version = suc n; payload = payload } ∷ stamp (suc n) rest

  push_each-stamp :
      (events : List (ℕ × E)) (stream out : List (StoredEvent E))
      → length stream + length events < 2 ^ 64
      → push_each events stream out
        ≡ (stream ++ stamp (length stream) events, out ++ stamp (length stream) events)
  unfolding push_each
  push_each-stamp [] stream out h = rw (append_nil stream, append_nil out) refl
  push_each-stamp ((id, payload) ∷ rest) stream out h =
      let stored : StoredEvent E = record {
        event_id = id;
        version = suc (length stream);
        payload = payload;
      } in
      let version : next_version (length stream) ≡ suc (length stream) = omega arith in
      let longer = length-append stream (stored ∷ []) in
      let count : length (stream ++ stored ∷ []) ≡ suc (length stream) = omega (arith, longer) in
      let rest_run =
        push_each-stamp rest (stream ++ stored ∷ []) (out ++ stored ∷ []) (omega (arith, longer)) in
      rw (push_each, version)
        (rest_run
          ∙ rw
              (
                count,
                snoc-append stream stored (stamp (suc (length stream)) rest),
                snoc-append out stored (stamp (suc (length stream)) rest),
              )
              refl)

  Counts-stamp : (n : ℕ) (events : List (ℕ × E)) → Counts (suc n) (stamp n events)
  Counts-stamp n [] = tt
  Counts-stamp n ((id, payload) ∷ rest) = (refl, Counts-stamp (suc n) rest)

  Counts-append :
      (n : ℕ) (xs ys : List (StoredEvent E))
      → Counts n xs
      → Counts (n + length xs) ys
      → Counts n (xs ++ ys)
  Counts-append n [] ys c d = subst (λ k. Counts k ys) (omega arith) d
  Counts-append n (x ∷ xs) ys c d =
      (c.0, Counts-append (suc n) xs ys c.1 (subst (λ k. Counts k ys) (omega arith) d))

  -- Every stream's versions count from one.
  abbrev pub IsCounted : Streams E → Type 0
  IsCounted streams = (id : ℕ) → Counts 1 (stream_of id streams)

  -- `append` to a stream gives out the payloads with the versions after the last one, stores them
  -- at the end of that stream, and leaves the other streams; the versions are below 2^64.
  pub append-stamps :
      (stream_id : ℕ) (events : List (ℕ × E)) (streams : Streams E)
      → length (stream_of stream_id streams) + length events < 2 ^ 64
      → let before = stream_of stream_id streams in
        let (out, after) = append stream_id events streams in
        (out ≡ stamp (length before) events)
        × ((k : ℕ)
            → stream_of k after ≡ (if stream_id == k then before ++ out else stream_of k streams))
  unfolding append
  append-stamps stream_id events streams h =
      let run = push_each-stamp events (stream_of stream_id streams) [] h in
      rw (run) (refl, λ k. stream_of-set stream_id k _ streams)

  -- `append` keeps the versions of every stream counting from one, while they are below 2^64.
  pub append-IsCounted :
      (stream_id : ℕ) (events : List (ℕ × E)) (streams : Streams E)
      → length (stream_of stream_id streams) + length events < 2 ^ 64
      → IsCounted streams
      → IsCounted (append stream_id events streams).1
  append-IsCounted stream_id events streams h c k =
      let before = stream_of stream_id streams in
      let (given, after) = append-stamps stream_id events streams h in
      let longer : Counts 1 (before ++ stamp (length before) events) =
        Counts-append 1 before _ (c stream_id) (
          subst (λ n. Counts n (stamp (length before) events)) (omega arith)
            (Counts-stamp (length before) events)) in
      elim (Bool-cases (stream_id == k)) [
        | inl e ↦ rw (after k, e, given) longer
        | inr e ↦ rw (after k, e) (c k)
      ]

  from_on-drop :
      (n from : ℕ) (es : List (StoredEvent E)) → Counts n es → from_on from es ≡ drop (from - n) es
  from_on-drop n from [] c = sym (drop_nil (from - n))
  from_on-drop n from (e ∷ es) (v, c) = elim (Bool-cases (leb from n)) [
    | inl low ↦
        let all : from - suc n ≡ 0 = ground arith in
        let none_left : from - n ≡ 0 = ground arith in
        rw (v, low, from_on-drop (suc n) from es c, all, none_left) refl
    | inr high ↦
        let one : from - n ≡ suc (from - suc n) = ground arith in
        rw (v, high, from_on-drop (suc n) from es c, one) refl
  ]

  -- When the versions of every stream count from one, `read` from a version gives the stream without
  -- the events before that version.
  pub read-drops :
      (stream_id from : ℕ) (streams : Streams E)
      → IsCounted streams
      → read stream_id from streams ≡ drop (from - 1) (stream_of stream_id streams)
  unfolding read
  read-drops stream_id from streams c =
      from_on-drop 1 from (stream_of stream_id streams) (c stream_id)
