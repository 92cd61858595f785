-- ===== src/Events/Refines.antt =====
-- The store on a file answers as the store in memory does.
use effect_rs.Prelude.{
  ℕ, suc, ◌+◌, ◌^◌, ◌<◌, ◌≡◌, refl, sym, ap, ◌∙◌, true, false, List, [], ◌∷◌, ◌++◌, ok, leb, ◌==◌,
  if◌then◌else◌, length, length-append, arith, inl, inr, Bool-cases, Result-cases, ==_iff,
}
use mathlib.Core.Path.{subst}
use effect_rs.Coordination.Offers.{snoc-append, append_nil}
use effect_rs.Events.Stored.{StoredEvent, Streams, stream_of, set_stream, Counts, stream_of-set}
use effect_rs.Events.Memory.{next_version, stamp, IsCounted, append-stamps}
use effect_rs.Events.Memory
use effect_rs.Events.File
use effect_rs.Events.File.{
  JournalRecord, EventStoreError, Format, stored_of, insert_event, sort_events, sort_streams,
  record_each, read_lines, read_all, append_records,
}

module _ {E : Type 0} where
  insert_event-first :
      (e : StoredEvent E) (es : List (StoredEvent E)) (n : ℕ)
      → Counts n (e ∷ es)
      → insert_event e es ≡ e ∷ es
  insert_event-first e [] n c = refl
  insert_event-first e (x ∷ xs) n (v, (w, c)) =
      let less : leb e.version x.version ≡ true = ground (arith, v, w) in rw less refl

  sort_events-Counts : (n : ℕ) (es : List (StoredEvent E)) → Counts n es → sort_events es ≡ es
  sort_events-Counts n [] c = refl
  sort_events-Counts n (e ∷ es) c =
      ap (insert_event e) (sort_events-Counts (suc n) es c.1) ∙ insert_event-first e es n c

  where_stream :
      (k : ℕ) (s : Streams E) → stream_of k (sort_streams s) ≡ sort_events (stream_of k s)
  where_stream k [] = refl
  where_stream k ((j, es) ∷ rest) = ground (arith, where_stream k rest)

  -- What `append` writes for payloads after `n` events.
  abbrev records_of : ℕ → ℕ → List (ℕ × E) → List (JournalRecord E)
  records_of stream_id n [] = []
  records_of stream_id n ((id, payload) ∷ rest) =
      record { stream_id = stream_id; event_id = id; version = suc n; payload = payload }
      ∷ records_of stream_id (suc n) rest

  -- The streams after records are read.
  abbrev store : List (JournalRecord E) → Streams E → Streams E
  store [] streams = streams
  store (r ∷ records) streams =
      store records
        (set_stream r.stream_id (stream_of r.stream_id streams ++ stored_of r ∷ []) streams)

  stream_of-store :
      (stream_id n : ℕ) (events : List (ℕ × E)) (s : Streams E) (k : ℕ)
      → stream_of k (store (records_of stream_id n events) s)
        ≡ (if stream_id == k then stream_of stream_id s ++ stamp n events else stream_of k s)
  stream_of-store stream_id n [] s k =
      ground (
        arith,
        append_nil (stream_of stream_id s),
        λ (e : stream_id ≡ k). ap (λ i. stream_of i s) e,
      )
  stream_of-store stream_id n ((id, payload) ∷ rest) s k =
      let stored : StoredEvent E = record { event_id = id; version = suc n; payload = payload } in
      let s' = set_stream stream_id (stream_of stream_id s ++ stored ∷ []) s in
      let self = stream_of-set stream_id stream_id (stream_of stream_id s ++ stored ∷ []) s in
      let others = stream_of-set stream_id k (stream_of stream_id s ++ stored ∷ []) s in
      let rest_run = stream_of-store stream_id (suc n) rest s' k in
      ground (
        arith,
        self,
        others,
        rest_run,
        ==_iff stream_id stream_id,
        snoc-append (stream_of stream_id s) stored (stamp (suc n) rest),
      )

  record_each-stamp :
      (stream_id : ℕ) (events : List (ℕ × E)) (stream out : List (StoredEvent E))
      (records : List (JournalRecord E))
      → length stream + length events < 2 ^ 64
      → record_each stream_id events stream out records ≡ (
        out ++ stamp (length stream) events,
        records ++ records_of stream_id (length stream) events,
      )
  unfolding record_each
  record_each-stamp stream_id [] stream out records h = rw (append_nil out, append_nil records) refl
  record_each-stamp stream_id ((id, payload) ∷ rest) stream out records h =
      let n = length stream in
      let stored : StoredEvent E = record { event_id = id; version = suc n; payload = payload } in
      let written : JournalRecord E = record {
        stream_id = stream_id;
        event_id = id;
        version = suc n;
        payload = payload;
      } in
      let version : next_version n ≡ suc n = omega arith in
      let longer = length-append stream (stored ∷ []) in
      let count : length (stream ++ stored ∷ []) ≡ suc n = omega (arith, longer) in
      let run =
        record_each-stamp stream_id rest (stream ++ stored ∷ []) (out ++ stored ∷ [])
          (records ++ written ∷ []) (omega (arith, longer)) in
      rw (record_each, version)
        (run
          ∙ rw
              (
                count,
                snoc-append out stored (stamp (suc n) rest),
                snoc-append records written (records_of stream_id (suc n) rest),
              )
              refl)

module _ {E Line SerdeError : Type 0} (format : Format E Line SerdeError) where
  -- A record can be written to a line that is not blank and reads back as it.
  abbrev pub RoundTrips : Type 0
  RoundTrips =
      (r : JournalRecord E)
      → (line : Line) × (format.to_string r ≡ ok line)
        × (format.is_blank line ≡ false)
        × (format.from_str line ≡ ok r)

  -- The lines hold the streams.
  abbrev pub Holds : List Line → Streams E → Type 0
  Holds lines streams =
      (raw : Streams E) × (read_lines format lines [] ≡ ok raw)
      × ((k : ℕ) → stream_of k raw ≡ stream_of k streams)

  read_lines-append :
      (xs ys : List Line) (s : Streams E) {t u : Streams E}
      → read_lines format xs s ≡ ok t
      → read_lines format ys t ≡ ok u
      → read_lines format (xs ++ ys) s ≡ ok u
  unfolding read_lines
  read_lines-append [] ys s {t} {u} h k =
      subst (λ v. read_lines format ys v ≡ ok u) (ground (arith, h)) k
  read_lines-append (line ∷ lines) ys s h k = elim (Bool-cases (format.is_blank line)) [
    | inl blank ↦
        rw (read_lines, blank) (read_lines-append lines ys s (rw (read_lines, blank) at h) k)
    | inr full ↦ elim (Result-cases (format.from_str line)) [
      | inl (r, e) ↦
          rw (read_lines, full, e) (read_lines-append lines ys _ (rw (read_lines, full, e) at h) k)
      | inr (x, e) ↦ absurd (cc (rw (read_lines, full, e) at h))
    ]
  ]

  append_records-lines :
      (records : List (JournalRecord E)) (lines : List Line)
      → RoundTrips
      → (new : List Line) × (append_records format records lines ≡ (ok tt, lines ++ new))
        × ((s : Streams E) → read_lines format new s ≡ ok (store records s))
  unfolding append_records read_lines
  append_records-lines [] lines round = ([], ground (arith, append_nil lines), λ s. refl)
  append_records-lines (r ∷ records) lines round =
      let (line, printed, full, read_back) = round r in
      let (new, run, reads) = append_records-lines records (lines ++ line ∷ []) round in
      (
        line ∷ new,
        rw (append_records, printed) (run ∙ rw (snoc-append lines line new) refl),
        λ s. rw (read_lines, full, read_back) (reads _),
      )

  -- The sorted streams of lines that hold counted streams.
  read_all-Holds :
      (lines : List Line) (streams : Streams E)
      → Holds lines streams
      → IsCounted streams
      → (all : Streams E) × (read_all format lines ≡ ok all)
        × ((k : ℕ) → stream_of k all ≡ stream_of k streams)
  unfolding read_all
  read_all-Holds lines streams (raw, run, same) c = (
    sort_streams raw,
    rw run refl,
    λ k. where_stream k raw ∙ ap sort_events (same k) ∙ sort_events-Counts 1 _ (c k),
  )

  -- When the lines hold streams whose versions count from one, then `read` and `latest_version` of the journal succeed with what the store in memory
  -- answers for the streams.
  pub reads-refine :
      (lines : List Line) (streams : Streams E) (stream_id from : ℕ)
      → Holds lines streams
      → IsCounted streams
      → (File.read format stream_id from lines ≡ ok (Memory.read stream_id from streams))
        × (File.latest_version format stream_id lines
            ≡ ok (Memory.latest_version stream_id streams))
  unfolding File.read Memory.read File.latest_version Memory.latest_version
  reads-refine lines streams stream_id from h c =
      let (all, run, same) = read_all-Holds lines streams h c in
      (rw (run, same stream_id) refl, rw (run, same stream_id) refl)

  append-of_runs :
      (stream_id : ℕ) (events : List (ℕ × E)) (lines lines' : List Line) (all : Streams E)
      (out : List (StoredEvent E)) (records : List (JournalRecord E))
      → read_all format lines ≡ ok all
      → record_each stream_id events (stream_of stream_id all) [] [] ≡ (out, records)
      → append_records format records lines ≡ (ok tt, lines')
      → File.append format stream_id events lines ≡ (ok out, lines')
  unfolding File.append
  append-of_runs stream_id events lines lines' all out records run recorded wrote = ground arith

  -- When records round-trip through the format, the lines hold streams whose versions count from
  -- one, and the versions stay below 2^64, then `append` to the journal succeeds, gives out what
  -- the store in memory does, and leaves lines that hold the streams it leaves.
  pub append-refines :
      (lines : List Line) (streams : Streams E) (stream_id : ℕ) (events : List (ℕ × E))
      → RoundTrips
      → Holds lines streams
      → IsCounted streams
      → length (stream_of stream_id streams) + length events < 2 ^ 64
      → (lines' : List Line) × (File.append format stream_id events lines
          ≡ (ok (Memory.append stream_id events streams).0, lines'))
        × Holds lines' (Memory.append stream_id events streams).1
  unfolding File.append
  append-refines lines streams stream_id events round h c bound =
      let before = stream_of stream_id streams in
      let n = length before in
      let (all, run, same) = read_all-Holds lines streams h c in
      let (raw, reading, raw_same) = h in
      let records = records_of stream_id n events in
      let recorded = record_each-stamp stream_id events before [] [] bound in
      let recorded' : record_each stream_id events (stream_of stream_id all) [] []
          ≡ (stamp n events, records) =
        subst (λ es. record_each stream_id events es [] [] ≡ (stamp n events, records))
          (sym (same stream_id)) recorded in
      let (new, wrote, reads) = append_records-lines records lines round in
      let (given, after) = append-stamps stream_id events streams bound in
      (
        lines ++ new,
        append-of_runs stream_id events lines (lines ++ new) all _ records run recorded' wrote
            ∙ ap (λ (out : List (StoredEvent E)). (ok out, lines ++ new)) (sym given),
        (
          store records raw,
          read_lines-append lines new [] reading (reads raw),
          λ k. ground (
            arith,
            stream_of-store stream_id n events raw k,
            after k,
            given,
            raw_same k,
            raw_same stream_id,
          ),
        ),
      )
