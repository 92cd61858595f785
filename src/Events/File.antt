-- ===== src/Events/File.antt =====
-- `FileJournal` of crates/id_effect_events/src/event_store.rs, on the lines of its file. How a
-- record is written to a line and read from one is serde_json's, a parameter.
use effect_rs.Prelude.{
  ℕ, ◌%◌, ◌^◌, Bool, true, false, List, [], ◌∷◌, ◌++◌, Result, ok, err, ◌>>=◌, leb, if◌then◌else◌,
  length,
}
use effect_rs.Events.Stored.{StoredEvent, Streams, stream_of, set_stream, from_on}
use effect_rs.Events.Memory.{next_version}

pub record JournalRecord (E : Type 0) : Type 0 where
  pub stream_id : ℕ
  pub event_id : ℕ
  pub version : ℕ
  pub payload : E

-- The error that reading the file's lines can give; failures of the file itself are left out.
pub data EventStoreError (SerdeError : Type 0) : Type 0 where
  serde : SerdeError → EventStoreError SerdeError

-- `str::trim().is_empty()` of a line, `serde_json::to_string` and `serde_json::from_str`.
pub record Format (E Line SerdeError : Type 0) : Type 0 where
  pub is_blank : Line → Bool
  pub to_string : JournalRecord E → Result Line SerdeError
  pub from_str : Line → Result (JournalRecord E) SerdeError

module _ {E : Type 0} where
  abbrev pub stored_of : JournalRecord E → StoredEvent E
  stored_of r = record { event_id = r.event_id; version = r.version; payload = r.payload }

  -- `sort_by_key` on the versions, which is stable.
  abbrev pub insert_event : StoredEvent E → List (StoredEvent E) → List (StoredEvent E)
  insert_event e [] = e ∷ []
  insert_event e (x ∷ xs) = if leb e.version x.version then e ∷ x ∷ xs else x ∷ insert_event e xs

  abbrev pub sort_events : List (StoredEvent E) → List (StoredEvent E)
  sort_events [] = []
  sort_events (e ∷ es) = insert_event e (sort_events es)

  abbrev pub sort_streams : Streams E → Streams E
  sort_streams [] = []
  sort_streams ((k, events) ∷ rest) = (k, sort_events events) ∷ sort_streams rest

  -- The loop of `append` over the payloads, each beside the id drawn for it: what is given out and
  -- what is to be written.
  unfoldable pub record_each :
      ℕ
      → List (ℕ × E)
      → List (StoredEvent E)
      → List (StoredEvent E)
      → List (JournalRecord E)
      → List (StoredEvent E) × List (JournalRecord E)
  record_each stream_id [] stream out records = (out, records)
  record_each stream_id ((id, payload) ∷ rest) stream out records =
      let v = next_version (length stream) in
      let stored : StoredEvent E = record { event_id = id; version = v; payload = payload } in
      let written : JournalRecord E = record {
        stream_id = stream_id;
        event_id = id;
        version = v;
        payload = payload;
      } in
      record_each stream_id rest (stream ++ stored ∷ []) (out ++ stored ∷ [])
        (records ++ written ∷ [])

module _ {E Line SerdeError : Type 0} (format : Format E Line SerdeError) where
  -- The loop of `read_all`.
  unfoldable pub read_lines :
      List Line → Streams E → Result (Streams E) (EventStoreError SerdeError)
  read_lines [] streams = ok streams
  read_lines (line ∷ lines) streams = elim (format.is_blank line) [
    | true ↦ read_lines lines streams
    | false ↦ elim (format.from_str line) [
      | err e ↦ err (serde e)
      | ok r ↦
          read_lines lines
            (set_stream r.stream_id (stream_of r.stream_id streams ++ stored_of r ∷ []) streams)
    ]
  ]

  unfoldable pub read_all : List Line → Result (Streams E) (EventStoreError SerdeError)
  unfolding read_lines
  read_all lines = do streams ← read_lines lines []; ok (sort_streams streams)

  -- The lines that the file holds in the end, also after a record that cannot be written.
  unfoldable pub append_records :
      List (JournalRecord E) → List Line → Result Unit (EventStoreError SerdeError) × List Line
  append_records [] lines = (ok tt, lines)
  append_records (r ∷ records) lines = elim (format.to_string r) [
    | err e ↦ (err (serde e), lines)
    | ok line ↦ append_records records (lines ++ line ∷ [])
  ]

  unfoldable pub append :
      ℕ
      → List (ℕ × E)
      → List Line
      → Result (List (StoredEvent E)) (EventStoreError SerdeError) × List Line
  unfolding read_all record_each append_records
  append stream_id events lines = elim (read_all lines) [
    | err e ↦ (err e, lines)
    | ok streams ↦
        let (out, records) = record_each stream_id events (stream_of stream_id streams) [] [] in
        let (written, lines') = append_records records lines in
        elim written [ err e ↦ (err e, lines') | ok u ↦ (ok out, lines') ]
  ]

  unfoldable pub read :
      ℕ → ℕ → List Line → Result (List (StoredEvent E)) (EventStoreError SerdeError)
  unfolding read_all
  read stream_id from_version lines = do
    streams ← read_all lines
    ok (from_on from_version (stream_of stream_id streams))

  unfoldable pub latest_version : ℕ → List Line → Result ℕ (EventStoreError SerdeError)
  unfolding read_all
  latest_version stream_id lines = do
    streams ← read_all lines
    ok (length (stream_of stream_id streams) % 2 ^ 64)
