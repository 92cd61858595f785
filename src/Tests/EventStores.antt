-- ===== src/Tests/EventStores.antt =====
-- Runs of the event stores.
use effect_rs.Prelude.{ℕ, ◌≡◌, refl, false, List, [], ◌∷◌, ok, ◌==◌, inl, inr, Bool-cases, arith}
use effect_rs.Events.Stored.{StoredEvent, Streams}
use effect_rs.Events.Memory.{IsCounted, append-IsCounted, read-drops}
use effect_rs.Events.Memory
use effect_rs.Events.File.{JournalRecord, Format, read_lines}
use effect_rs.Events.File
use effect_rs.Events.Refines.{RoundTrips, Holds, append-refines, reads-refine}

abbrev first : StoredEvent ℕ
first = record { event_id = 50; version = 1; payload = 7 }

abbrev one_event : Streams ℕ
one_event = (3, first ∷ []) ∷ []

-- The lines are the records themselves.
abbrev plain : Format ℕ (JournalRecord ℕ) ℕ
plain = record { is_blank = λ r. false; to_string = λ r. ok r; from_str = λ r. ok r }

abbrev one_line : List (JournalRecord ℕ)
one_line = record { stream_id = 3; event_id = 50; version = 1; payload = 7 } ∷ []

plain-RoundTrips : RoundTrips plain
plain-RoundTrips r = (r, refl, refl, refl)

one_line-Holds : Holds plain one_line one_event
unfolding read_lines
one_line-Holds = (one_event, refl, λ k. refl)

one_event-IsCounted : IsCounted one_event
one_event-IsCounted id = elim (Bool-cases (3 == id)) [ inl e ↦ rw e (refl, tt) | inr e ↦ rw e tt ]

append_more :
    (Memory.append 3 ((51, 8) ∷ (52, 9) ∷ []) one_event).0
    ≡ record { event_id = 51; version = 2; payload = 8 }
      ∷ record { event_id = 52; version = 3; payload = 9 }
      ∷ []
unfolding Memory.append
append_more = refl

append-IsCounted_example : IsCounted (Memory.append 3 ((51, 8) ∷ []) one_event).1
append-IsCounted_example =
    append-IsCounted 3 ((51, 8) ∷ []) one_event (omega arith) one_event-IsCounted

append-refines_example :
    (lines' : List (JournalRecord ℕ)) × (File.append plain 3 ((51, 8) ∷ []) one_line
      ≡ (ok (Memory.append 3 ((51, 8) ∷ []) one_event).0, lines'))
    × Holds plain lines' (Memory.append 3 ((51, 8) ∷ []) one_event).1
append-refines_example =
    append-refines plain one_line one_event 3 ((51, 8) ∷ []) plain-RoundTrips one_line-Holds
      one_event-IsCounted (omega arith)

reads-refine_example :
    (File.read plain 3 1 one_line ≡ ok (Memory.read 3 1 one_event))
    × (File.latest_version plain 3 one_line ≡ ok (Memory.latest_version 3 one_event))
reads-refine_example = reads-refine plain one_line one_event 3 1 one_line-Holds one_event-IsCounted
