-- ===== src/Store/Events.antt =====
-- The table `evidence_events` of internal/store/store.go. A row keeps the event's JSON, from which
-- the event is read back as it was written; the session and the sequence number are its key.
use red_lab.Prelude.{ltb, eqb, String, Bool, not, ◌&&◌, ◌==◌, List, [], ◌∷◌, ◌++◌, if◌then◌else◌}
use red_lab.Evidence.{Event}

-- The rows that a test leaves out are deleted.
unfoldable pub delete_where : (Event → Bool) → List Event → List Event
delete_where test [] = []
delete_where test (e ∷ rows) =
    let rest = delete_where test rows in if test e then rest else e ∷ rest

abbrev pub of_session : String → Event → Bool
of_session id e = e.session_id == id

-- The two rows have the same key.
abbrev pub same_key : Event → Event → Bool
same_key a b = a.session_id == b.session_id && eqb a.sequence b.sequence

-- SaveEvidence: `INSERT OR REPLACE` deletes the row with the key and inserts the new one. The session
-- is in its table, so the foreign key never fails.
unfoldable pub save_evidence : List Event → Event → List Event
save_evidence rows e = delete_where (same_key e) rows ++ e ∷ []

-- ClearEvidence
unfoldable pub clear_evidence : List Event → String → List Event
clear_evidence rows id = delete_where (of_session id) rows

-- `ORDER BY sequence`: the event stands before the first one with a larger number.
unfoldable pub insert_ordered : Event → List Event → List Event
insert_ordered e [] = e ∷ []
insert_ordered e (f ∷ rest) =
    let later = insert_ordered e rest in
    if ltb f.sequence e.sequence then f ∷ later else e ∷ f ∷ rest

unfoldable pub order_by_sequence : List Event → List Event
order_by_sequence [] = []
order_by_sequence (e ∷ rows) = insert_ordered e (order_by_sequence rows)

-- LoadEvents
unfoldable pub load_events : List Event → String → List Event
load_events rows id = order_by_sequence (delete_where (λ e. not (of_session id e)) rows)
