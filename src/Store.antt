-- ===== src/Store.antt =====
-- internal/store/store.go: the tables of the database. A statement of SQL is written out as what it
-- does to its table: a key of a table is unique, and an insertion with a key that is there fails,
-- replaces the row or updates it, as the statement says. Times and events are read back as they were
-- written. A database that does not answer is an argument where it matters.
pub mod Tokens
pub mod Events
pub mod Once
pub mod Replay
mod Examples
use red_lab.Prelude.{String, Bool, true, false, Option, none, some, List, [], ◌∷◌, if◌then◌else◌}
use red_lab.Prelude.GoMap.{GoMap, get, put}
use red_lab.Prelude.Int.{ℤ}
use red_lab.GoLib.Time.{Time, before}

pub record SessionRecord : Type 0 where
  pub id : String
  pub team_id : String
  pub scenario_id : String
  pub created_at : Time
  pub submitted_at : Time

pub record SessionMeta : Type 0 where
  pub session_id : String
  pub restarts : ℤ
  pub judge_score : ℤ
  pub judge_notes : String
  pub judged : Bool
  pub submitted : Bool
  pub last_activity : Time

-- A row of the table `sessions`, without the state's JSON, which is only written.
pub record SessionRow : Type 0 where
  pub team_id : String
  pub scenario_id : String
  pub created_at : Time
  pub submitted_at : Option Time

-- SaveSession: `ON CONFLICT(id)` the row keeps its fields; a new row has no time of submission.
unfoldable pub save_session : GoMap SessionRow → String → String → String → Time → GoMap SessionRow
save_session rows id team scenario_id created = elim (get rows id) [
  | some row ↦ rows
  | none ↦ put rows id (record {
    team_id = team;
    scenario_id = scenario_id;
    created_at = created;
    submitted_at = none;
  })
]

-- MarkSubmitted
unfoldable pub mark_submitted : GoMap SessionRow → String → Time → GoMap SessionRow
mark_submitted rows id submitted = elim (get rows id) [
  | none ↦ rows
  | some row ↦ put rows id (record row { submitted_at = some submitted })
]

unfoldable pub session_record : String → SessionRow → SessionRecord
session_record id row = record {
  id = id;
  team_id = row.team_id;
  scenario_id = row.scenario_id;
  created_at = row.created_at;
  submitted_at = elim row.submitted_at [ none ↦ 0 | some t ↦ t ];
}

-- SaveSessionMeta; the map is what ListSessionMeta gives.
unfoldable pub save_session_meta : GoMap SessionMeta → SessionMeta → GoMap SessionMeta
save_session_meta rows meta = put rows meta.session_id meta

-- SetManualClosed and ManualClosed: the one row of `event_state`, if it is there.
abbrev pub set_manual_closed : Option Bool → Bool → Option Bool
set_manual_closed row closed = some closed

unfoldable pub manual_closed : Option Bool → Bool
manual_closed none = false
manual_closed (some closed) = closed

-- SigningKey, with the random key that it makes if there is none, and whether the insertion fails
-- because another process has stored its key in between.
unfoldable pub signing_key : Option String → String → Option String → Option String × String
signing_key (some secret) random stored_meanwhile = (some secret, secret)
signing_key none random none = (some random, random)
signing_key none random (some existing) = (some existing, existing)

-- `ORDER BY created_at`: the record stands before the first one that is later.
unfoldable pub insert_created : SessionRecord → List SessionRecord → List SessionRecord
insert_created r [] = r ∷ []
insert_created r (q ∷ rest) =
    let later = insert_created r rest in
    if before q.created_at r.created_at then q ∷ later else r ∷ q ∷ rest

-- ListSessions
unfoldable pub list_sessions : GoMap SessionRow → List SessionRecord
list_sessions [] = []
list_sessions ((id, row) ∷ rows) = insert_created (session_record id row) (list_sessions rows)

pub record Submission : Type 0 where
  pub session_id : String
  pub created_at : Time
  pub report_json : String
  pub report_markdown : String

-- SaveSubmission: an id that is there is an error.
unfoldable pub save_submission : GoMap Submission → String → Submission → GoMap Submission × Bool
save_submission rows id submission = elim (get rows id) [
  | none ↦ (put rows id submission, true)
  | some s ↦ (rows, false)
]
