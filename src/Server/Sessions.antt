-- ===== src/Server/Sessions.antt =====
-- The sessions of internal/server/server.go: how a team gets one, how long it is open and how often
-- it is started again. sha256 and the machine of a package are parameters; the clock, the random id
-- and whether the database answers are arguments. The tables of the store are those of Store.
pub mod Teams
pub mod Keeps
pub mod Invariant
use Prim.Native.String.{◌++◌ as ◌+++◌}
use red_lab.Prelude.{
  ℕ, zero, suc, ◌+◌, ◌-◌, ◌*◌, ◌%◌, ◌^◌, ltb, leb, eqb, String, Bool, true, false, not, ◌&&◌, ◌||◌,
  Option, none, some, List, [], ◌∷◌, ◌==◌, length, get_elem?, if◌then◌else◌,
}
use red_lab.Prelude.GoMap.{GoMap, get, put, get_or, keys}
use red_lab.Prelude.Int.{ℤ, pos, ltb_ℤ, ◌+ℤ◌}
use red_lab.GoLib.Hex.{Bytes}
use red_lab.GoLib.Sort.{sort}
use red_lab.GoLib.Strings.{take}
use red_lab.GoLib.Time.{Time, Duration, second, sub, before, is_zero}
use red_lab.Scenario.Event.{Schedule, SessionsSpec}
use red_lab.Scenario.Package.{Package}
use red_lab.System.{State}
use red_lab.Runtime.{Session}
use red_lab.Runtime.Lab.{restart}
use red_lab.Runtime.Start.{new_session}
use red_lab.Store.{SessionRow, SessionMeta, save_session, save_session_meta}

-- The fields of the server that sessions use; `stored` holds the tables of a store, if there is one.
pub record Labs : Type 0 where
  pub sessions : GoMap Session
  pub restarts : GoMap ℤ
  pub activity : GoMap Time
  pub stored : Option (GoMap SessionRow × GoMap SessionMeta)

-- The event's document, as far as sessions use it, and the packages that were loaded.
pub record Settings : Type 0 where
  pub event_id : String
  pub schedule : Schedule
  pub spec : SessionsSpec
  pub packages : GoMap Package

pub data Status : Type 0 where
  scheduled open_now closed : Status

unfoldable pub event_status : Schedule → Bool → Time → Status
event_status schedule manual_close now =
    if manual_close
    then closed
    else if not (is_zero schedule.opens_at) && before now schedule.opens_at
    then scheduled
    else if not (is_zero schedule.submissions_close_at)
        && not (before now schedule.submissions_close_at)
    then closed
    else open_now

abbrev pub is_open : Status → Bool
is_open open_now = true
is_open scheduled = false
is_open closed = false

-- The first eight bytes of a digest, the most significant first.
unfoldable pub leading_bytes : ℕ → Bytes → ℕ → ℕ
leading_bytes value [] n = value
leading_bytes value (b ∷ bs) zero = value
leading_bytes value (b ∷ bs) (suc n) = leading_bytes (value * 256 + b) bs n

-- sessionForTeamLocked
unfoldable pub session_for_team : GoMap Session → String → Option Session
session_for_team [] team = none
session_for_team ((id, s) ∷ sessions) team =
    let rest = session_for_team sessions team in if s.team_id == team then some s else rest

-- 2026-01-01 in seconds from the zero time.
abbrev pub new_year : ℕ
new_year = 63902822400

-- The test of MaxConcurrent.
abbrev pub is_full : SessionsSpec → ℕ → Bool
is_full spec n = ltb_ℤ (pos 0) spec.max_concurrent && not (ltb_ℤ (pos n) spec.max_concurrent)

module _ (sha256 : String → Bytes) where
  unfoldable pub package_for_team : Settings → String → Option Package
  package_for_team settings team =
      let ids = sort (keys settings.packages) in
      let value = leading_bytes 0 (sha256 (settings.event_id +++ "\0" +++ team)) 8 in
      if eqb (length ids) 0 then none else elim (get_elem? ids (value % length ids)) [
        | none ↦ none
        | some id ↦ get settings.packages id
      ]

  -- deterministicSeed: the eight bytes are read as an int64, whose least value has no opposite.
  unfoldable pub deterministic_seed : String → String → String → Time
  deterministic_seed event team scenario_id =
      let value = leading_bytes 0 (sha256 (event +++ "\0" +++ team +++ "\0" +++ scenario_id)) 8 in
      if ltb value (2 ^ 63)
      then (new_year + value % 86400) * second
      else if eqb value (2 ^ 63)
      then (new_year - 2 ^ 63 % 86400) * second
      else (new_year + (2 ^ 64 - value) % 86400) * second

-- What a call draws and is answered: the random id, whether a pair of keys is made, and whether
-- SaveSession and SaveSessionMeta succeed.
pub record Luck : Type 0 where
  pub random_id : Option String
  pub keyed : Bool
  pub session_saved : Bool
  pub meta_saved : Bool

-- SaveSession and SaveSessionMeta for a new session, with the status of the answer.
unfoldable pub store_session : Labs → Session → String → Time → Time → Luck → Labs × ℕ
store_session labs s scenario_id seed now luck = elim labs.stored [
  | none ↦ (labs, 201)
  | some (rows, meta) ↦
      let saved = save_session rows s.id s.team_id scenario_id seed in
      let first : SessionMeta = record {
        session_id = s.id;
        restarts = pos 0;
        judge_score = pos 0;
        judge_notes = "";
        judged = false;
        submitted = false;
        last_activity = now;
      } in
      if not luck.session_saved
      then (labs, 500)
      else if not luck.meta_saved
      then (record labs { stored = some (saved, meta) }, 500)
      else (record labs { stored = some (saved, save_session_meta meta first) }, 201)
]

-- The session is entered before it is stored.
abbrev pub enter : Labs → Session → Time → Labs
enter labs s now = record labs {
  sessions = put labs.sessions s.id s;
  activity = put labs.activity s.id now;
}

module _ (sha256 : String → Bytes) (new_state : Package → Time → Option State)
    (settings : Settings) where
  -- From the random id on.
  unfoldable pub make_session : Labs → String → Time → Luck → Package → Labs × ℕ
  make_session labs team now luck pkg = elim luck.random_id [
    | none ↦ (labs, 500)
    | some random ↦
        let id = "session-" +++ take 32 random in
        let scenario_id = pkg.scenario.metadata.id in
        let seed = deterministic_seed sha256 settings.event_id team scenario_id in
        elim (new_session new_state luck.keyed id team pkg seed) [
          | none ↦ (labs, 500)
          | some s ↦ store_session (enter labs s now) s scenario_id seed now luck
        ]
  ]

  -- createSession: the server afterwards and the status of the answer.
  unfoldable pub create_session : Labs → String → Bool → Time → Luck → Labs × ℕ
  create_session labs team manual_close now luck =
      if not (is_open (event_status settings.schedule manual_close now))
      then (labs, 403)
      else elim (session_for_team labs.sessions team) [
        | some existing ↦ (labs, 200)
        | none ↦
            if is_full settings.spec (length labs.sessions)
            then (labs, 503)
            else elim (package_for_team sha256 settings team) [
              | none ↦ (labs, 503)
              | some pkg ↦ make_session labs team now luck pkg
            ]
      ]

-- touchActivity
unfoldable pub touch_activity : SessionsSpec → Labs → String → Time → Labs × Bool
touch_activity spec labs id now =
    let touched = record labs { activity = put labs.activity id now } in
    elim (get labs.activity id) [
      | none ↦ (touched, true)
      | some previous ↦
          if ltb_ℤ (pos 0) spec.idle_timeout && ltb_ℤ spec.idle_timeout (sub now previous)
          then (labs, false)
          else (touched, true)
    ]

-- The test of MaxRestarts.
abbrev pub is_spent : SessionsSpec → ℤ → Bool
is_spent spec count = ltb_ℤ (pos 0) spec.max_restarts && not (ltb_ℤ count spec.max_restarts)

-- The branch `restart` of the handler `sessions`, with whether persistSession succeeds: the server
-- afterwards and the status.
unfoldable pub restart_session : SessionsSpec → Labs → String → Bool → Labs × ℕ
restart_session spec labs id persisted = elim (get labs.sessions id) [
  | none ↦ (labs, 404)
  | some s ↦
      let count = get_or labs.restarts id (pos 0) in
      if s.submitted
      then (labs, 409)
      else if not spec.allow_restart
      then (labs, 403)
      else if is_spent spec count
      then (labs, 403)
      else let counted = record labs { restarts = put labs.restarts id (count +ℤ pos 1) } in
        elim (restart s) [
          | none ↦ (counted, 500)
          | some s ↦
              (record counted { sessions = put labs.sessions id s }, if persisted then 200 else 500)
        ]
]
