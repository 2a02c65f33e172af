-- ===== src/Server/Handlers.antt =====
-- The handlers teamLogin, linkLogin, organizerLogin, health, ready and preflight of
-- internal/server/server.go. A request is what its method and its JSON give.
pub mod Entry
use red_lab.Prelude.{
  ℕ, zero, suc, String, Bool, true, false, not, ◌&&◌, ◌||◌, Option, none, some, ◌==◌, if◌then◌else◌,
}
use red_lab.GoLib.Hex.{Bytes}
use red_lab.GoLib.Time.{Time}
use red_lab.Auth.{Bcrypt}
use red_lab.Server.Login.{Secrets, errored, refused, accepted, verify_credential}
use red_lab.Server.Access.{Access, Codec, issue_tokens}
use red_lab.Server.Sessions.{Status, scheduled, open_now, closed}

-- `loginRequest`
pub record LoginRequest : Type 0 where
  pub team_id : String
  pub join_code : String
  pub password : String
  pub link_token : String

-- The fields of the server that a login uses.
pub record Gate : Type 0 where
  pub secrets : Secrets
  pub access : Access

-- What a login draws and is answered: the time, the random bytes, whether the file of credentials is
-- written for the link's and for the team's or organizer's record, and whether the database answers.
pub record Draw : Type 0 where
  pub now : Time
  pub random : Option Bytes
  pub link_saved : Bool
  pub saved : Bool
  pub answered : Bool

-- The status of an answer, and the tokens in it.
abbrev pub Answer : Type 0
Answer = ℕ × Option (String × String)

module _ (bcrypt : Bcrypt) (codec : Codec) where
  unfoldable pub give_tokens : Gate → String → Draw → Gate × Answer
  give_tokens gate owner draw =
      let o = issue_tokens codec gate.access owner draw.now draw.random draw.answered in
      elim o.1 [
        | none ↦ (record gate { access = o.0 }, (500, none))
        | some tokens ↦ (record gate { access = o.0 }, (200, some tokens))
      ]

  -- issueTeamTokens, with the statuses that teamLogin and linkLogin give its errors.
  unfoldable pub issue_team_tokens : Gate → String → String → Draw → Gate × Answer
  issue_team_tokens gate team code draw =
      let v = verify_credential bcrypt codec.sha256 gate.secrets "team" team code draw.saved in
      let checked : Gate = record gate { secrets = v.0 } in
      elim v.1 [
        | errored ↦ (checked, (500, none))
        | refused ↦ (checked, (401, none))
        | accepted ↦ give_tokens checked team draw
      ]

  -- teamLogin: whether the method is POST, and the request, if its JSON was read.
  unfoldable pub team_login : Gate → Bool → Option LoginRequest → Draw → Gate × Answer
  team_login gate is_post request draw =
      if not is_post
      then (gate, (405, none))
      else if gate.secrets.failed
      then (gate, (503, none))
      else elim request [
        | none ↦ (gate, (400, none))
        | some r ↦
            if r.team_id == ""
            then (gate, (400, none))
            else issue_team_tokens gate r.team_id r.join_code draw
      ]

  -- linkLogin behind the reading of the request.
  unfoldable pub enter_by_link : Gate → LoginRequest → Draw → Gate × Answer
  enter_by_link gate r draw =
      let v =
        verify_credential bcrypt codec.sha256 gate.secrets "link" "" r.link_token draw.link_saved in
      let checked : Gate = record gate { secrets = v.0 } in
      elim v.1 [
        | errored ↦ (checked, (500, none))
        | refused ↦ (checked, (401, none))
        | accepted ↦ issue_team_tokens checked r.team_id r.join_code draw
      ]

  unfoldable pub link_login : Gate → Bool → Option LoginRequest → Draw → Gate × Answer
  link_login gate is_post request draw =
      if not is_post
      then (gate, (405, none))
      else if gate.secrets.failed
      then (gate, (503, none))
      else elim request [
        | none ↦ (gate, (401, none))
        | some r ↦
            if r.team_id == "" || r.join_code == "" || r.link_token == ""
            then (gate, (401, none))
            else enter_by_link gate r draw
      ]

  -- organizerLogin behind the reading of the request.
  unfoldable pub enter_as_organizer : Gate → String → Draw → Gate × Answer
  enter_as_organizer gate password draw =
      let v =
        verify_credential bcrypt codec.sha256 gate.secrets "organizer" "" password draw.saved in
      let checked : Gate = record gate { secrets = v.0 } in
      elim v.1 [
        | errored ↦ (checked, (500, none))
        | refused ↦ (checked, (401, none))
        | accepted ↦ give_tokens checked "organizer" draw
      ]

  unfoldable pub organizer_login : Gate → Bool → Option LoginRequest → Draw → Gate × Answer
  organizer_login gate is_post request draw =
      if not is_post
      then (gate, (405, none))
      else if gate.secrets.failed
      then (gate, (503, none))
      else elim request [
        | none ↦ (gate, (401, none))
        | some r ↦
            if r.password == ""
            then (gate, (401, none))
            else enter_as_organizer gate r.password draw
      ]

abbrev pub is_scheduled : Status → Bool
is_scheduled scheduled = true
is_scheduled open_now = false
is_scheduled closed = false

-- health, with whether the database answers, if there is one.
unfoldable pub health : Option Bool → ℕ
health none = 200
health (some healthy) = if healthy then 200 else 503

-- ready
unfoldable pub ready : Gate → ℕ → Status → ℕ
ready gate packages status =
    if gate.secrets.failed || gate.access.security_failed
    then 503
    else if is_scheduled status
    then 503
    else elim packages [ zero ↦ 503 | suc n ↦ 200 ]

-- preflight: each check passes, or the status is 503.
unfoldable pub preflight : Gate → Option Bool → ℕ → String → ℕ
preflight gate database packages event_id =
    let stored : Bool = elim database [ none ↦ false | some healthy ↦ healthy ] in
    let loaded : Bool = elim packages [ zero ↦ false | suc n ↦ true ] in
    if stored
      && loaded
      && not (event_id == "")
      && not gate.secrets.failed
      && not gate.access.security_failed
    then 200
    else 503
