-- ===== src/Server/Login.antt =====
-- The credentials of internal/server/server.go: verifyCredential, which replaces a record whose hash
-- is old, and rotateLinkToken. Whether the file is written is an argument.
pub mod Again
use red_lab.Prelude.{String, Bool, true, false, not, Option, none, some, ◌==◌, if◌then◌else◌}
use red_lab.Prelude.GoMap.{get, put}
use red_lab.GoLib.Hex.{Bytes}
use red_lab.Auth.{Record, Credentials, Bcrypt, new_record, verify, needs_upgrade}

-- `Credentials` and whether `credentialErr` is set.
pub record Secrets : Type 0 where
  pub credentials : Credentials
  pub failed : Bool

pub data Login : Type 0 where
  errored refused accepted : Login

-- The switch over the kinds: an unknown kind, an unknown team, or the record.
unfoldable pub find_record : Credentials → String → String → Option (Option Record)
find_record c kind team =
    if kind == "organizer"
    then some (some c.organizer)
    else if kind == "link"
    then some (some c.link)
    else if kind == "team"
    then some (get c.teams team)
    else none

-- The second switch, on a copy of the credentials.
unfoldable pub replace_record : Credentials → String → String → Record → Credentials
replace_record c kind team r =
    if kind == "organizer"
    then record c { organizer = r }
    else if kind == "link"
    then record c { link = r }
    else if kind == "team"
    then record c { teams = put c.teams team r }
    else c

module _ (bcrypt : Bcrypt) (sha256 : String → Bytes) where
  -- From NewRecord on.
  unfoldable pub upgrade : Secrets → String → String → String → Bool → Secrets × Login
  upgrade s kind team secret saved = elim (new_record bcrypt sha256 secret) [
    | none ↦ (s, errored)
    | some r ↦
        if saved
        then (record s { credentials = replace_record s.credentials kind team r }, accepted)
        else (s, errored)
  ]

  -- What is done with the record that was found.
  unfoldable pub check_record : Secrets → String → String → String → Bool → Record → Secrets × Login
  check_record s kind team secret saved r =
      if not (verify bcrypt sha256 r secret)
      then (s, refused)
      else if not (needs_upgrade bcrypt r)
      then (s, accepted)
      else upgrade s kind team secret saved

  unfoldable pub verify_credential : Secrets → String → String → String → Bool → Secrets × Login
  verify_credential s kind team secret saved =
      if s.failed then (s, errored) else elim (find_record s.credentials kind team) [
        | none ↦ (s, errored)
        | some none ↦ (s, refused)
        | some (some r) ↦ check_record s kind team secret saved r
      ]

  -- rotateLinkToken, with the token that was drawn, if one was: the token of the answer.
  unfoldable pub rotate_link_token : Secrets → Option String → Bool → Secrets × Option String
  rotate_link_token s none saved = (s, none)
  rotate_link_token s (some token) saved = elim (new_record bcrypt sha256 token) [
    | none ↦ (s, none)
    | some r ↦
        if saved
        then (
          record { credentials = record s.credentials { link = r }; failed = false },
          some token,
        )
        else (s, none)
  ]
