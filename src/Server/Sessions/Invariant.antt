-- ===== src/Server/Sessions/Invariant.antt =====
-- What holds of the sessions whatever requests come.
use red_lab.Prelude.{String, Bool, Option, List, [], ◌∷◌}
use red_lab.GoLib.Hex.{Bytes}
use red_lab.GoLib.Time.{Time}
use red_lab.Scenario.Package.{Package}
use red_lab.System.{State}
use red_lab.Server.Sessions.{Labs, Settings, Luck, create_session, touch_activity, restart_session}
use red_lab.Server.Sessions.Keeps.{
  IsWell, KeepsWell, create_session-KeepsWell, touch_activity-KeepsWell, restart_session-KeepsWell,
}

-- The requests that change sessions.
pub data Request : Type 0 where
  create : String → Bool → Time → Luck → Request
  touch : String → Time → Request
  restarting : String → Bool → Request

module _ (sha256 : String → Bytes) (new_state : Package → Time → Option State)
    (settings : Settings) where
  -- The server behind a request.
  unfoldable pub serve : Labs → Request → Labs
  serve labs (create team manual_close now luck) =
      (create_session sha256 new_state settings labs team manual_close now luck).0
  serve labs (touch id now) = (touch_activity settings.spec labs id now).0
  serve labs (restarting id persisted) = (restart_session settings.spec labs id persisted).0

  unfoldable pub serve_all : Labs → List Request → Labs
  serve_all labs [] = labs
  serve_all labs (r ∷ requests) = serve_all (serve labs r) requests

  serve-IsWell :
      (labs : Labs) (r : Request)
      → IsWell settings.spec labs.sessions labs.restarts
      → IsWell settings.spec (serve labs r).sessions (serve labs r).restarts
  unfolding serve KeepsWell
  serve-IsWell labs (create team manual_close now luck) well =
      create_session-KeepsWell sha256 new_state settings labs team manual_close now luck well
  serve-IsWell labs (touch id now) well = touch_activity-KeepsWell settings.spec labs id now well
  serve-IsWell labs (restarting id persisted) well =
      restart_session-KeepsWell settings.spec labs id persisted well

  -- Whatever requests create, touch and restart sessions, with whatever random ids and answers of the
  -- database, a server on which each team had one session at most, with no more sessions and restarts
  -- than the event allows where it sets a limit, stays so.
  pub serve_all-IsWell :
      (labs : Labs) (requests : List Request)
      → IsWell settings.spec labs.sessions labs.restarts
      → IsWell settings.spec (serve_all labs requests).sessions (serve_all labs requests).restarts
  unfolding serve_all
  serve_all-IsWell labs [] well = well
  serve_all-IsWell labs (r ∷ requests) well =
      serve_all-IsWell (serve labs r) requests (serve-IsWell labs r well)
