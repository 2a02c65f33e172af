-- ===== src/Runtime/Start.antt =====
-- NewSession of internal/runtime/session.go. The machine of a package is a parameter, and whether a
-- pair of keys was made is an argument.
use red_lab.Prelude.{String, Bool, Option, none, some, List, [], ◌∷◌, ◌==◌, if◌then◌else◌}
use red_lab.Prelude.Int.{pos}
use red_lab.GoLib.Time.{Time}
use red_lab.Scenario.{UserSpec}
use red_lab.Scenario.Package.{Package}
use red_lab.System.{State}
use red_lab.Evidence.Chain.{empty}
use red_lab.Runtime.{Session}

-- The passwords of the users, which are redacted.
unfoldable pub secrets_of : List UserSpec → List String
secrets_of [] = []
secrets_of (user ∷ users) =
    let rest = secrets_of users in if user.password == "" then rest else user.password ∷ rest

abbrev pub started_session : String → String → Package → Time → State → Session
started_session id team pkg seed state = record {
  id = id;
  team_id = team;
  scenario = pkg.scenario;
  state = state;
  chain = empty;
  history = [];
  transcript = "";
  notes = [];
  root_cause = "";
  resolution = "";
  hints = [];
  hint_cost = pos 0;
  started = seed;
  submitted = Bool.false;
  submitted_at = 0;
  judge_score = pos 0;
  judge_notes = "";
  judged = Bool.false;
  secrets = secrets_of pkg.scenario.spec.actors.users;
}

unfoldable pub new_session :
    (Package → Time → Option State) → Bool → String → String → Package → Time → Option Session
new_session new_state keyed id team pkg seed = elim (new_state pkg seed) [
  | none ↦ none
  | some state ↦ if keyed then some (started_session id team pkg seed state) else none
]
