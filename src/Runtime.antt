-- ===== src/Runtime.antt =====
-- internal/runtime/session.go: a team's session, which runs command lines on the virtual machine and
-- records them. The keys of a session, its package and its registry are not fields here: the registry
-- is a parameter of the functions that use it.
pub mod Expand
pub mod Pipeline
pub mod Line
pub mod Lab
pub mod Start
pub mod Redacted
mod Examples
use red_lab.Prelude.{String, Bool, List, []}
use red_lab.Prelude.GoMap.{GoMap}
use red_lab.Prelude.Int.{ℤ, pos}
use red_lab.GoLib.Time.{Time}
use red_lab.Scenario.{Scenario}
use red_lab.System.{State}
use red_lab.Evidence.Chain.{Chain}

pub record Session : Type 0 where
  pub id : String
  pub team_id : String
  pub scenario : Scenario
  pub state : State
  pub chain : Chain
  pub history : List String
  pub transcript : String
  pub notes : List String
  pub root_cause : String
  pub resolution : String
  pub hints : GoMap Bool
  pub hint_cost : ℤ
  pub started : Time
  pub submitted : Bool
  pub submitted_at : Time
  pub judge_score : ℤ
  pub judge_notes : String
  pub judged : Bool
  pub secrets : List String

-- `Result` of internal/command/command.go.
pub record CommandResult : Type 0 where
  pub exit_code : ℤ
  pub stdout : String
  pub stderr : String
  pub mutations : List String

-- `Env` of internal/command/command.go, but for its pointers to the session and its machine.
-- `variables` is the map of the machine, until a reset gives the machine another one: `shared` says
-- whether it still is.
pub record Env : Type 0 where
  pub variables : GoMap String
  pub shared : Bool
  pub history : List String
  pub user : String
  pub cwd : String

-- `Registry.Run`: the command's name, its environment, its arguments and its input.
abbrev pub Registry : Type 0
Registry = String → Session × Env → List String → String → (Session × Env) × CommandResult

-- `command.Result{ExitCode: code, Stderr: text}`
abbrev pub failed : ℤ → String → CommandResult
failed code text = record { exit_code = code; stdout = ""; stderr = text; mutations = [] }

-- `command.Result{Stdout: text, Mutations: mutations}`
abbrev pub done : String → List String → CommandResult
done text mutations = record {
  exit_code = pos 0;
  stdout = text;
  stderr = "";
  mutations = mutations;
}
