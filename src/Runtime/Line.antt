-- ===== src/Runtime/Line.antt =====
-- `RunLine` and `record` of internal/runtime/session.go. `run` stands for `runPipeline` on a
-- session's commands, so that what is proved holds for any commands.
pub mod Loop
pub mod Records
use Prim.Native.String.{◌++◌ as ◌+++◌}
use red_lab.Prelude.{
  ℕ, zero, suc, ◌+◌, ◌-◌, ltb, String, Bool, true, false, not, ◌&&◌, ◌||◌, eqb, Option, none, some,
  List, [], ◌∷◌, ◌++◌, ◌==◌, map, if◌then◌else◌,
}
use Prim.Native.Nat.{◌^◌}
use red_lab.Prelude.Int.{ℤ, pos, eqb_ℤ}
use red_lab.GoLib.Strings.{size, trim_space, has_suffix, take}
use red_lab.GoLib.Time.{add, second}
use red_lab.Shell as Shell
use red_lab.Shell.{Operator, op_none, op_sequence, op_and, op_or, Command, Statement}
use red_lab.Shell.Parse.{parse}
use red_lab.Evidence.{Digest, Event, Payload}
use red_lab.Evidence.Chain.{append}
use red_lab.Evidence.Redact.{redact}
use red_lab.System.{Machine}
use red_lab.System.Net.{Url}
use red_lab.Rules as Conditions
use red_lab.Runtime.{Session, Env, CommandResult, failed}
use red_lab.Runtime.Pipeline.{with_machine}

abbrev pub max_transcript_bytes : ℕ
max_transcript_bytes = 2 ^ 20

-- The message behind a record that does not fit.
abbrev pub truncated : String
truncated = "[transcript truncated by RedLab]\n"

-- A record cut to the `room` that the transcript has left.
unfoldable pub fit : ℕ → String → String
fit room entry =
    if ltb room (size entry)
    then (let cut = take room entry in
        (if has_suffix cut "\n" then cut else cut +++ "\n") +++ truncated)
    else entry

unfoldable pub add_transcript : String → String → String
add_transcript transcript entry =
    if ltb (size transcript) max_transcript_bytes
    then transcript +++ fit (max_transcript_bytes - size transcript) entry
    else transcript

-- The event that `record` appends. Its last fields are for `Append` to set.
unfoldable pub command_event : Session → String → CommandResult → Event
command_event s input result = record {
  payload = record {
    session_id = s.id;
    sequence = 0;
    timestamp = s.state.clock;
    virtual_timestamp = s.state.clock;
    kind = "command";
    actor = s.state.current_user;
    command = input;
    exit_code = result.exit_code;
    mutations = result.mutations;
    previous_hash = "";
  };
  hash = "";
}

-- What `record` writes to the transcript: `fmt.Sprintf("$ %s\n%s%s", …)`.
unfoldable pub transcript_entry : Session → String → CommandResult → String
transcript_entry s input result =
    "$ "
    +++ redact input s.secrets
    +++ "\n"
    +++ redact result.stdout s.secrets
    +++ redact result.stderr s.secrets

module _ (digest : Digest) where
  unfoldable pub record_result : Session → String → CommandResult → Session × CommandResult
  record_result s input result = (
    record s {
      chain = (append digest s.chain (command_event s input result)).0;
      transcript = add_transcript s.transcript (transcript_entry s input result);
    },
    result,
  )

-- Pipelines run on a session and its environment.
abbrev pub Runner : Type 0
Runner = Session × Env → List Command → (Session × Env) × CommandResult

-- The variables of the loop of `RunLine`.
pub record Progress : Type 0 where
  pub session : Session
  pub env : Env
  pub last : ℤ
  pub stdout : String
  pub stderr : String

abbrev pub is_and : Operator → Bool
is_and op_and = true
is_and op_none = false
is_and op_sequence = false
is_and op_or = false

abbrev pub is_or : Operator → Bool
is_or op_or = true
is_or op_none = false
is_or op_sequence = false
is_or op_and = false

module _ (run : Runner) (input : String) where
  -- The body of the loop behind its two guards, up to the `break`.
  unfoldable pub run_one : Progress → List Command → Progress
  run_one p pipeline =
      let r = run (p.session, p.env) pipeline in
      let history = r.0.0.history ++ input ∷ [] in
      record {
        session = record r.0.0 { history = history };
        env = record r.0.1 { history = history; cwd = r.0.0.state.cwd };
        last = r.1.exit_code;
        stdout = p.stdout +++ r.1.stdout;
        stderr = p.stderr +++ r.1.stderr;
      }

  unfoldable pub run_statements : Progress → List Statement → Progress
  run_statements p [] = p
  run_statements p (s ∷ statements) =
      let skipped = run_statements p statements in
      let q = run_one p s.pipeline in
      let continued = run_statements q statements in
      if is_and s.previous && not (eqb_ℤ p.last (pos 0))
      then skipped
      else if is_or s.previous && eqb_ℤ p.last (pos 0)
      then skipped
      else if not (eqb_ℤ q.last (pos 0))
      then q
      else continued

module _ (digest : Digest) (parse_url : String → Option Url) (parse_error : Shell.Error → String)
    (run : Runner) where
  -- `RunLine` once the statements are parsed.
  unfoldable pub run_parsed : Session → String → List Statement → Session × CommandResult
  run_parsed s input statements =
      let start : Progress = record {
        session = s;
        env = record {
          variables = s.state.env;
          shared = true;
          history = s.history;
          user = s.state.current_user;
          cwd = s.state.cwd;
        };
        last = pos 0;
        stdout = "";
        stderr = "";
      } in
      let p = run_statements run input start statements in
      let applied =
        Conditions.apply parse_url p.session.state.machine p.session.scenario.spec.rules in
      let m = record applied.0 { clock = add applied.0.clock (pos second) } in
      record_result digest (with_machine p.session m) input
        (record { exit_code = p.last; stdout = p.stdout; stderr = p.stderr; mutations = applied.1 })

  unfoldable pub run_trimmed : Session → String → Session × CommandResult
  run_trimmed s input =
      if input == ""
      then (s, failed (pos 0) "")
      else if ltb (2 ^ 14) (size input)
      then record_result digest s input (failed (pos 2) "command exceeds 16 KiB\n")
      else elim (parse input) [
        | Shell.err e ↦ record_result digest s input (failed (pos 2) (parse_error e +++ "\n"))
        | Shell.ok statements ↦ run_parsed s input statements
      ]

  unfoldable pub run_line : Session → String → Session × CommandResult
  run_line s line = run_trimmed s (trim_space line)
