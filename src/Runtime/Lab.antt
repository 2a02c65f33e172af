-- ===== src/Runtime/Lab.antt =====
-- `RunLab`, `Restart` and `SetJudge` of internal/runtime/session.go: the command `lab`, with which
-- participants ask for hints, answer and submit, and what the judges do.
pub mod Hints
use Prim.Native.String.{◌++◌ as ◌+++◌}
use red_lab.Prelude.{
  ℕ, String, Bool, true, false, not, ◌||◌, ltb, Option, none, some, List, [], ◌∷◌, ◌++◌, ◌==◌, map,
  length, if◌then◌else◌,
}
use red_lab.Prelude.GoMap.{get_or, put}
use red_lab.Prelude.Int.{ℤ, pos, ◌+ℤ◌, ltb_ℤ, wrap64}
use red_lab.GoLib.Strings.{join}
use red_lab.GoLib.Strconv.{itoa}
use red_lab.GoLib.Time.{sub}
use red_lab.Scenario.{HintSpec, ScenarioSpec}
use red_lab.System.{Machine, State}
use red_lab.System.Net.{Url}
use red_lab.System.Reset.{reset}
use red_lab.Evidence.{Digest}
use red_lab.Evidence.Chain.{VerifyError, verify, snapshot, empty}
use red_lab.Scoring as Scoring
use red_lab.Scoring.{Score, ObjectiveResult}
use red_lab.Runtime.{Session, CommandResult, failed, done}

-- The branch `hint`, from the list of the hints on.
unfoldable pub use_hint : Session → List HintSpec → String → Session × CommandResult
use_hint s [] id = (s, failed (pos 1) "unknown hint\n")
use_hint s (hint ∷ hints) id =
    let rest = use_hint s hints id in
    if not (hint.id == id)
    then rest
    else if get_or s.hints hint.id false
    then (s, done "Hint already used.\n" [])
    else if ltb_ℤ (sub s.state.clock s.started) hint.unlock_after
    then (s, failed (pos 1) "Hint is not unlocked yet.\n")
    else (
      record s { hints = put s.hints hint.id true; hint_cost = wrap64 (s.hint_cost +ℤ hint.cost) },
      done (hint.text +++ "\n") (("hint:" +++ hint.id) ∷ []),
    )

-- `fmt.Fprintf(&b, "[%s] %s (%d/%d)\n", …)`
abbrev pub objective_line : ObjectiveResult → String
objective_line r =
    "["
    +++ (if r.passed then "x" else " ")
    +++ "] "
    +++ r.title
    +++ " ("
    +++ itoa r.earned
    +++ "/"
    +++ itoa r.points
    +++ ")\n"

abbrev pub status_text : Score → String
status_text score =
    "Score: "
    +++ itoa score.automated
    +++ "/"
    +++ itoa score.maximum
    +++ "\n"
    +++ join "" (map objective_line score.objectives)

unfoldable pub save_note : Session → List String → Session × CommandResult
save_note s args =
    (record s { notes = s.notes ++ join " " args ∷ [] }, done "Note saved.\n" ("note" ∷ []))

-- The first answer is the root cause, each later one the resolution.
unfoldable pub save_answer : Session → List String → Session × CommandResult
save_answer s args =
    let text = join " " args in
    (
      if s.root_cause == "" then record s { root_cause = text } else record s { resolution = text },
      done "Answer saved.\n" ("answer" ∷ []),
    )

unfoldable pub submit : Session → Session × CommandResult
submit s = (
  record s { submitted = true; submitted_at = s.state.clock },
  done "Submission recorded.\n" ("submit" ∷ []),
)

-- The branch `reset`.
unfoldable pub reset_lab : Session → Session × CommandResult
reset_lab s = elim (reset s.state) [
  | none ↦ (s, failed (pos 1) "initial snapshot is unavailable\n")
  | some state ↦ (
    record s { state = state; hints = []; hint_cost = pos 0 },
    done "Session reset.\n" ("reset" ∷ []),
  )
]

module _ (digest : Digest) (parse_url : String → Option Url)
    (verify_text : VerifyError → String) where
  unfoldable pub check_evidence : Session → Session × CommandResult
  check_evidence s = elim (verify digest s.chain) [
    | some e ↦ (s, failed (pos 1) (verify_text e +++ "\n"))
    | none ↦ (
      s,
      done
          ("Evidence chain verified (" +++ itoa (pos (length (snapshot s.chain))) +++ " events).\n")
          [],
    )
  ]

  abbrev pub current_score : Session → Score
  current_score s = Scoring.evaluate parse_url s.state.machine s.scenario.spec s.hint_cost

  abbrev pub briefing_text : ScenarioSpec → String
  briefing_text spec =
      spec.briefing.summary
      +++ "\n\nObjectives:\n- "
      +++ join "\n- " spec.briefing.objectives_shown_to_participants
      +++ "\n"

  abbrev pub hint_branch : Session → List String → Session × CommandResult
  hint_branch s [] = (s, failed (pos 1) "lab hint: specify a hint id\n")
  hint_branch s (id ∷ args) = use_hint s s.scenario.spec.hints id

  -- The `switch`: a subcommand and the words behind it.
  unfoldable pub run_subcommand : Session → String → List String → Session × CommandResult
  run_subcommand s name args =
      if name == "briefing"
      then (s, done (briefing_text s.scenario.spec) [])
      else if name == "objectives" || name == "status"
      then (s, done (status_text (current_score s)) [])
      else if name == "hint"
      then hint_branch s args
      else if name == "note"
      then save_note s args
      else if name == "answer"
      then save_answer s args
      else if name == "check"
      then (let score = current_score s in
          (
            s,
            done
                ("Automated score: "
                  +++ itoa score.automated
                  +++ "/"
                  +++ itoa score.maximum
                  +++ "\n")
                [],
          ))
      else if name == "evidence"
      then check_evidence s
      else if name == "reset"
      then reset_lab s
      else if name == "submit"
      then submit s
      else (s, failed (pos 1) ("lab: unsupported subcommand " +++ name +++ "\n"))

  unfoldable pub run_lab : Session → List String → Session × CommandResult
  run_lab s [] = run_subcommand s "status" []
  run_lab s (name ∷ args) = run_subcommand s name args

-- `Restart`: the error stands for the missing snapshot.
unfoldable pub restart : Session → Option Session
restart s = elim (reset s.state) [
  | none ↦ none
  | some state ↦ some (record s {
    state = state;
    chain = empty;
    history = [];
    transcript = "";
    notes = [];
    root_cause = "";
    resolution = "";
    hints = [];
    hint_cost = pos 0;
    submitted = false;
    submitted_at = 0;
    judged = false;
    judge_score = pos 0;
    judge_notes = "";
    started = state.clock;
  })
]

-- `SetJudge`: the error names the maximum.
unfoldable pub set_judge : Session → ℤ → String → Option Session
set_judge s score notes =
    if ltb_ℤ score (pos 0) || ltb_ℤ s.scenario.spec.scoring.judge_maximum score
    then none
    else some (record s { judge_score = score; judge_notes = notes; judged = true })
