-- ===== src/Runtime/Pipeline.antt =====
-- `runPipeline` of internal/runtime/session.go. `glob` stands for `State.Glob`, whose patterns are
-- those of path.Match, and `error_text` for the messages of the machine's errors.
pub mod Redirected
use Prim.Native.String.{◌++◌ as ◌+++◌}
use red_lab.Prelude.{
  code, String, Bool, false, ◌||◌, eqb, none, some, List, [], ◌∷◌, ◌++◌, ◌==◌, if◌then◌else◌,
}
use red_lab.Prelude.Int.{pos}
use red_lab.Shell.{Command, Redirection}
use red_lab.System.{Machine, Error, ok, err}
use red_lab.System.Files.{read_file, write_file}
use red_lab.Runtime.{Session, Env, CommandResult, Registry, failed}
use red_lab.Runtime.Expand.{expand}

-- The session with its virtual machine replaced; `Initial` stays.
abbrev pub with_machine : Session → Machine → Session
with_machine s m = record s { state = record s.state { machine = m } }

-- `strings.ContainsAny(word, "*?[")`
unfoldable pub has_pattern : String → Bool
has_pattern String.[] = false
has_pattern (String.◌∷◌ c s) =
    eqb (code c) b'*' || eqb (code c) b'?' || eqb (code c) b'[' || has_pattern s

-- What a redirection, a command or a pipeline leads to: the pipeline goes on or returns at once.
pub data Step (A : Type 0) : Type 0 where
  go_on : A → Step A
  return_now : Session × Env → CommandResult → Step A

module _ (glob : Machine → String → String → List String) (error_text : Error → String) where
  -- A word after the first is replaced by the files that it matches, if there are any.
  unfoldable pub arguments : Session × Env → List String → List String
  arguments se [] = []
  arguments se (w ∷ words) =
      let expanded = expand se.1.variables w in
      let matches =
        if has_pattern expanded then glob se.0.state.machine expanded se.1.user else [] in
      (elim matches [ [] ↦ expanded ∷ [] | f ∷ fs ↦ f ∷ fs ]) ++ arguments se words

  -- The redirections `<`: the last one gives the input.
  unfoldable pub take_input : Session × Env → List Redirection → String → Step String
  take_input se [] input = go_on input
  take_input se (r ∷ rs) input =
      if r.operator == "<"
      then elim (read_file se.0.state.machine (expand se.1.variables r.target) se.1.user) [
        | err e ↦ return_now se (failed (pos 1) (error_text e +++ "\n"))
        | ok content ↦ take_input se rs content
      ]
      else take_input se rs input

  -- A write of one of the outputs to a file.
  abbrev pub write_output :
      Session × Env
      → String
      → String
      → Bool
      → CommandResult
      → Step ((Session × Env) × CommandResult)
  write_output se target text append_mode r =
      let w = write_file se.0.state.machine target text se.1.user append_mode in
      let written : Session × Env = (with_machine se.0 w.0, se.1) in
      elim w.1 [
        | some e ↦ return_now written (failed (pos 1) (error_text e +++ "\n"))
        | none ↦ go_on (written, r)
      ]

  -- The `switch` over the redirections of the outputs.
  unfoldable pub redirect :
      Session × Env → Redirection → CommandResult → Step ((Session × Env) × CommandResult)
  redirect se r result =
      let target = expand se.1.variables r.target in
      if r.operator == ">" || r.operator == ">>"
      then write_output se target result.stdout (r.operator == ">>") (record result { stdout = "" })
      else if r.operator == "2>"
      then write_output se target result.stderr false (record result { stderr = "" })
      else if r.operator == "2>&1"
      then go_on (se, record result { stdout = result.stdout +++ result.stderr; stderr = "" })
      else go_on (se, result)

  unfoldable pub redirect_all :
      Session × Env → List Redirection → CommandResult → Step ((Session × Env) × CommandResult)
  redirect_all se [] result = go_on (se, result)
  redirect_all se (r ∷ rs) result = elim (redirect se r result) [
    | return_now t x ↦ return_now t x
    | go_on p ↦ redirect_all p.0 rs p.1
  ]

  module _ (registry : Registry) where
    -- The body of the loop over the commands, for a command that has words.
    unfoldable pub run_command :
        Session × Env
        → String
        → List String
        → List Redirection
        → String
        → Step ((Session × Env) × CommandResult)
    run_command se first words redirections stdin =
        let name = expand se.1.variables first in
        let args = arguments se words in
        elim (take_input se redirections stdin) [
          | return_now t x ↦ return_now t x
          | go_on input ↦ let r = registry name se args input in redirect_all r.0 redirections r.1
        ]

    unfoldable pub run_commands :
        Session × Env → List Command → String → CommandResult → (Session × Env) × CommandResult
    run_commands se [] stdin result = (se, result)
    run_commands se (c ∷ commands) stdin result = elim c.words [
      | [] ↦ run_commands se commands stdin result
      | first ∷ words ↦ elim (run_command se first words c.redirections stdin) [
        | return_now t x ↦ (t, x)
        | go_on p ↦ run_commands p.0 commands p.1.stdout p.1
      ]
    ]

    unfoldable pub run_pipeline : Session × Env → List Command → (Session × Env) × CommandResult
    run_pipeline se commands = run_commands se commands "" (failed (pos 0) "")
