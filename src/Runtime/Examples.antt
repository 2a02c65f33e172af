-- ===== src/Runtime/Examples.antt =====
-- Lines and hints in a small session, with a shell in which only `true` succeeds.
use Prim.Native.String.{◌++◌ as ◌+++◌}
use mathlib.Core.List.{Memᴰ}
use red_lab.Prelude.{
  String, true, false, none, ◌≡◌, ◌≢◌, eq_iff, ◌≤◌, ◌+◌, ◌^◌, refl, List, [], ◌∷◌, ◌==◌, arith,
  if◌then◌else◌,
}
use red_lab.Prelude.Int.{pos}
use red_lab.GoLib.Strings.{size, join, has_prefix, trim_space, trim_left, trim_right, is_space}
use red_lab.Shell as Shell
use red_lab.Shell.{Command, Statement, op_or, op_sequence, op_none}
use red_lab.Shell.Words.{plain_command, plain_statement}
use red_lab.Evidence.{Digest, Event}
use red_lab.Evidence.Append.{IsWhole, empty-IsWhole, append_all}
use red_lab.Evidence.Chain.{empty}
use red_lab.Runtime.{Session, Env, Registry, done, failed}
use red_lab.Runtime.Line.{Runner, Progress, run_line, add_transcript}
use red_lab.Runtime.Line.Records.{
  add_transcript-bound, IsRecorded, run_line-IsRecorded, run_line-IsWhole,
}
use red_lab.Runtime.Expand.{expand, expand_from, next}
use red_lab.Runtime.Expand.Meaning.{Expands, expand-Expands}
use red_lab.System.{Machine, Error}
use red_lab.GoLib.Path.{clean, render, is_rooted, clean_stack, split, push, absolute}
use red_lab.System.Files.{write_file, with_path, overwrite_file, create_file}
use red_lab.System.Paths.{normalize_path, check_root}
use red_lab.System.Permissions.{can_write}
use red_lab.Prelude.GoMap.{get}
use red_lab.Runtime.Pipeline.{run_pipeline}
use red_lab.Runtime.Pipeline.Redirected.{IsRedirected, command, write, run_pipeline-IsRedirected}
use red_lab.Runtime.Redacted.{redacted_events}
use red_lab.Runtime.Redacted.Exported.{IsExport, redacted_events-IsExport}
use red_lab.Samples.{session, no_url}

abbrev joined : Digest
joined previous p = previous +++ p.command

abbrev only_true : Runner
only_true se commands = (
  se,
  if elim commands [ [] ↦ "" | c ∷ cs ↦ elim c.words [ [] ↦ "" | w ∷ ws ↦ w ] ] == "true"
      then done "" []
      else failed (pos 1) "",
)

abbrev parse_text : Shell.Error → String
parse_text e = "syntax error"

-- `true || other ; false ; true`
abbrev statements : List Statement
statements =
    plain_statement (plain_command ("true" ∷ []) ∷ [])
    ∷ record { previous = op_or; pipeline = plain_command ("other" ∷ []) ∷ [] }
    ∷ record { previous = op_sequence; pipeline = plain_command ("false" ∷ []) ∷ [] }
    ∷ record { previous = op_sequence; pipeline = plain_command ("true" ∷ []) ∷ [] }
    ∷ []

abbrev beginning : Progress
beginning = record {
  session = session;
  env = record { variables = []; shared = true; history = []; user = "trainee"; cwd = "/" };
  last = pos 0;
  stdout = "";
  stderr = "";
}

add_transcript-bound_example : size (add_transcript "$ ls\n" "$ pwd\n/\n") ≤ 2 ^ 20 + 34
add_transcript-bound_example = add_transcript-bound "$ ls\n" "$ pwd\n/\n" (omega arith)

not_blank : trim_space " ls " ≢ ""
unfolding trim_space trim_left trim_right is_space
not_blank h = clash ((eq_iff (trim_space " ls ") "").1 h)
  where
    clash : false ≡ true → ⊥
    clash h = cc

run_line-IsRecorded_example :
    IsRecorded joined no_url parse_text only_true session
      (trim_space " ls ")
      (run_line joined no_url parse_text only_true session " ls ")
run_line-IsRecorded_example =
    run_line-IsRecorded joined no_url parse_text only_true (λ se commands. refl) session " ls "
      not_blank

run_line-IsWhole_example :
    IsWhole joined (run_line joined no_url parse_text only_true session " ls ").0.chain
run_line-IsWhole_example =
    run_line-IsWhole joined no_url parse_text only_true (λ se commands. refl) session " ls "
      (empty-IsWhole joined)

-- A braced name, a bare one and two that are no names.
abbrev greeting : String
greeting = "${A}-$A b$ ${"

greeting_plain : greeting ≢ "~"
greeting_plain h = clash ((eq_iff greeting "~").1 h)
  where
    clash : false ≡ true → ⊥
    clash h = cc

expand-Expands_example : Expands (("A", "x") ∷ []) greeting (expand (("A", "x") ∷ []) greeting)
expand-Expands_example =
    expand-Expands (("A", "x") ∷ []) greeting greeting_plain (unfold has_prefix in refl)

abbrev no_match : Machine → String → String → List String
no_match m pattern_text user = []

abbrev describe : Error → String
describe e = "error"

-- Every command prints its name.
abbrev echoing : Registry
echoing name se args input = (se, done name [])

abbrev as_root : Env
as_root = record { variables = []; shared = true; history = []; user = "root"; cwd = "/" }

not_refused : (write no_match describe echoing (session, as_root) "date" [] true 1 "/note").1 ≡ none
unfolding write_file with_path normalize_path check_root clean render is_rooted clean_stack split
    push absolute join has_prefix expand expand_from next size get overwrite_file create_file
    can_write
not_refused = refl

-- `date >> /note` as root.
run_pipeline-IsRedirected_example :
    IsRedirected no_match describe echoing
      (session, as_root)
      "date"
      []
      true
      1
      "/note"
      (run_pipeline no_match describe echoing
        (session, as_root)
        (command no_match describe echoing (session, as_root) "date" [] true 1 "/note" ∷ []))
run_pipeline-IsRedirected_example =
    run_pipeline-IsRedirected no_match describe echoing (session, as_root) "date" [] true 1 "/note"
      not_refused

abbrev ran : String → Event
ran command = record {
  payload = record {
    session_id = "s1";
    sequence = 0;
    timestamp = 100;
    virtual_timestamp = 100;
    kind = "command";
    actor = "trainee";
    command = command;
    exit_code = pos 0;
    mutations = [];
    previous_hash = "";
  };
  hash = "";
}

-- A session in which a password was typed.
abbrev telling : Session
telling = record session {
  chain = append_all joined empty (ran "ls" ∷ ran "echo hunter2 hunter2" ∷ []);
  secrets = "hunter2" ∷ [];
}

redacted_events-IsExport_example :
    IsExport joined "hunter2" telling.chain.events (redacted_events joined telling)
redacted_events-IsExport_example =
    redacted_events-IsExport joined "h" "unter2" (ground arith) (ground arith) telling
      (Memᴰ.head refl)
