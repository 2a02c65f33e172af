-- ===== src/Shell/Parse.antt =====
-- `Parse` of internal/shell/parser.go: its local variables, its closures and its loop.
use red_lab.Prelude.{ℕ, String, Bool, ◌||◌, List, [], ◌∷◌, ◌++◌, ◌==◌, if◌then◌else◌}
use red_lab.Shell.{
  Operator, op_none, op_sequence, op_and, op_or, Command, Statement, Result, ok, err, empty_command,
  empty_pipeline, missing_target, ◌>>=◌,
}
use red_lab.Shell.Lex.{lex}

-- The local variables of `Parse`; `previous` is `current.Previous`.
pub record Parser : Type 0 where
  pub statements : List Statement
  pub previous : Operator
  pub pipeline : List Command
  pub command : Command

abbrev pub no_command : Command
no_command = record { words = []; redirections = [] }

abbrev pub start : Parser
start = record { statements = []; previous = op_none; pipeline = []; command = no_command }

-- `len(xs) > 0`
abbrev pub is_some_list {ℓ} : {A : Type ℓ} → List A → Bool
is_some_list [] = Bool.false
is_some_list (x ∷ xs) = Bool.true

unfoldable pub flush_command : Parser → Result Parser
flush_command p =
    if is_some_list p.command.words
    then ok (record p { pipeline = p.pipeline ++ p.command ∷ []; command = no_command })
    else err empty_command

-- What `flushPipeline` does once the open command, if it has words, is in the pipeline.
unfoldable pub close_pipeline : Parser → Result Parser
close_pipeline p =
    if is_some_list p.pipeline
    then ok (record p {
      statements = p.statements ++ (record { previous = p.previous; pipeline = p.pipeline } ∷ []);
      pipeline = [];
      previous = op_sequence;
    })
    else err empty_pipeline

unfoldable pub flush_pipeline : Parser → Result Parser
flush_pipeline p =
    if is_some_list p.command.words then (flush_command p >>= close_pipeline) else close_pipeline p

-- `Operator(t)` for the three separators.
abbrev pub operator_of : String → Operator
operator_of t = if t == "&&" then op_and else if t == "||" then op_or else op_sequence

abbrev pub is_separator : String → Bool
is_separator t = t == ";" || t == "&&" || t == "||"

abbrev pub is_redirection : String → Bool
is_redirection t = t == ">" || t == ">>" || t == "<" || t == "2>" || t == "2>&1"

-- `strings.HasPrefix(t, "2")`, on the five redirection operators.
abbrev pub fd_of : String → ℕ
fd_of t = if t == "2>" || t == "2>&1" then 2 else 1

unfoldable pub push_word : Parser → String → Parser
push_word p t = record p { command = record p.command { words = p.command.words ++ t ∷ [] } }

unfoldable pub push_redirection : Parser → String → String → Parser
push_redirection p t target = record p {
  command = record p.command {
    redirections =
        p.command.redirections ++ (record { fd = fd_of t; operator = t; target = target } ∷ []);
  };
}

-- The cases of `switch t` that take one token.
unfoldable pub step : String → Parser → Result Parser
step t p =
    if t == "|"
    then flush_command p
    else if is_separator t
    then (flush_pipeline p >>= λ q. ok (record q { previous = operator_of t }))
    else ok (push_word p t)

-- The loop over the tokens; a redirection takes the token behind it too.
unfoldable pub loop : List String → Parser → Result Parser
loop [] p = ok p
loop (t ∷ []) p = if is_redirection t then err (missing_target t) else step t p
loop (t ∷ target ∷ rest) p =
    let redirected = loop rest (push_redirection p t target) in
    let stepped = step t p >>= loop (target ∷ rest) in
    if is_redirection t then redirected else stepped

-- The end of `Parse`, behind its loop.
unfoldable pub close : Parser → Result Parser
close p =
    if is_some_list p.command.words
    then flush_pipeline p
    else if is_some_list p.pipeline
    then flush_pipeline p
    else ok p

abbrev pub clear_first : List Statement → List Statement
clear_first [] = []
clear_first (s ∷ rest) = record s { previous = op_none } ∷ rest

unfoldable pub parse_tokens : List String → Result (List Statement)
parse_tokens tokens = do p ← loop tokens start; q ← close p; ok (clear_first q.statements)

unfoldable pub parse : String → Result (List Statement)
parse input = lex input >>= parse_tokens
