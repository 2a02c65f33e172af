-- ===== src/Shell/Examples.antt =====
-- Lines through the lexer and the parser, and the theorems of this component at concrete inputs.
use Prim.Native.String.{◌++◌ as ◌+++◌}
use red_lab.Prelude.{◌≡◌, refl, [], ◌∷◌, ◌++◌, arith}
use red_lab.Shell.{op_or, ok, err, missing_target}
use red_lab.Shell.Lex.{lex}
use red_lab.Shell.Parse.{
  parse, parse_tokens, loop, step, push_word, flush_command, flush_pipeline, close_pipeline,
  push_redirection, close,
}
use red_lab.Shell.WellFormed.{IsWellFormed, parse-IsWellFormed}
use red_lab.Shell.Quoting.{print}
use red_lab.Shell.Words.{
  plain_command, plain_statement, parse-print, parse-print_pipe, parse-stderr_dup,
}

lex_words : lex "echo 'a b' c" ≡ ok ("echo" ∷ "a b" ∷ "c" ∷ [])
unfolding lex
lex_words = refl

lex_operators :
    lex "a||b 2>&1 2>x >>\"|\"" ≡ ok ("a" ∷ "||" ∷ "b" ∷ "2>&1" ∷ "2>" ∷ "x" ∷ ">>" ∷ "|" ∷ [])
unfolding lex
lex_operators = refl

parse_or :
    parse "ls a || pwd"
    ≡ ok (
        plain_statement (plain_command ("ls" ∷ "a" ∷ []) ∷ [])
        ∷ record { previous = op_or; pipeline = plain_command ("pwd" ∷ []) ∷ [] }
        ∷ [])
unfolding parse lex parse_tokens loop step push_word flush_command flush_pipeline close_pipeline
    push_redirection close
parse_or = refl

parse-IsWellFormed_example : IsWellFormed (
    plain_statement (plain_command ("ls" ∷ "a" ∷ []) ∷ [])
    ∷ record { previous = op_or; pipeline = plain_command ("pwd" ∷ []) ∷ [] }
    ∷ [])
parse-IsWellFormed_example = parse-IsWellFormed "ls a || pwd" _ parse_or

parse-print_example :
    parse (print ("echo" ∷ "a b" ∷ "2" ∷ []))
    ≡ ok (plain_statement (plain_command ("echo" ∷ "a b" ∷ "2" ∷ []) ∷ []) ∷ [])
parse-print_example =
    parse-print "echo" ("a b" ∷ "2" ∷ []) (ground arith) (refl, (refl, (refl, tt)))

parse-print_pipe_example :
    parse (print (("echo" ∷ []) ++ "|" ∷ "tee" ∷ []))
    ≡ ok (plain_statement (plain_command ("echo" ∷ []) ∷ plain_command ("tee" ∷ []) ∷ []) ∷ [])
parse-print_pipe_example = parse-print_pipe "echo" [] "tee" [] (ground arith) (refl, tt) (refl, tt)

parse-stderr_dup_example : parse (print ("ls" ∷ []) +++ "2>&1") ≡ err (missing_target "2>&1")
parse-stderr_dup_example = parse-stderr_dup ("ls" ∷ []) (ground arith) (refl, tt)
