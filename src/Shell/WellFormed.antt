-- ===== src/Shell/WellFormed.antt =====
-- The statements that `Parse` returns have commands in every pipeline and words in every command,
-- and a connective in front of every statement but the first.
use red_lab.Prelude.{
  String, true, ◌≡◌, refl, ◌≢◌, List, [], ◌∷◌, ◌++◌, ◌==◌, arith, All, All-concat,
}
use red_lab.Shell.{Operator, op_none, op_sequence, Command, Statement, Result, ok, err, ◌>>=◌}
use red_lab.Shell.Lex.{lex}
use red_lab.Shell.Parse.{
  Parser, start, is_some_list, flush_command, close_pipeline, flush_pipeline, operator_of,
  is_separator, is_redirection, push_redirection, push_word, step, loop, close, clear_first,
  parse_tokens, parse,
}
use red_lab.Shell.Ensures.{Ensures, Ensures-bind, Ensures-if, Ensures-ok}

abbrev pub HasWords : Command → Type 0
HasWords c = is_some_list c.words ≡ true

abbrev pub IsRunnable : Statement → Type 0
IsRunnable s = (is_some_list s.pipeline ≡ true) × All HasWords s.pipeline

abbrev pub IsJoined : Statement → Type 0
IsJoined s = s.previous ≢ op_none

abbrev Linked : List Statement → Type 0
Linked [] = Unit
Linked (s ∷ rest) = All IsJoined rest

abbrev pub IsChain : List Statement → Type 0
IsChain [] = Unit
IsChain (s ∷ rest) = (s.previous ≡ op_none) × All IsJoined rest

-- The connective that the next statement will get.
abbrev Ready : List Statement → Operator → Type 0
Ready [] o = Unit
Ready (s ∷ rest) o = o ≢ op_none

record Inv (p : Parser) : Type 0 where
  open_pipeline : All HasWords p.pipeline
  runnable : All IsRunnable p.statements
  linked : Linked p.statements
  ready : Ready p.statements p.previous

start-Inv : Inv start
start-Inv = record { open_pipeline = tt; runnable = tt; linked = tt; ready = tt }

Linked-concat :
    (ss : List Statement) (s : Statement) → Linked ss → Ready ss s.previous → Linked (ss ++ s ∷ [])
Linked-concat [] s l r = tt
Linked-concat (t ∷ rest) s l r = All-concat IsJoined rest s l r

Ready-joined : (ss : List Statement) (o : Operator) → o ≢ op_none → Ready ss o
Ready-joined [] o h = tt
Ready-joined (s ∷ rest) o h = h

flush_command-Inv : (p : Parser) → Inv p → Ensures Inv (flush_command p)
unfolding flush_command
flush_command-Inv p v =
    Ensures-if Inv (is_some_list p.command.words) _ _
      (λ e. record {
        open_pipeline = All-concat HasWords p.pipeline p.command v.open_pipeline e;
        runnable = v.runnable;
        linked = v.linked;
        ready = v.ready;
      })
      (λ _. tt)

-- The open command is not part of the invariant.
keep_command : (p : Parser) (c : Command) → Inv p → Inv (record p { command = c })
keep_command p c v = record {
  open_pipeline = v.open_pipeline;
  runnable = v.runnable;
  linked = v.linked;
  ready = v.ready;
}

sequence_joins : op_sequence ≢ op_none
sequence_joins e = cc

close_pipeline-Inv : (p : Parser) → Inv p → Ensures Inv (close_pipeline p)
unfolding close_pipeline
close_pipeline-Inv p v =
    Ensures-if Inv (is_some_list p.pipeline) _ _
      (λ e. record {
        open_pipeline = tt;
        runnable = All-concat IsRunnable p.statements _ v.runnable (e, v.open_pipeline);
        linked = Linked-concat p.statements _ v.linked v.ready;
        ready = Ready-joined _ _ sequence_joins;
      })
      (λ _. tt)

flush_pipeline-Inv : (p : Parser) → Inv p → Ensures Inv (flush_pipeline p)
unfolding flush_pipeline
flush_pipeline-Inv p v =
    Ensures-if Inv (is_some_list p.command.words) _ _
      (λ _.
        Ensures-bind Inv Inv (flush_command p) close_pipeline (flush_command-Inv p v)
          close_pipeline-Inv)
      (λ _. close_pipeline-Inv p v)

operator_joins : (t : String) → operator_of t ≢ op_none
operator_joins t = ground arith

step-Inv : (t : String) (p : Parser) → Inv p → Ensures Inv (step t p)
unfolding step push_word
step-Inv t p v =
    Ensures-if Inv (t == "|") _ _ (λ _. flush_command-Inv p v)
      (λ _.
        Ensures-if Inv (is_separator t) _ _
          (λ _. Ensures-bind Inv Inv (flush_pipeline p) _ (flush_pipeline-Inv p v) λ q w. record {
            open_pipeline = w.open_pipeline;
            runnable = w.runnable;
            linked = w.linked;
            ready = Ready-joined q.statements _ (operator_joins t);
          })
          (λ _. keep_command p _ v))

loop-Inv : (tokens : List String) (p : Parser) → Inv p → Ensures Inv (loop tokens p)
unfolding loop push_redirection
loop-Inv [] p v = v
loop-Inv (t ∷ []) p v = Ensures-if Inv (is_redirection t) _ _ (λ _. tt) (λ _. step-Inv t p v)
loop-Inv (t ∷ target ∷ rest) p v =
    let taken = loop-Inv rest (push_redirection p t target) (keep_command p _ v) in
    let stepped =
      Ensures-bind Inv Inv (step t p) (loop (target ∷ rest)) (step-Inv t p v)
        (loop-Inv (target ∷ rest)) in
    Ensures-if Inv (is_redirection t) _ _ (λ _. taken) (λ _. stepped)

close-Inv : (p : Parser) → Inv p → Ensures Inv (close p)
unfolding close
close-Inv p v =
    Ensures-if Inv (is_some_list p.command.words) _ _ (λ _. flush_pipeline-Inv p v)
      (λ _. Ensures-if Inv (is_some_list p.pipeline) _ _ (λ _. flush_pipeline-Inv p v) (λ _. v))

abbrev pub IsWellFormed : List Statement → Type 0
IsWellFormed ss = All IsRunnable ss × IsChain ss

clear_first-IsWellFormed :
    (ss : List Statement) → All IsRunnable ss → Linked ss → IsWellFormed (clear_first ss)
clear_first-IsWellFormed [] r l = (tt, tt)
clear_first-IsWellFormed (s ∷ rest) r l = (r, (refl, l))

parse_tokens-IsWellFormed : (tokens : List String) → Ensures IsWellFormed (parse_tokens tokens)
unfolding parse_tokens
parse_tokens-IsWellFormed tokens =
    Ensures-bind Inv IsWellFormed (loop tokens start) _ (loop-Inv tokens start start-Inv) λ p v.
      Ensures-bind Inv IsWellFormed (close p) _ (close-Inv p v)
        λ q w. clear_first-IsWellFormed q.statements w.runnable w.linked

-- Where `Parse` accepts an input, every statement's pipeline has a command, every command has a
-- word, the first statement has no connective and every later one has one.
pub parse-IsWellFormed :
    (input : String) (ss : List Statement) → parse input ≡ ok ss → IsWellFormed ss
unfolding parse
parse-IsWellFormed input ss h =
    Ensures-ok IsWellFormed (lex input >>= parse_tokens) ss
      (Ensures-bind (λ tokens. Unit) IsWellFormed (lex input) parse_tokens (trivial (lex input))
        (λ tokens _. parse_tokens-IsWellFormed tokens))
      h
  where
    trivial : (r : Result (List String)) → Ensures (λ tokens. Unit {0}) r
    trivial (ok a) = tt
    trivial (err e) = tt
