-- ===== src/Shell/Words.antt =====
-- Plain words through `Parse`: the round trip of a quoted command, and the operators that quotes do
-- not protect.
use Prim.Native.String.{◌++◌ as ◌+++◌}
use red_lab.Prelude.{String, false, ◌≡◌, refl, sym, ◌∙◌, ap, List, [], ◌∷◌, ◌++◌, arith, All}
use mathlib.Core.List.{append_assoc, append-nil}
use red_lab.Shell.{op_none, Command, Statement, Result, ok, err, missing_target, ◌>>=◌}
use red_lab.Shell.Lex.{
  combine, flush, write_rune, step as lex_step, scan, finish, normalize_from, normalize_operators,
  lex,
}
use red_lab.Shell.Parse.{
  Parser, start, push_word, is_redirection, flush_command, flush_pipeline, close_pipeline, step,
  loop, close, parse_tokens, parse,
}
use red_lab.Shell.Quoting.{IsQuotable, print, IsPlain, lex-print, lex-print_then, normalize-plain}

plain_redirection : (t : String) → IsPlain t → is_redirection t ≡ false
plain_redirection t h = ground arith

step-word : (t : String) (p : Parser) → IsPlain t → step t p ≡ ok (push_word p t)
unfolding step
step-word t p h = ground arith

-- The loop at a plain word, whatever stands behind it.
loop-word :
    (t : String) (ts : List String) (p : Parser)
    → IsPlain t
    → loop (t ∷ ts) p ≡ loop ts (push_word p t)
unfolding loop
loop-word t [] p h = rw (plain_redirection t h, step-word t p h)
loop-word t (u ∷ ts) p h = rw (plain_redirection t h, step-word t p h)

abbrev with_words : Parser → List String → Parser
with_words p ws = record p { command = record p.command { words = p.command.words ++ ws } }

loop-words :
    (ws rest : List String) (p : Parser)
    → All IsPlain ws
    → loop (ws ++ rest) p ≡ loop rest (with_words p ws)
loop-words [] rest p h = simp append-nil
loop-words (w ∷ ws) rest p h =
    loop-word w (ws ++ rest) p h.0
    ∙ (loop-words ws rest (push_word p w) h.1 ∙ unfold push_word in simp append_assoc)

step-pipe : (p : Parser) → step "|" p ≡ flush_command p
unfolding step
step-pipe p = refl

bind-ok : (m : Result Parser) → m ≡ (m >>= ok)
bind-ok (ok p) = refl
bind-ok (err e) = refl

-- The loop at a pipe, whatever stands behind it.
loop-pipe : (ts : List String) (p : Parser) → loop ("|" ∷ ts) p ≡ (flush_command p >>= loop ts)
unfolding loop
loop-pipe [] p = step-pipe p ∙ bind-ok (flush_command p)
loop-pipe (u ∷ ts) p = rw step-pipe

abbrev pub plain_command : List String → Command
plain_command ws = record { words = ws; redirections = [] }

abbrev pub plain_statement : List Command → Statement
plain_statement cs = record { previous = op_none; pipeline = cs }

parse_tokens-words :
    (w : String) (ws : List String)
    → All IsPlain (w ∷ ws)
    → parse_tokens (w ∷ ws) ≡ ok (plain_statement (plain_command (w ∷ ws) ∷ []) ∷ [])
unfolding parse_tokens close flush_pipeline flush_command close_pipeline
parse_tokens-words w ws h =
    ap parse_tokens (sym (append-nil (w ∷ ws)))
    ∙ rw (loop-words (w ∷ ws) [] start h) (unfold loop in refl)

normalize-words : (ws : List String) → All IsPlain ws → normalize_operators ws ≡ ws
unfolding normalize_operators
normalize-words ws h =
    ap (normalize_from 0) (sym (append-nil ws))
    ∙ (normalize-plain ws [] h refl ∙ unfold normalize_from in append-nil ws)

-- Words that hold no single quote and are no operators, written in single quotes, parse to the one
-- command that has these words and no redirection.
pub parse-print :
    (w : String) (ws : List String)
    → All IsQuotable (w ∷ ws)
    → All IsPlain (w ∷ ws)
    → parse (print (w ∷ ws)) ≡ ok (plain_statement (plain_command (w ∷ ws) ∷ []) ∷ [])
unfolding parse
parse-print w ws q h =
    rw (lex-print (w ∷ ws) q, normalize-words (w ∷ ws) h) (parse_tokens-words w ws h)

combine-pipe : (b : String) (bs : List String) → IsPlain b → combine "|" (b ∷ bs) ≡ ("|", 0)
unfolding combine
combine-pipe b bs h = ground arith

normalize-pipe :
    (ws : List String) (b : String) (bs : List String)
    → All IsPlain ws
    → All IsPlain (b ∷ bs)
    → normalize_operators (ws ++ "|" ∷ b ∷ bs) ≡ ws ++ "|" ∷ b ∷ bs
unfolding normalize_operators
normalize-pipe ws b bs h hb =
    normalize-plain ws ("|" ∷ b ∷ bs) h refl
    ∙ unfold normalize_from in
      rw (combine-pipe b bs hb.0) (ap (λ l. ws ++ "|" ∷ l) (normalize-words (b ∷ bs) hb))

parse_tokens-pipe :
    (a : String) (ws : List String) (b : String) (bs : List String)
    → All IsPlain (a ∷ ws)
    → All IsPlain (b ∷ bs)
    → parse_tokens ((a ∷ ws) ++ "|" ∷ b ∷ bs)
      ≡ ok (plain_statement (plain_command (a ∷ ws) ∷ plain_command (b ∷ bs) ∷ []) ∷ [])
unfolding parse_tokens close flush_pipeline flush_command close_pipeline
parse_tokens-pipe a ws b bs h hb = rw (loop-words (a ∷ ws) ("|" ∷ b ∷ bs) start h) (
    rw (loop-pipe (b ∷ bs) (with_words start (a ∷ ws))) (
      rw (← append-nil (b ∷ bs))
        (rw (loop-words (b ∷ bs) [] _ hb) (unfold loop in simp append-nil))))

lex-stderr_dup :
    (ws : List String)
    → All IsQuotable ws
    → All IsPlain ws
    → lex (print ws +++ "2>&1") ≡ ok (ws ++ "2>&1" ∷ [])
unfolding finish normalize_operators
lex-stderr_dup ws q h =
    lex-print_then ws "2>&1" q
    ∙ unfold scan lex_step flush write_rune normalize_operators in
      simp append_assoc (
        ap ok (
          normalize-plain ws ("2" ∷ ">" ∷ "&" ∷ "1" ∷ []) h refl
          ∙ unfold normalize_from combine in refl))

-- Quotes do not protect a pipe: between plain words, a quoted `|` ends the command and begins
-- another, and is no argument of either.
pub parse-print_pipe :
    (a : String) (as_words : List String) (b : String) (bs : List String)
    → All IsQuotable ((a ∷ as_words) ++ "|" ∷ b ∷ bs)
    → All IsPlain (a ∷ as_words)
    → All IsPlain (b ∷ bs)
    → parse (print ((a ∷ as_words) ++ "|" ∷ b ∷ bs))
      ≡ ok (plain_statement (plain_command (a ∷ as_words) ∷ plain_command (b ∷ bs) ∷ []) ∷ [])
unfolding parse
parse-print_pipe a as_words b bs q ha hb =
    rw (lex-print _ q)
      (rw (normalize-pipe (a ∷ as_words) b bs ha hb) (parse_tokens-pipe a as_words b bs ha hb))

-- After plain words `2>&1` is refused, since the parser wants a target behind it.
pub parse-stderr_dup :
    (ws : List String)
    → All IsQuotable ws
    → All IsPlain ws
    → parse (print ws +++ "2>&1") ≡ err (missing_target "2>&1")
unfolding parse
parse-stderr_dup ws q h =
    rw (lex-stderr_dup ws q h)
      (unfold parse_tokens in rw (loop-words ws _ start h) (unfold loop in refl))
