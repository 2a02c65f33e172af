-- ===== src/Shell/Quoting.antt =====
-- Words in single quotes, and what `Parse` makes of them.
use red_lab.Prelude.{
  Char, code, String, Bool, true, false, ◌||◌, ◌≡◌, refl, sym, ◌∙◌, ap, List, [], ◌∷◌, ◌++◌, ◌==◌,
  eqb, not, arith, All,
}
use Prim.Native.String.{◌++◌ as ◌+++◌}
use text.Mathlib.TextLemmas.{
  nil-append, cons-append, append_assoc as text_append_assoc, append-nil as text_append-nil,
}
use mathlib.Core.List.{append_assoc, append-nil}
use red_lab.Shell.{ok}
use red_lab.Shell.Lex.{
  bare, single, Lexer, step, scan, finish, combine, is_at, normalize_from, normalize_operators, lex,
  text_of,
}
use red_lab.Shell.Parse.{is_separator, is_redirection}

-- No single quote in the text.
abbrev pub IsQuotable : String → Type 0
IsQuotable String.[] = Unit
IsQuotable (String.◌∷◌ c w) = (eqb (code c) b'\'' ≡ false) × IsQuotable w

-- The words of a line, each in single quotes and with a space behind it.
abbrev pub print : List String → String
print [] = String.[]
print (w ∷ ws) = String.◌∷◌ "'" (w +++ (String.◌∷◌ "'" (String.◌∷◌ " " (print ws))))

-- Between two words, and inside quotes.
abbrev between : List String → Lexer
between out = record { out = out; word = ""; started = false; quote = bare; escaped = false }

abbrev inside : List String → String → Lexer
inside out word = record { out = out; word = word; started = true; quote = single; escaped = false }

step-inside :
    (c : Char) (word : String) (out : List String)
    → eqb (code c) b'\'' ≡ false
    → step (inside out word) c ≡ inside out (word +++ text_of c)
unfolding step
step-inside c word out q = rw q

scan-inside :
    (w t word : String) (out : List String)
    → IsQuotable w
    → scan (inside out word) (w +++ t) ≡ scan (inside out (word +++ w)) t
unfolding scan
scan-inside String.[] t word out q = simp (nil-append, text_append-nil)
scan-inside (String.◌∷◌ c w) t word out q = rw cons-append (
    ap (λ s. scan s (w +++ t)) (step-inside c word out q.0)
    ∙ (scan-inside w t (word +++ text_of c) out q.1
        ∙ simp (text_append_assoc, cons-append, nil-append)))

scan-print :
    (ws : List String) (t : String) (out : List String)
    → All IsQuotable ws
    → scan (between out) (print ws +++ t) ≡ scan (between (out ++ ws)) t
unfolding scan step
scan-print [] t out q = simp (nil-append, append-nil)
scan-print (w ∷ ws) t out q =
    simp (cons-append, text_append_assoc)
      (scan-inside w _ "" out q.0
        ∙ rw nil-append (scan-print ws t (out ++ w ∷ []) q.1 ∙ simp append_assoc))

-- A word that is no operator and begins none.
abbrev pub is_plain : String → Bool
is_plain w = not (w == "|" || w == "&" || is_separator w || is_redirection w)

abbrev pub IsPlain : String → Type 0
IsPlain w = is_plain w ≡ true

plain_not_gt :
    (ws rest : List String)
    → All IsPlain ws
    → is_at rest 0 ">" ≡ false
    → is_at (ws ++ rest) 0 ">" ≡ false
plain_not_gt [] rest p h = h
plain_not_gt (w ∷ ws) rest p h = ground (arith, p.0)

combine-plain :
    (w : String) (next : List String)
    → IsPlain w
    → is_at next 0 ">" ≡ false
    → combine w next ≡ (w, 0)
unfolding combine
combine-plain w next p h = ground arith

pub normalize-plain :
    (ws rest : List String)
    → All IsPlain ws
    → is_at rest 0 ">" ≡ false
    → normalize_from 0 (ws ++ rest) ≡ ws ++ normalize_from 0 rest
unfolding normalize_from
normalize-plain [] rest p h = refl
normalize-plain (w ∷ ws) rest p h =
    rw (combine-plain w (ws ++ rest) p.0 (plain_not_gt ws rest p.1 h))
      (ap (λ l. w ∷ l) (normalize-plain ws rest p.1 h))

-- The lexer's side of the round trip, with a text behind the quoted words.
pub lex-print_then :
    (ws : List String) (t : String)
    → All IsQuotable ws
    → lex (print ws +++ t) ≡ finish (scan (between ws) t)
unfolding lex
lex-print_then ws t q = ap finish (scan-print ws t [] q)

pub lex-print :
    (ws : List String) → All IsQuotable ws → lex (print ws) ≡ ok (normalize_operators ws)
unfolding finish
lex-print ws q =
    ap lex (sym (text_append-nil (print ws))) ∙ (lex-print_then ws "" q ∙ unfold scan in refl)
