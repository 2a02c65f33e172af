-- ===== src/Shell/Lex.antt =====
-- `lex` and `normalizeOperators` of internal/shell/parser.go.
use red_lab.Prelude.{
  ℕ, zero, suc, Char, code, String, Bool, true, false, ◌&&◌, ◌||◌, none, some, List, [], ◌∷◌, ◌++◌,
  ◌==◌, eqb, get_elem?, if◌then◌else◌,
}
use Prim.Native.String.{◌++◌ as ◌+++◌}
use red_lab.Shell.{Result, ok, err, trailing_escape, unterminated_quote}

-- The variable `quote`: 0, a single or a double quote.
pub data Quote : Type 0 where
  bare single double : Quote

-- The local variables of `lex`.
pub record Lexer : Type 0 where
  pub out : List String
  pub word : String
  pub started : Bool
  pub quote : Quote
  pub escaped : Bool

abbrev pub start : Lexer
start = record { out = []; word = ""; started = false; quote = bare; escaped = false }

unfoldable pub flush : Lexer → Lexer
flush s =
    if s.started then record s { out = s.out ++ s.word ∷ []; word = ""; started = false } else s

abbrev pub text_of : Char → String
text_of r = String.◌∷◌ r String.[]

unfoldable pub write_rune : Lexer → Char → Lexer
write_rune s r = record s { word = s.word +++ text_of r; started = true }

abbrev pub is_blank : ℕ → Bool
is_blank c = eqb c b' ' || eqb c b'\t' || eqb c b'\r' || eqb c b'\n'

abbrev pub is_operator_rune : ℕ → Bool
is_operator_rune c = eqb c b'|' || eqb c b';' || eqb c b'>' || eqb c b'<' || eqb c b'&'

abbrev emit_rune : Lexer → Char → Lexer
emit_rune s r = record s { out = s.out ++ text_of r ∷ [] }

-- The `switch r` outside of quotes.
step_bare : Lexer → Char → Lexer
step_bare s r =
    let c = code r in
    if eqb c b'\\'
    then record s { escaped = true; started = true }
    else if eqb c b'\''
    then record s { quote = single; started = true }
    else if eqb c b'"'
    then record s { quote = double; started = true }
    else if is_blank c
    then flush s
    else if is_operator_rune c
    then emit_rune (flush s) r
    else write_rune s r

step_quote : Quote → Lexer → Char → Lexer
step_quote single s r = if eqb (code r) b'\'' then record s { quote = bare } else write_rune s r
step_quote double s r =
    if eqb (code r) b'"'
    then record s { quote = bare }
    else if eqb (code r) b'\\'
    then record s { escaped = true }
    else write_rune s r
step_quote bare s r = step_bare s r

-- One round of the loop over the runes of the input.
unfoldable pub step : Lexer → Char → Lexer
unfolding step_quote step_bare flush write_rune
step s r = if s.escaped then record (write_rune s r) { escaped = false } else step_quote s.quote s r

unfoldable pub scan : Lexer → String → Lexer
scan s String.[] = s
scan s (String.◌∷◌ r input) = scan (step s r) input

-- `i + k < len(tokens) && tokens[i+k] == w`, where `next` is what stands behind `tokens[i]`.
abbrev pub is_at : List String → ℕ → String → Bool
is_at next k w = elim (get_elem? next k) [ none ↦ false | some t ↦ t == w ]

-- The token that stands for `tokens[i]`, and how many tokens behind it belong to it.
unfoldable pub combine : String → List String → String × ℕ
combine t next =
    if t == "|" && is_at next 0 "|"
    then ("||", 1)
    else if t == "&" && is_at next 0 "&"
    then ("&&", 1)
    else if t == "2" && is_at next 0 ">" && is_at next 1 "&" && is_at next 2 "1"
    then ("2>&1", 3)
    else if t == "2" && is_at next 0 ">"
    then ("2>", 1)
    else if t == ">" && is_at next 0 ">"
    then (">>", 1)
    else (t, 0)

-- `skipped` counts the tokens that the round before has used.
unfoldable pub normalize_from : ℕ → List String → List String
unfolding combine
normalize_from skipped [] = []
normalize_from (suc skipped) (t ∷ next) = normalize_from skipped next
normalize_from zero (t ∷ next) =
    let (token, used) = combine t next in token ∷ normalize_from used next

unfoldable pub normalize_operators : List String → List String
unfolding normalize_from
normalize_operators tokens = normalize_from 0 tokens

abbrev finish_quote : Quote → Lexer → Result (List String)
finish_quote bare s = ok (normalize_operators (flush s).out)
finish_quote _ s = err unterminated_quote

unfoldable pub finish : Lexer → Result (List String)
unfolding flush normalize_operators
finish s = if s.escaped then err trailing_escape else finish_quote s.quote s

unfoldable pub lex : String → Result (List String)
unfolding finish scan step
lex input = finish (scan start input)
