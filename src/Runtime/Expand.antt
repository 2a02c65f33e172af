-- ===== src/Runtime/Expand.antt =====
-- `expand` of internal/runtime/session.go: the variables and the home directory in a word.
pub mod Rounds
pub mod Meaning
use Prim.Native.String.{◌++◌ as ◌+++◌}
use red_lab.Prelude.{
  ℕ, zero, suc, Char, code, String, Bool, ◌&&◌, ◌||◌, eqb, leb, Option, none, some, ◌==◌,
  if◌then◌else◌,
}
use red_lab.Prelude.GoMap.{GoMap, get_or}
use red_lab.GoLib.Strings.{size, has_prefix, trim_prefix}

-- The test of the inner loop: a letter, a digit or `_`.
abbrev pub is_name : ℕ → Bool
is_name c =
    (leb b'A' c && leb c b'Z')
    || (leb b'a' c && leb c b'z')
    || (leb b'0' c && leb c b'9')
    || eqb c b'_'

-- The longest name that a text starts with, and what follows it.
unfoldable pub take_name : String → String × String
take_name String.[] = (String.[], String.[])
take_name (String.◌∷◌ c s) =
    let rest = take_name s in
    if is_name (code c) then (String.◌∷◌ c rest.0, rest.1) else (String.[], String.◌∷◌ c s)

-- What stands before the first `}`, and what follows it.
unfoldable pub split_brace : String → Option (String × String)
split_brace String.[] = none
split_brace (String.◌∷◌ c s) =
    if eqb (code c) b'}'
    then some (String.[], s)
    else elim (split_brace s) [ none ↦ none | some r ↦ some (String.◌∷◌ c r.0, r.1) ]

abbrev pub named : GoMap String → String → String × String
named variables s =
    let r = take_name s in if r.0 == "" then ("$", s) else (get_or variables r.0 "", r.1)

-- What follows a `$`: the text that is written and what is left to read.
unfoldable pub after_dollar : GoMap String → String → String × String
after_dollar variables String.[] = ("$", String.[])
after_dollar variables (String.◌∷◌ c s) =
    if eqb (code c) b'{'
    then elim (split_brace s) [
      | none ↦ ("$", String.◌∷◌ c s)
      | some r ↦ (get_or variables r.0 "", r.1)
    ]
    else named variables (String.◌∷◌ c s)

-- One round of the loop.
unfoldable pub next : GoMap String → Char → String → String × String
next variables c s =
    if eqb (code c) b'$' then after_dollar variables s else (String.◌∷◌ c String.[], s)

-- Each round reads a character at least, so as many rounds as the word has are enough.
unfoldable pub expand_from : ℕ → GoMap String → String → String
expand_from zero variables s = ""
expand_from (suc rounds) variables String.[] = ""
expand_from (suc rounds) variables (String.◌∷◌ c s) =
    let r = next variables c s in r.0 +++ expand_from rounds variables r.1

unfoldable pub expand : GoMap String → String → String
expand variables word =
    if word == "~"
    then get_or variables "HOME" "/root"
    else if has_prefix word "~/"
    then (let home = get_or variables "HOME" "" in
        (if home == "" then "/root" else home) +++ trim_prefix word "~")
    else expand_from (size word) variables word
