-- ===== src/GoLib/Strings.antt =====
-- Package strings. Texts are compared and cut by whole characters, which on UTF-8 texts gives what
-- Go gives byte by byte.
pub mod Laws
pub mod Occurs
use Prim.Native.String.{◌++◌ as ◌+++◌}
use red_lab.Prelude.{
  ℕ, zero, suc, ◌-◌, Char, code, String, Bool, true, false, ◌&&◌, ◌||◌, Option, none, some, eqb,
  leb, ltb, ◌+◌, ◌==◌, List, [], ◌∷◌, if◌then◌else◌,
}

-- How many characters a text has.
abbrev pub size : String → ℕ
size String.[] = 0
size (String.◌∷◌ c s) = suc (size s)

-- len(s), in bytes of UTF-8.
unfoldable pub byte_size : String → ℕ
byte_size String.[] = 0
byte_size (String.◌∷◌ c s) =
    let width =
      if ltb (code c) 0x80
      then 1
      else if ltb (code c) 0x800
      then 2
      else if ltb (code c) 0x10000
      then 3
      else 4 in
    width + byte_size s

-- strings.HasPrefix(s, prefix)
unfoldable pub has_prefix : String → String → Bool
has_prefix s String.[] = true
has_prefix String.[] (String.◌∷◌ d prefix) = false
has_prefix (String.◌∷◌ c s) (String.◌∷◌ d prefix) = eqb (code c) (code d) && has_prefix s prefix

-- strings.Contains(s, sub)
unfoldable pub contains : String → String → Bool
contains String.[] sub = has_prefix String.[] sub
contains (String.◌∷◌ c s) sub = has_prefix (String.◌∷◌ c s) sub || contains s sub

-- strings.ReplaceAll(s, old, new) for a text `old` that is not empty: `skipped` counts the
-- characters that belong to the last match.
unfoldable pub replace_from : String → String → ℕ → String → String
replace_from old new skipped String.[] = String.[]
replace_from old new (suc skipped) (String.◌∷◌ c s) = replace_from old new skipped s
replace_from old new zero (String.◌∷◌ c s) =
    let matched = new +++ replace_from old new (size old - 1) s in
    let kept = String.◌∷◌ c (replace_from old new 0 s) in
    if has_prefix (String.◌∷◌ c s) old then matched else kept

unfoldable pub replace_all : String → String → String → String
replace_all s old new = replace_from old new 0 s

-- strings.TrimPrefix(s, prefix)
unfoldable pub trim_prefix : String → String → String
trim_prefix s String.[] = s
trim_prefix String.[] (String.◌∷◌ d prefix) = String.[]
trim_prefix (String.◌∷◌ c s) (String.◌∷◌ d prefix) =
    let rest = trim_prefix s prefix in
    if has_prefix (String.◌∷◌ c s) (String.◌∷◌ d prefix) then rest else String.◌∷◌ c s

-- unicode.IsSpace
unfoldable pub is_space : ℕ → Bool
is_space c =
    eqb c b' '
    || (leb 9 c && leb c 13)
    || eqb c 0x85
    || eqb c 0xa0
    || eqb c 0x1680
    || (leb 0x2000 c && leb c 0x200a)
    || eqb c 0x2028
    || eqb c 0x2029
    || eqb c 0x202f
    || eqb c 0x205f
    || eqb c 0x3000

-- strings.TrimLeft with the space test, and strings.TrimRight.
unfoldable pub trim_left : String → String
trim_left String.[] = String.[]
trim_left (String.◌∷◌ c s) =
    let rest = trim_left s in if is_space (code c) then rest else String.◌∷◌ c s

abbrev cons_unless_blank : Char → String → String
cons_unless_blank c String.[] = if is_space (code c) then String.[] else String.◌∷◌ c String.[]
cons_unless_blank c (String.◌∷◌ d s) = String.◌∷◌ c (String.◌∷◌ d s)

unfoldable pub trim_right : String → String
trim_right String.[] = String.[]
trim_right (String.◌∷◌ c s) = cons_unless_blank c (trim_right s)

-- strings.TrimSpace(s)
unfoldable pub trim_space : String → String
trim_space s = trim_right (trim_left s)

-- strings.Join(parts, separator)
unfoldable pub join : String → List String → String
join separator [] = String.[]
join separator (s ∷ []) = s
join separator (s ∷ t ∷ rest) = s +++ (separator +++ join separator (t ∷ rest))

-- s[:n], for an index `n` within the text
unfoldable pub take : ℕ → String → String
take zero s = String.[]
take (suc n) String.[] = String.[]
take (suc n) (String.◌∷◌ c s) = String.◌∷◌ c (take n s)

-- strings.HasSuffix(s, suffix)
unfoldable pub has_suffix : String → String → Bool
has_suffix String.[] suffix = suffix == ""
has_suffix (String.◌∷◌ c s) suffix = String.◌∷◌ c s == suffix || has_suffix s suffix
