-- ===== src/GoLib/Lines.antt =====
-- The functions of package strings that take a text apart: `Split`, `SplitAfter`, `SplitN`, `Fields`,
-- `Count`, `TrimSuffix` and `TrimLeft`, as far as the commands use them.
pub mod Laws
use Prim.Native.String.{◌++◌ as ◌+++◌}
use red_lab.Prelude.{
  ℕ, zero, suc, ◌+◌, ◌-◌, code, String, Bool, not, ◌&&◌, ◌||◌, Option, none, some, eqb, List, [],
  ◌∷◌, ◌==◌, if◌then◌else◌,
}
use red_lab.GoLib.Strings.{size, has_prefix, is_space}
use red_lab.GoLib.Path.{cons_head}

abbrev pub newline : ℕ
newline = 10

-- strings.Split(s, "\n")
unfoldable pub split_lines : String → List String
split_lines String.[] = String.[] ∷ []
split_lines (String.◌∷◌ c s) =
    let rest = split_lines s in if eqb (code c) newline then String.[] ∷ rest else cons_head c rest

-- strings.SplitAfter(s, "\n")
unfoldable pub split_after : String → List String
split_after String.[] = String.[] ∷ []
split_after (String.◌∷◌ c s) =
    let rest = split_after s in
    if eqb (code c) newline then String.◌∷◌ c String.[] ∷ rest else cons_head c rest

-- strings.Split(s, separator) for a separator that is not empty: `skipped` counts the characters
-- that belong to the last separator.
unfoldable pub split_from : String → ℕ → String → List String
split_from separator skipped String.[] = String.[] ∷ []
split_from separator (suc skipped) (String.◌∷◌ c s) = split_from separator skipped s
split_from separator zero (String.◌∷◌ c s) =
    let found = String.[] ∷ split_from separator (size separator - 1) s in
    let kept = cons_head c (split_from separator 0 s) in
    if has_prefix (String.◌∷◌ c s) separator then found else kept

abbrev pub split_on : String → String → List String
split_on separator s = split_from separator 0 s

-- strings.SplitN(s, string(c), 2): what stands before and behind the first `c`, if there is one.
unfoldable pub cut_at : ℕ → String → Option (String × String)
cut_at separator String.[] = none
cut_at separator (String.◌∷◌ c s) =
    let rest = cut_at separator s in
    if eqb (code c) separator
    then some (String.[], s)
    else elim rest [ none ↦ none | some (before, behind) ↦ some (String.◌∷◌ c before, behind) ]

-- strings.Count(s, string(c))
unfoldable pub count_char : ℕ → String → ℕ
count_char c String.[] = 0
count_char c (String.◌∷◌ d s) = (if eqb (code d) c then 1 else 0) + count_char c s

-- len(strings.Fields(s)); `inside` says that a field has begun.
unfoldable pub count_fields : Bool → String → ℕ
count_fields inside String.[] = 0
count_fields inside (String.◌∷◌ c s) =
    (if not inside && not (is_space (code c)) then 1 else 0)
    + count_fields (not (is_space (code c))) s

-- strings.TrimSuffix(s, suffix) for a suffix that is not empty
unfoldable pub trim_suffix : String → String → String
trim_suffix String.[] suffix = String.[]
trim_suffix (String.◌∷◌ c s) suffix =
    let rest = trim_suffix s suffix in
    if String.◌∷◌ c s == suffix then String.[] else String.◌∷◌ c rest

-- strings.TrimLeft(s, "-n")
unfoldable pub trim_flag : String → String
trim_flag String.[] = String.[]
trim_flag (String.◌∷◌ c s) =
    let rest = trim_flag s in
    if eqb (code c) b'-' || eqb (code c) b'n' then rest else String.◌∷◌ c s

-- strings.Repeat(s, n)
unfoldable pub repeat : String → ℕ → String
repeat s zero = ""
repeat s (suc n) = s +++ repeat s n
