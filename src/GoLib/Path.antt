-- ===== src/GoLib/Path.antt =====
-- Package path: `Clean`, `Join`, `Dir` and `Base`, over the components between the slashes.
pub mod Split
pub mod Canonical
use Prim.Native.String.{◌++◌ as ◌+++◌}
use red_lab.Prelude.{
  ℕ, zero, suc, Char, code, String, Bool, true, false, ◌||◌, ◌&&◌, List, [], ◌∷◌, ◌==◌, eqb,
  if◌then◌else◌,
}
use red_lab.GoLib.Strings.{has_prefix, join}
use mathlib.Core.List.{reverse}

abbrev pub is_slash : Char → Bool
is_slash c = eqb (code c) b'/'

abbrev pub cons_head : Char → List String → List String
cons_head c [] = String.◌∷◌ c String.[] ∷ []
cons_head c (w ∷ ws) = String.◌∷◌ c w ∷ ws

-- strings.Split(s, "/")
unfoldable pub split : String → List String
split String.[] = String.[] ∷ []
split (String.◌∷◌ c s) =
    let rest = split s in if is_slash c then String.[] ∷ rest else cons_head c rest

-- `..` takes the last component back; at the root it stays there, and in a relative path it is kept.
-- The stack holds the components from the last on.
abbrev pub pop : Bool → List String → List String
pop true [] = []
pop false [] = ".." ∷ []
pop rooted (w ∷ stack) = if w == ".." then ".." ∷ w ∷ stack else stack

unfoldable pub push : Bool → List String → String → List String
push rooted stack w =
    if w == "" || w == "." then stack else if w == ".." then pop rooted stack else w ∷ stack

unfoldable pub clean_stack : Bool → List String → List String → List String
clean_stack rooted stack [] = stack
clean_stack rooted stack (w ∷ ws) = clean_stack rooted (push rooted stack w) ws

unfoldable pub is_rooted : String → Bool
is_rooted String.[] = false
is_rooted (String.◌∷◌ c s) = is_slash c

-- The path with these components behind the root.
unfoldable pub absolute : List String → String
absolute ws = String.◌∷◌ "/" (join "/" ws)

unfoldable pub render : Bool → List String → String
render true stack = absolute (reverse stack)
render false [] = "."
render false (w ∷ stack) = join "/" (reverse (w ∷ stack))

-- path.Clean(s)
unfoldable pub clean : String → String
clean s = render (is_rooted s) (clean_stack (is_rooted s) [] (split s))

-- path.Join(a, b), which leaves empty elements out.
unfoldable pub join_path : String → String → String
join_path a b =
    if a == ""
    then (if b == "" then "" else clean b)
    else if b == ""
    then clean a
    else clean (a +++ (String.◌∷◌ "/" b))

-- `s[:strings.LastIndex(s, "/")+1]`; the list is what `split` gives.
abbrev pub but_last : List String → List String
but_last [] = []
but_last (w ∷ []) = []
but_last (w ∷ v ∷ ws) = w ∷ but_last (v ∷ ws)

unfoldable pub dir_part : String → String
dir_part s = elim (but_last (split s)) [ [] ↦ "" | w ∷ ws ↦ join "/" (w ∷ ws) +++ "/" ]

-- path.Dir(s)
unfoldable pub dir : String → String
dir s = clean (dir_part s)

-- The last of the texts in a list that has one.
abbrev pub last_or : String → List String → String
last_or w [] = w
last_or w (v ∷ vs) = last_or v vs

-- The path without the slashes at its end.
unfoldable pub trim_slashes : String → String
trim_slashes String.[] = String.[]
trim_slashes (String.◌∷◌ c s) =
    let rest = trim_slashes s in if rest == "" && is_slash c then String.[] else String.◌∷◌ c rest

-- path.Base(s)
unfoldable pub base : String → String
base s =
    if s == ""
    then "."
    else if trim_slashes s == ""
    then "/"
    else last_or "" (split (trim_slashes s))
