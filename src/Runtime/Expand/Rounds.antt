-- ===== src/Runtime/Expand/Rounds.antt =====
-- A round of the loop of `expand` leaves no more than what stood behind the character it began with.
use red_lab.Prelude.{
  ℕ, suc, ◌≤◌, Char, code, String, Bool, true, false, eqb, Option, none, some, ◌==◌, arith,
  if◌then◌else◌,
}
use red_lab.Prelude.GoMap.{GoMap, get_or}
use red_lab.GoLib.Strings.{size}
use red_lab.Runtime.Expand.{is_name, take_name, split_brace, named, after_dollar, next}

-- Of two outcomes of a round, both leave no more than `n` characters.
size-either :
    (b : Bool) (x y : String × String) (n : ℕ)
    → size x.1 ≤ n
    → size y.1 ≤ n
    → size (if◌then◌else◌ {A = String × String} b x y).1 ≤ n
size-either true x y n h k = h
size-either false x y n h k = k

size-take_name : (s : String) → size (take_name s).1 ≤ size s
unfolding take_name
size-take_name String.[] = omega arith
size-take_name (String.◌∷◌ c s) =
    size-either (is_name (code c)) (String.◌∷◌ c (take_name s).0, (take_name s).1)
      (String.[], String.◌∷◌ c s) (suc (size s)) (omega (arith, size-take_name s)) (omega arith)

-- What is left behind a brace is no longer than the text.
abbrev IsShorter : Option (String × String) → String → Type 0
IsShorter none s = Unit
IsShorter (some r) s = size r.1 ≤ size s

split_brace-IsShorter : (s : String) → IsShorter (split_brace s) s
unfolding split_brace
split_brace-IsShorter String.[] = tt
split_brace-IsShorter (String.◌∷◌ c s) =
    pick (eqb (code c) b'}') (split_brace s) (split_brace-IsShorter s)
  where
    pick :
        (b : Bool) (o : Option (String × String))
        → IsShorter o s
        → IsShorter
            (if b
              then some (String.[], s)
              else elim o [ none ↦ none | some r ↦ some (String.◌∷◌ c r.0, r.1) ])
            (String.◌∷◌ c s)
    pick true o h = omega arith
    pick false none h = tt
    pick false (some r) h = omega arith

size-after_dollar :
    (variables : GoMap String) (s : String) → size (after_dollar variables s).1 ≤ size s
unfolding after_dollar
size-after_dollar variables String.[] = omega arith
size-after_dollar variables (String.◌∷◌ c s) =
    size-either (eqb (code c) b'{') (braced (split_brace s)) (named variables word) (suc (size s))
      (size-braced (split_brace s) (split_brace-IsShorter s))
      (size-either ((take_name word).0 == "") ("$", word)
        (get_or variables (take_name word).0 "", (take_name word).1) (suc (size s)) (omega arith)
        (size-take_name word))
  where
    word : String
    word = String.◌∷◌ c s

    braced : Option (String × String) → String × String
    braced o = elim o [ none ↦ ("$", String.◌∷◌ c s) | some r ↦ (get_or variables r.0 "", r.1) ]

    size-braced : (o : Option (String × String)) → IsShorter o s → size (braced o).1 ≤ suc (size s)
    size-braced none h = omega arith
    size-braced (some r) h = omega arith

pub size-next :
    (variables : GoMap String) (c : Char) (s : String) → size (next variables c s).1 ≤ size s
unfolding next
size-next variables c s =
    size-either (eqb (code c) b'$') (after_dollar variables s) (String.◌∷◌ c String.[], s) (size s)
      (size-after_dollar variables s) (omega arith)
