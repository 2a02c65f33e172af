-- ===== src/GoLib/Strconv.antt =====
-- `strconv.Itoa`. The first argument of `decimal` is the number of digits to print at most: an `int`
-- has nineteen.
use Prim.Native.String.{◌++◌ as ◌+++◌}
use Prim.Native.Nat.{◌/◌, ◌%◌}
use red_lab.Prelude.{ℕ, zero, suc, String, ltb, if◌then◌else◌, List, [], ◌∷◌, none, some, get_elem?}
use red_lab.Prelude.Int.{ℤ, pos, negsuc}

abbrev digits : List String
digits = "0" ∷ "1" ∷ "2" ∷ "3" ∷ "4" ∷ "5" ∷ "6" ∷ "7" ∷ "8" ∷ "9" ∷ []

abbrev decimal_digit : ℕ → String
decimal_digit n = elim (get_elem? digits (n % 10)) [ none ↦ "" | some d ↦ d ]

unfoldable pub decimal : ℕ → ℕ → String
decimal zero n = ""
decimal (suc rounds) n =
    let rest = decimal rounds (n / 10) in (if ltb n 10 then "" else rest) +++ decimal_digit n

unfoldable pub itoa : ℤ → String
itoa (pos n) = decimal 19 n
itoa (negsuc n) = "-" +++ decimal 19 (suc n)
