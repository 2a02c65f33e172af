-- ===== src/GoLib/Fmt.antt =====
-- The verbs of package fmt that the commands use: `%5d`, `%-10s`, `%02d`, `%03o`; and strconv.Atoi.
use Prim.Native.String.{◌++◌ as ◌+++◌}
use red_lab.Prelude.{
  ℕ, zero, suc, ◌+◌, ◌-◌, ◌*◌, ◌/◌, ◌%◌, ◌^◌, leb, ltb, code, String, Bool, true, false, ◌&&◌,
  Option, none, some, eqb, ◌==◌, if◌then◌else◌,
}
use red_lab.Prelude.Int.{ℤ, pos, negsuc}
use red_lab.GoLib.Strings.{size}
use red_lab.GoLib.Lines.{repeat}
use red_lab.GoLib.Strconv.{itoa}

-- A text with `filling` before it up to a width, or with spaces behind it.
abbrev pub pad_left : String → ℕ → String → String
pad_left filling width s = repeat filling (width - size s) +++ s

abbrev pub pad_right : ℕ → String → String
pad_right width s = s +++ repeat " " (width - size s)

-- `%o` of a uint32, which has eleven octal digits at most
unfoldable pub octal_digits : ℕ → ℕ → String
octal_digits zero n = ""
octal_digits (suc rounds) n =
    let rest = octal_digits rounds (n / 8) in (if ltb n 8 then "" else rest) +++ itoa (pos (n % 8))

abbrev pub octal_text : ℕ → String
octal_text n = octal_digits 11 n

-- The value of a text of decimal digits.
unfoldable pub digits_value : ℕ → String → Option ℕ
digits_value n String.[] = some n
digits_value n (String.◌∷◌ c s) =
    let rest = digits_value (10 * n + (code c - b'0')) s in
    if leb b'0' (code c) && leb (code c) b'9' then rest else none

-- strconv.Atoi(s): the value, and whether there was no error. A number beyond 64 bits gives the
-- nearest `int` with an error.
unfoldable pub atoi : String → ℤ × Bool
atoi String.[] = (pos 0, false)
atoi (String.◌∷◌ c s) =
    let negative = eqb (code c) b'-' in
    let digits = if negative then s else if eqb (code c) b'+' then s else String.◌∷◌ c s in
    if digits == "" then (pos 0, false) else elim (digits_value 0 digits) [
      | none ↦ (pos 0, false)
      | some n ↦
          if negative
          then (if eqb n 0
              then (pos 0, true)
              else if leb n (2 ^ 63)
              then (negsuc (n - 1), true)
              else (negsuc (2 ^ 63 - 1), false))
          else if ltb n (2 ^ 63)
          then (pos n, true)
          else (pos (2 ^ 63 - 1), false)
    ]
