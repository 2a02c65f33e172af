-- ===== src/GoLib/Hex.antt =====
-- Package encoding/hex: `EncodeToString` and `DecodeString`.
use Prim.Native.String.{char_at}
use native.Mathlib.Decide.{ℕ_discrete}
use red_lab.Prelude.{
  ℕ, zero, suc, ◌+◌, ◌-◌, ◌*◌, ◌/◌, ◌%◌, ◌<◌, Char, code, String, Bool, true, ◌&&◌, Option, none,
  some, ◌≡◌, refl, ap, List, [], ◌∷◌, arith, eqb, leb, All, if◌then◌else◌,
}

abbrev pub Bytes : Type 0
Bytes = List ℕ

unfoldable pub digit : ℕ → Char
digit n = char_at "0123456789abcdef" n

unfoldable pub encode : Bytes → String
encode [] = String.[]
encode (b ∷ bs) = String.◌∷◌ (digit (b / 16)) (String.◌∷◌ (digit (b % 16)) (encode bs))

-- The value of a digit, in either case.
unfoldable pub value : Char → Option ℕ
value c =
    let k = code c in
    if leb b'0' k && leb k b'9'
    then some (k - b'0')
    else if leb b'a' k && leb k b'f'
    then some (k - b'a' + 10)
    else if leb b'A' k && leb k b'F'
    then some (k - b'A' + 10)
    else none

abbrev join_byte : Option ℕ → Option ℕ → Option Bytes → Option Bytes
join_byte (some a) (some b) (some bs) = some ((a * 16 + b) ∷ bs)
join_byte _ _ _ = none

unfoldable pub decode : String → Option Bytes
decode String.[] = some []
decode (String.◌∷◌ c String.[]) = none
decode (String.◌∷◌ c (String.◌∷◌ d s)) = join_byte (value c) (value d) (decode s)

abbrev pub IsByte : ℕ → Type 0
IsByte b = b < 256

abbrev value_test : ℕ → Bool
value_test n = elim (value (digit n)) [ none ↦ Bool.false | some v ↦ eqb v n ]

-- The digits of a number's predecessors pass the test.
digits_pass : ℕ → Bool
digits_pass zero = true
digits_pass (suc top) = digits_pass top && value_test top

pass_below : (top n : ℕ) → n < top → digits_pass top ≡ true → value_test n ≡ true
unfolding digits_pass
pass_below zero n low passed = absurd (omega arith)
pass_below (suc top) n low passed = elim (ℕ_discrete n top) [
  | yes e ↦ rw e (later (digits_pass top) (value_test top) passed)
  | no d ↦ pass_below top n (omega arith) (earlier (digits_pass top) (value_test top) passed)
]
  where
    later : (a b : Bool) → a && b ≡ true → b ≡ true
    later a b h = ground arith

    earlier : (a b : Bool) → a && b ≡ true → a ≡ true
    earlier a b h = ground arith

digit_table : digits_pass 16 ≡ true
unfolding digits_pass value digit
digit_table = refl

value_of_test :
    (o : Option ℕ) (n : ℕ) → (elim o [ none ↦ Bool.false | some v ↦ eqb v n ]) ≡ true → o ≡ some n
value_of_test none n h = cc
value_of_test (some v) n h = ground arith

pub value-digit : (n : ℕ) → n < 16 → value (digit n) ≡ some n
value-digit n h = value_of_test (value (digit n)) n (pass_below 16 n h digit_table)

-- Bytes come back from their digits.
pub decode-encode : (bs : Bytes) → All IsByte bs → decode (encode bs) ≡ some bs
unfolding decode encode
decode-encode [] h = refl
decode-encode (b ∷ bs) h =
    rw
      (value-digit (b / 16) (omega arith), value-digit (b % 16) (omega arith), decode-encode bs h.1)
      (ap {B = Option Bytes} (λ n. some (n ∷ bs)) (omega arith))
