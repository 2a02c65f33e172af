-- ===== src/GoLib/Sort.antt =====
-- `sort.Strings` and `sort.Slice`, by insertion.
pub mod Order
use red_lab.Prelude.{
  ltb, eqb, code, String, Bool, true, false, ◌&&◌, ◌||◌, List, [], ◌∷◌, if◌then◌else◌,
}

-- `s < t` on texts
unfoldable pub text_before : String → String → Bool
text_before s String.[] = false
text_before String.[] (String.◌∷◌ d t) = true
text_before (String.◌∷◌ c s) (String.◌∷◌ d t) =
    ltb (code c) (code d) || (eqb (code c) (code d) && text_before s t)

abbrev pub insert : String → List String → List String
insert w [] = w ∷ []
insert w (v ∷ vs) = let rest = insert w vs in if text_before v w then v ∷ rest else w ∷ v ∷ vs

unfoldable pub sort : List String → List String
sort [] = []
sort (w ∷ ws) = insert w (sort ws)

-- `sort.Slice(list, less)` for values that `less` tells apart, by insertion.
module _ {ℓ} {A : Type ℓ} (less : A → A → Bool) where
  unfoldable pub insert_by : A → List A → List A
  insert_by a [] = a ∷ []
  insert_by a (b ∷ bs) = let rest = insert_by a bs in if less b a then b ∷ rest else a ∷ b ∷ bs

  unfoldable pub sort_by : List A → List A
  sort_by [] = []
  sort_by (a ∷ rest) = insert_by a (sort_by rest)
