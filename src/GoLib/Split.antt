-- ===== src/GoLib/Split.antt =====
-- strings.Split(s, ".") and strings.Count(s, ".").
use Prim.Native.String.{◌++◌ as ◌+++◌}
use text.Mathlib.TextLemmas.{cons-append, nil-append}
use red_lab.Prelude.{ℕ, ◌+◌, eqb, code, String, ◌≡◌, refl, ap, List, [], ◌∷◌, if◌then◌else◌}
use red_lab.GoLib.Strings.Laws.{Lacks}
use red_lab.GoLib.Path.{cons_head}

unfoldable pub split_dots : String → List String
split_dots String.[] = String.[] ∷ []
split_dots (String.◌∷◌ c s) =
    let rest = split_dots s in if eqb (code c) b'.' then String.[] ∷ rest else cons_head c rest

unfoldable pub count_dots : String → ℕ
count_dots String.[] = 0
count_dots (String.◌∷◌ c s) = (if eqb (code c) b'.' then 1 else 0) + count_dots s

pub split_dots-last : (w : String) → Lacks b'.' w → split_dots w ≡ w ∷ []
unfolding split_dots
split_dots-last String.[] h = refl
split_dots-last (String.◌∷◌ c w) h = rw h.0 (ap (cons_head c) (split_dots-last w h.1))

pub split_dots-part :
    (w t : String) → Lacks b'.' w → split_dots (w +++ ("." +++ t)) ≡ w ∷ split_dots t
unfolding split_dots
split_dots-part String.[] t h = rw nil-append rw (cons-append "." "" t) rw nil-append refl
split_dots-part (String.◌∷◌ c w) t h =
    rw cons-append (rw h.0 (ap (cons_head c) (split_dots-part w t h.1)))
