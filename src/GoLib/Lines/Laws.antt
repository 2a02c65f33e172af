-- ===== src/GoLib/Lines/Laws.antt =====
-- Taking a text apart into lines and joining them again.
use Prim.Native.String.{◌++◌ as ◌+++◌}
use text.Mathlib.TextLemmas.{cons-append, nil-append}
use red_lab.Prelude.{
  suc, eqb, Char, code, String, false, ◌≡◌, refl, ap, ◌∙◌, List, [], ◌∷◌, ◌==◌, eq_iff, All, arith,
  Bool-cases, inl, inr,
}
use red_lab.GoLib.Strings.{size, join}
use red_lab.GoLib.Strings.Laws.{Lacks}
use red_lab.GoLib.Path.{cons_head}
use red_lab.GoLib.Lines.{newline, split_lines, trim_suffix}

-- A line holds no newline.
abbrev pub IsLine : String → Type 0
IsLine w = Lacks newline w

All-cons_head :
    (c : Char) (ws : List String)
    → eqb (code c) newline ≡ false
    → All IsLine ws
    → All IsLine (cons_head c ws)
All-cons_head c [] e h = ((e, tt), tt)
All-cons_head c (w ∷ ws) e h = ((e, h.0), h.1)

pub split_lines-IsLine : (s : String) → All IsLine (split_lines s)
unfolding split_lines
split_lines-IsLine String.[] = (tt, tt)
split_lines-IsLine (String.◌∷◌ c s) = elim (Bool-cases (eqb (code c) newline)) [
  | inl e ↦ rw e (tt, split_lines-IsLine s)
  | inr e ↦ rw e (All-cons_head c (split_lines s) e (split_lines-IsLine s))
]

pub split_lines-line : (w : String) → IsLine w → split_lines w ≡ w ∷ []
unfolding split_lines
split_lines-line String.[] h = refl
split_lines-line (String.◌∷◌ c w) h = rw h.0 (ap (cons_head c) (split_lines-line w h.1))

pub split_lines-append :
    (w t : String) → IsLine w → split_lines (w +++ ("\n" +++ t)) ≡ w ∷ split_lines t
unfolding split_lines
split_lines-append String.[] t h = rw nil-append rw (cons-append "\n" "" t) rw nil-append refl
split_lines-append (String.◌∷◌ c w) t h =
    rw cons-append (rw h.0 (ap (cons_head c) (split_lines-append w t h.1)))

-- Lines that are joined are found again.
pub split_lines-join :
    (w : String) (ws : List String)
    → All IsLine (w ∷ ws)
    → split_lines (join "\n" (w ∷ ws)) ≡ w ∷ ws
unfolding join
split_lines-join w [] h = split_lines-line w h.0
split_lines-join w (v ∷ ws) h =
    split_lines-append w (join "\n" (v ∷ ws)) h.0 ∙ ap (λ l. w ∷ l) (split_lines-join v ws h.1)

pub split_lines-cons : (s : String) → (w : String) × (ws : List String) × (split_lines s ≡ w ∷ ws)
unfolding split_lines
split_lines-cons String.[] = (String.[], [], refl)
split_lines-cons (String.◌∷◌ c s) = elim (Bool-cases (eqb (code c) newline)) [
  | inl e ↦ (String.[], split_lines s, rw e refl)
  | inr e ↦ let (w, ws, p) = split_lines-cons s in (String.◌∷◌ c w, ws, rw e (ap (cons_head c) p))
]

size-newline : (s : String) → size (s +++ "\n") ≡ suc (size s)
size-newline String.[] = refl
size-newline (String.◌∷◌ c s) = rw cons-append (ap suc (size-newline s))

longer : (c : Char) (s : String) → (String.◌∷◌ c (s +++ "\n") == "\n") ≡ false
longer c s = elim (Bool-cases (String.◌∷◌ c (s +++ "\n") == "\n")) [
  | inr e ↦ e
  | inl e ↦ absurd (too_long (ap size ((eq_iff _ "\n").0 e)))
]
  where
    too_long : suc (size (s +++ "\n")) ≡ 1 → ⊥
    too_long h = omega (arith, size-newline s)

-- A text ends with the newline that is put behind it.
pub trim_suffix-append : (s : String) → trim_suffix (s +++ "\n") "\n" ≡ s
unfolding trim_suffix
trim_suffix-append String.[] = refl
trim_suffix-append (String.◌∷◌ c s) =
    rw cons-append rw (longer c s) (ap (String.◌∷◌ c) (trim_suffix-append s))

pub newline_present : (s : String) → (s +++ "\n" == "") ≡ false
newline_present s = elim (Bool-cases (s +++ "\n" == "")) [
  | inr e ↦ e
  | inl e ↦ absurd (too_long (ap size ((eq_iff _ "").0 e)))
]
  where
    too_long : size (s +++ "\n") ≡ 0 → ⊥
    too_long h = omega (arith, size-newline s)
