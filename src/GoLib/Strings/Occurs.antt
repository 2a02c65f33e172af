-- ===== src/GoLib/Strings/Occurs.antt =====
-- `strings.Contains` as the place of one text in another.
use Prim.Native.String.{◌++◌ as ◌+++◌}
use text.Mathlib.TextLemmas.{cons-append, nil-append}
use red_lab.Prelude.{
  String, Bool, true, ◌≡◌, refl, sym, ap, ◌∙◌, ◌||◌, ◌↔◌, arith, inl, inr, Bool-cases,
}
use red_lab.GoLib.Strings.{has_prefix, contains}
use red_lab.GoLib.Strings.Laws.{has_prefix-append}

-- `sub` stands somewhere in the text.
abbrev pub Occurs : String → String → Type 0
Occurs s sub = (before : String) × (after : String) × (s ≡ before +++ (sub +++ after))

pub append-has_prefix : (sub after : String) → has_prefix (sub +++ after) sub ≡ true
unfolding has_prefix
append-has_prefix String.[] after = refl
append-has_prefix (String.◌∷◌ c sub) after =
    rw (cons-append c sub after) (ground (arith, append-has_prefix sub after))

prefix-contains : (s sub : String) → has_prefix s sub ≡ true → contains s sub ≡ true
unfolding contains
prefix-contains String.[] sub h = h
prefix-contains (String.◌∷◌ c s) sub h = rw h refl

occurs : (s sub : String) → contains s sub ≡ true → Occurs s sub
unfolding contains
occurs String.[] sub h = let (t, p) = has_prefix-append "" sub h in ("", t, p ∙ sym (nil-append _))
occurs (String.◌∷◌ c s) sub h = elim (Bool-cases (has_prefix (String.◌∷◌ c s) sub)) [
  | inl e ↦ let (t, p) = has_prefix-append _ sub e in ("", t, p ∙ sym (nil-append _))
  | inr e ↦
      let (before, after, p) = occurs s sub (rw e at h) in
      (
        String.◌∷◌ c before,
        after,
        ap (λ t. String.◌∷◌ c t) p ∙ sym (cons-append c before (sub +++ after)),
      )
]

pub occurs-contains : (before sub after : String) → contains (before +++ (sub +++ after)) sub ≡ true
unfolding contains
occurs-contains String.[] sub after =
    rw (nil-append (sub +++ after)) (prefix-contains _ sub (append-has_prefix sub after))
occurs-contains (String.◌∷◌ c before) sub after =
    rw (cons-append c before (sub +++ after)) (later _ _ (occurs-contains before sub after))
  where
    later : (a b : Bool) → b ≡ true → (a || b) ≡ true
    later a b h = ground arith

pub contains_iff : (s sub : String) → contains s sub ≡ true ↔ Occurs s sub
contains_iff s sub = (occurs s sub, λ o. rw o.2 (occurs-contains o.0 sub o.1))
