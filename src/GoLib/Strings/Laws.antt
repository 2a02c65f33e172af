-- ===== src/GoLib/Strings/Laws.antt =====
-- `ReplaceAll` and the texts that its result can contain.
use Prim.Native.String.{◌++◌ as ◌+++◌}
use text.Mathlib.TextLemmas.{cons-append, nil-append}
use text.Mathlib.TextEquality.{Char-path}
use mathlib.Core.Path.{ap₂}
use red_lab.Prelude.{
  ℕ, zero, suc, ◌-◌, Char, code, String, Bool, true, false, ◌≡◌, refl, arith, eqb, and_true,
  Bool-cases, inl, inr, ◌⊎◌, sym, ◌∙◌, eqb_iff,
}
use red_lab.GoLib.Strings.{size, has_prefix, contains, replace_from, replace_all}

-- No character of the text has the code `k`.
abbrev pub Lacks : ℕ → String → Type 0
Lacks k String.[] = Unit
Lacks k (String.◌∷◌ c s) = (eqb (code c) k ≡ false) × Lacks k s

replace_from-match :
    (old new : String) (c : Char) (s : String)
    → has_prefix (String.◌∷◌ c s) old ≡ true
    → replace_from old new 0 (String.◌∷◌ c s) ≡ new +++ replace_from old new (size old - 1) s
unfolding replace_from
replace_from-match old new c s e = rw e

replace_from-keep :
    (old new : String) (c : Char) (s : String)
    → has_prefix (String.◌∷◌ c s) old ≡ false
    → replace_from old new 0 (String.◌∷◌ c s) ≡ String.◌∷◌ c (replace_from old new 0 s)
unfolding replace_from
replace_from-keep old new c s e = rw e

has_prefix-cons :
    (c e : Char) (s u : String)
    → has_prefix (String.◌∷◌ c s) (String.◌∷◌ e u) ≡ true
    → (eqb (code c) (code e) ≡ true) × (has_prefix s u ≡ true)
unfolding has_prefix
has_prefix-cons c e s u h = and_true _ _ h

has_prefix-cons_of :
    (c e : Char) (s u : String)
    → eqb (code c) (code e) ≡ true
    → has_prefix s u ≡ true
    → has_prefix (String.◌∷◌ c s) (String.◌∷◌ e u) ≡ true
unfolding has_prefix
has_prefix-cons_of c e s u p q = ground arith

-- A text that lacks the first character of the replacement and begins the result of a replacement
-- begins the text that was searched.
has_prefix-replace_from :
    (u old new s : String) (d : Char)
    → Lacks (code d) u
    → has_prefix (replace_from old (String.◌∷◌ d new) 0 s) u ≡ true
    → has_prefix s u ≡ true
has_prefix-replace_from String.[] old new s d l h = unfold has_prefix in refl
has_prefix-replace_from (String.◌∷◌ e u) old new String.[] d l h = unfold replace_from in h
has_prefix-replace_from (String.◌∷◌ e u) old new (String.◌∷◌ c s) d l h =
    elim (Bool-cases (has_prefix (String.◌∷◌ c s) old)) [
      | inl m ↦
          let (same, _) =
            has_prefix-cons d e _ u (rw (replace_from-match old _ c s m, cons-append) at h) in
          absurd (clash same l.0)
      | inr m ↦
          let (same, rest) = has_prefix-cons c e _ u (rw (replace_from-keep old _ c s m) at h) in
          has_prefix-cons_of c e s u same (has_prefix-replace_from u old new s d l.1 rest)
    ]
  where
    clash : eqb (code d) (code e) ≡ true → eqb (code e) (code d) ≡ false → ⊥
    clash p q = ground arith

contains-cons :
    (c : Char) (s sub : String)
    → contains (String.◌∷◌ c s) sub ≡ true
    → (has_prefix (String.◌∷◌ c s) sub ≡ true) ⊎ (contains s sub ≡ true)
unfolding contains
contains-cons c s sub h = ground arith

contains-tail :
    (c : Char) (s sub : String) → contains s sub ≡ true → contains (String.◌∷◌ c s) sub ≡ true
unfolding contains
contains-tail c s sub h = ground arith

contains-head :
    (c : Char) (s sub : String)
    → has_prefix (String.◌∷◌ c s) sub ≡ true
    → contains (String.◌∷◌ c s) sub ≡ true
unfolding contains
contains-head c s sub h = ground arith

-- No occurrence begins inside a text that lacks the first character.
contains-append :
    (new rest u : String) (e : Char)
    → Lacks (code e) new
    → contains (new +++ rest) (String.◌∷◌ e u) ≡ true
    → contains rest (String.◌∷◌ e u) ≡ true
contains-append String.[] rest u e l h = rw nil-append at h
contains-append (String.◌∷◌ c new) rest u e l h =
    elim (contains-cons c (new +++ rest) _ (rw cons-append at h)) [
      | inl p ↦ absurd (clash (has_prefix-cons c e _ u p).0 l.0)
      | inr q ↦ contains-append new rest u e l.1 q
    ]
  where
    clash : eqb (code c) (code e) ≡ true → eqb (code c) (code e) ≡ false → ⊥
    clash p q = ground arith

module _ (d : Char) (new : String) (e : Char) (u : String)
    (unmarked : Lacks (code d) (String.◌∷◌ e u)) (foreign : Lacks (code e) (String.◌∷◌ d new)) where
  abbrev marker : String
  marker = String.◌∷◌ d new

  abbrev secret : String
  secret = String.◌∷◌ e u

  -- A replacement brings in no occurrence of a text that shares nothing with the marker.
  pub contains-replace_from :
      (old : String) (skipped : ℕ) (s : String)
      → contains (replace_from old marker skipped s) secret ≡ true
      → contains s secret ≡ true
  contains-replace_from old skipped String.[] h = unfold replace_from in h
  contains-replace_from old (suc skipped) (String.◌∷◌ c s) h =
      contains-tail c s secret (contains-replace_from old skipped s (skip skipped h))
    where
      skip :
          (k : ℕ)
          → contains (replace_from old marker (suc k) (String.◌∷◌ c s)) secret ≡ true
          → contains (replace_from old marker k s) secret ≡ true
      skip k h = unfold replace_from in h
  contains-replace_from old zero (String.◌∷◌ c s) h =
      elim (Bool-cases (has_prefix (String.◌∷◌ c s) old)) [
        | inl m ↦ contains-tail c s secret (
            contains-replace_from old (size old - 1) s (
              contains-append marker _ u e foreign (rw (replace_from-match old marker c s m) at h)))
        | inr m ↦ elim (contains-cons c _ secret (rw (replace_from-keep old marker c s m) at h)) [
          | inl p ↦ contains-head c s secret (
              has_prefix-replace_from secret old new (String.◌∷◌ c s) d unmarked
                (rw (replace_from-keep old marker c s m) p))
          | inr q ↦ contains-tail c s secret (contains-replace_from old 0 s q)
        ]
      ]

  -- The replaced text does not occur in the result.
  replaced_gone :
      (skipped : ℕ) (s : String) → ¬ (contains (replace_from secret marker skipped s) secret ≡ true)
  replaced_gone skipped String.[] h = empty (unfold replace_from in h)
    where
      empty : contains String.[] secret ≡ true → ⊥
      empty h = unfold contains has_prefix in cc
  replaced_gone (suc skipped) (String.◌∷◌ c s) h =
      replaced_gone skipped s (unfold replace_from in h)
  replaced_gone zero (String.◌∷◌ c s) h = elim (Bool-cases (has_prefix (String.◌∷◌ c s) secret)) [
    | inl m ↦
        replaced_gone (size secret - 1) s
          (contains-append marker _ u e foreign (rw (replace_from-match secret marker c s m) at h))
    | inr m ↦ elim (contains-cons c _ secret (rw (replace_from-keep secret marker c s m) at h)) [
      | inl p ↦ clash m (
          has_prefix-replace_from secret secret new (String.◌∷◌ c s) d unmarked
            (rw (replace_from-keep secret marker c s m) p))
      | inr q ↦ replaced_gone 0 s q
    ]
  ]
    where
      clash : {b : Bool} → b ≡ false → b ≡ true → ⊥
      clash p q = cc

  pub contains-replace_all_self :
      (s : String) → contains (replace_all s secret marker) secret ≡ false
  unfolding replace_all
  contains-replace_all_self s = elim (Bool-cases (contains (replace_all s secret marker) secret)) [
    | inl h ↦ absurd (replaced_gone 0 s h)
    | inr h ↦ h
  ]

  pub contains-replace_all :
      (s old : String)
      → contains s secret ≡ false
      → contains (replace_all s old marker) secret ≡ false
  unfolding replace_all
  contains-replace_all s old h = elim (Bool-cases (contains (replace_all s old marker) secret)) [
    | inl p ↦ cc (contains-replace_from old 0 s p)
    | inr p ↦ p
  ]

-- A text that has a prefix is the prefix with a rest behind it.
pub has_prefix-append : (s u : String) → has_prefix s u ≡ true → (t : String) × (s ≡ u +++ t)
has_prefix-append s String.[] h = (s, sym (nil-append s))
has_prefix-append String.[] (String.◌∷◌ e u) h = absurd (unfold has_prefix in cc)
has_prefix-append (String.◌∷◌ c s) (String.◌∷◌ e u) h =
    let (same, rest) = has_prefix-cons c e s u h in
    let (t, p) = has_prefix-append s u rest in
    (
      t,
      ap₂ String.◌∷◌ (Char-path c e ((eqb_iff (code c) (code e)).0 same)) p
          ∙ sym (cons-append e u t),
    )
