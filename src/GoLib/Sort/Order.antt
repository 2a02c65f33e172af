-- ===== src/GoLib/Sort/Order.antt =====
-- The order of texts, and what sort.Strings makes of a list.
use mathlib.Core.Path.{ap₂, subst}
use text.Mathlib.TextEquality.{Char-path}
use red_lab.Prelude.{
  ℕ, ◌+◌, code, String, Bool, true, false, ◌≡◌, refl, List, [], ◌∷◌, ◌==◌, All, if◌then◌else◌,
  arith, Bool-cases, ◌⊎◌, inl, inr, eq_iff, eq_refl, ◌≢◌, ◌↔◌, sym, ap, ◌∙◌,
}
use red_lab.GoLib.Sort.{text_before, insert, sort}

pub before_asym : (v w : String) → text_before v w ≡ true → text_before w v ≡ false
unfolding text_before
before_asym v String.[] h = absurd (clash h)
  where
    clash : false ≡ true → ⊥
    clash h = cc
before_asym String.[] (String.◌∷◌ d w) h = refl
before_asym (String.◌∷◌ c v) (String.◌∷◌ d w) h = ground (arith, before_asym v w)

pub not_before_trans :
    (x v w : String) → text_before x v ≡ false → text_before v w ≡ false → text_before x w ≡ false
unfolding text_before
not_before_trans x v String.[] h k = refl
not_before_trans x String.[] (String.◌∷◌ d w) h k = ground arith
not_before_trans String.[] (String.◌∷◌ e v) (String.◌∷◌ d w) h k = ground arith
not_before_trans (String.◌∷◌ c x) (String.◌∷◌ e v) (String.◌∷◌ d w) h k =
    ground (arith, not_before_trans x v w)

pub not_before_antisym : (v w : String) → text_before v w ≡ false → text_before w v ≡ false → v ≡ w
unfolding text_before
not_before_antisym String.[] String.[] h k = refl
not_before_antisym String.[] (String.◌∷◌ d w) h k = ground arith
not_before_antisym (String.◌∷◌ c v) String.[] h k = ground arith
not_before_antisym (String.◌∷◌ c v) (String.◌∷◌ d w) h k =
    let same : code c ≡ code d = ground arith in
    let first : text_before v w ≡ false = ground arith in
    let second : text_before w v ≡ false = ground arith in
    ap₂ String.◌∷◌ (Char-path c d same) (not_before_antisym v w first second)

-- No text stands before one that is smaller.
abbrev pub IsOrdered : List String → Type 0
IsOrdered [] = Unit
IsOrdered (w ∷ ws) = All (λ v. text_before v w ≡ false) ws × IsOrdered ws

abbrev pub count : String → List String → ℕ
count x [] = 0
count x (w ∷ ws) = (if w == x then 1 else 0) + count x ws

All-insert :
    (P : String → Type 0) (w : String) (ws : List String) → P w → All P ws → All P (insert w ws)
All-insert P w [] h all = (h, tt)
All-insert P w (v ∷ ws) h all = pick (text_before v w) (All-insert P w ws h all.1)
  where
    pick : (b : Bool) → All P (insert w ws) → All P (if b then v ∷ insert w ws else w ∷ v ∷ ws)
    pick true ih = (all.0, ih)
    pick false ih = (h, all)

-- What is behind a text is behind all that stands before that.
All-behind :
    (v w : String) (ws : List String)
    → text_before v w ≡ false
    → All (λ x. text_before x v ≡ false) ws
    → All (λ x. text_before x w ≡ false) ws
All-behind v w [] h all = tt
All-behind v w (x ∷ ws) h all = (not_before_trans x v w all.0 h, All-behind v w ws h all.1)

insert-IsOrdered : (w : String) (ws : List String) → IsOrdered ws → IsOrdered (insert w ws)
insert-IsOrdered w [] h = (tt, tt)
insert-IsOrdered w (v ∷ ws) h = elim (Bool-cases (text_before v w)) [
  | inl e ↦ rw e (
    All-insert (λ x. text_before x v ≡ false) w ws (before_asym v w e) h.0,
    insert-IsOrdered w ws h.1,
  )
  | inr e ↦ rw e ((e, All-behind v w ws e h.0), h)
]

pub sort-IsOrdered : (ws : List String) → IsOrdered (sort ws)
unfolding sort
sort-IsOrdered [] = tt
sort-IsOrdered (w ∷ ws) = insert-IsOrdered w (sort ws) (sort-IsOrdered ws)

count-insert : (x w : String) (ws : List String) → count x (insert w ws) ≡ count x (w ∷ ws)
count-insert x w [] = refl
count-insert x w (v ∷ ws) = pick (text_before v w) (count-insert x w ws)
  where
    pick :
        (b : Bool)
        → count x (insert w ws) ≡ count x (w ∷ ws)
        → count x (if b then v ∷ insert w ws else w ∷ v ∷ ws) ≡ count x (w ∷ v ∷ ws)
    pick true ih = omega (arith, ih)
    pick false ih = refl

pub count-sort : (x : String) (ws : List String) → count x (sort ws) ≡ count x ws
unfolding sort
count-sort x [] = refl
count-sort x (w ∷ ws) = omega (arith, count-insert x w (sort ws), count-sort x ws)

-- A text that occurs has what all have.
pub All-count :
    (P : String → Type 0) (x : String) (ws : List String) → All P ws → (count x ws ≡ 0) ⊎ P x
All-count P x [] all = inl refl
All-count P x (w ∷ ws) all = elim (Bool-cases (w == x)) [
  | inl e ↦ inr (subst P ((eq_iff w x).0 e) all.0)
  | inr e ↦ rw e (elim (All-count P x ws all.1) [ inl k ↦ inl (omega (arith, k)) | inr q ↦ inr q ])
]

pub All-sort : (P : String → Type 0) (ws : List String) → All P ws → All P (sort ws)
unfolding sort
All-sort P [] all = tt
All-sort P (w ∷ ws) all = All-insert P w (sort ws) all.0 (All-sort P ws all.1)

pub insert-cons :
    (w : String) (ws : List String) → (v : String) × (vs : List String) × (insert w ws ≡ v ∷ vs)
insert-cons w [] = (w, [], refl)
insert-cons w (v ∷ ws) = elim (Bool-cases (text_before v w)) [
  | inl e ↦ (v, insert w ws, rw e refl)
  | inr e ↦ (w, v ∷ ws, rw e refl)
]

not_before_self : (w : String) → text_before w w ≡ false
not_before_self w = elim (Bool-cases (text_before w w)) [ inl e ↦ before_asym w w e | inr e ↦ e ]

-- The first of an ordered list is behind nothing that occurs in the list.
not_before_first :
    (x w : String) (ws : List String)
    → IsOrdered (w ∷ ws)
    → count x (w ∷ ws) ≢ 0
    → text_before x w ≡ false
not_before_first x w ws h n =
    elim (All-count (λ v. text_before v w ≡ false) x (w ∷ ws) (not_before_self w, h.0)) [
      | inl k ↦ absurd (n k)
      | inr k ↦ k
    ]

counted : (w : String) (ws : List String) → count w (w ∷ ws) ≢ 0
counted w ws h = omega (arith, (rw eq_refl at h))

-- Two ordered lists in which every text occurs as often are the same.
ordered_unique :
    (l r : List String) → IsOrdered l → IsOrdered r → ((x : String) → count x l ≡ count x r) → l ≡ r
ordered_unique [] [] h k same = refl
ordered_unique [] (w ∷ ws) h k same = absurd (counted w ws (sym (same w)))
ordered_unique (v ∷ vs) [] h k same = absurd (counted v vs (same v))
ordered_unique (v ∷ vs) (w ∷ ws) h k same =
    let first : v ≡ w =
      not_before_antisym v w (not_before_first v w ws k (λ e. counted v vs (same v ∙ e)))
        (not_before_first w v vs h (λ e. counted w ws (sym (same w) ∙ e))) in
    ap₂ {A = String} (λ x xs. x ∷ xs) first
      (ordered_unique vs ws h.1 k.1 (λ x. omega (arith, (rw first at (same x)))))

-- Sorted, two lists are the same just when every text occurs in both as often.
pub sort-sort_iff : (l r : List String) → sort l ≡ sort r ↔ ((x : String) → count x l ≡ count x r)
sort-sort_iff l r = (
  λ e x. sym (count-sort x l) ∙ ap (count x) e ∙ count-sort x r,
  λ same.
      ordered_unique (sort l) (sort r) (sort-IsOrdered l) (sort-IsOrdered r)
        (λ x. count-sort x l ∙ same x ∙ sym (count-sort x r)),
)
