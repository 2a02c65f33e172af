-- ===== src/GoLib/Path/Canonical.antt =====
-- Cleaned absolute paths: no empty component, no `.` and no `..`.
use mathlib.Core.List.{
  reverse, reverse-append, reverse-cons, reverse-reverse, append_assoc, append-nil,
}
use red_lab.Prelude.{
  String, Bool, true, false, ◌≡◌, refl, sym, ap, ◌∙◌, ◌||◌, List, [], ◌∷◌, ◌++◌, ◌==◌, All,
  All-concat, Bool-cases, inl, inr, arith,
}
use red_lab.GoLib.Strings.{join}
use red_lab.GoLib.Path.{split, pop, push, clean_stack, is_rooted, absolute, render, clean}
use red_lab.GoLib.Path.Split.{IsName, split-IsName, split-join}

abbrev pub is_special : String → Bool
is_special w = w == "" || w == "." || w == ".."

-- A component that names a directory entry.
abbrev pub IsEntry : String → Type 0
IsEntry w = IsName w × (is_special w ≡ false)

-- The absolute paths with such components only.
pub record IsCanonical (p : String) : Type 0 where
  pub parts : List String
  pub entries : All IsEntry parts
  pub text : p ≡ absolute parts

pop-entries : (stack : List String) → All IsEntry stack → All IsEntry (pop true stack)
pop-entries [] h = tt
pop-entries (w ∷ stack) h = rw not_up h.1
  where
    not_up : (w == "..") ≡ false
    not_up = ground (arith, h.0.1)

push-entries :
    (stack : List String) (w : String)
    → IsName w
    → All IsEntry stack
    → All IsEntry (push true stack w)
unfolding push
push-entries stack w n h = elim (Bool-cases (w == "" || w == ".")) [
  | inl e ↦ rw e h
  | inr e ↦ elim (Bool-cases (w == "..")) [
    | inl f ↦ rw (e, f) (pop-entries stack h)
    | inr f ↦ rw (e, f) ((n, (ground (arith, e, f))), h)
  ]
]

clean_stack-entries :
    (ws stack : List String)
    → All IsName ws
    → All IsEntry stack
    → All IsEntry (clean_stack true stack ws)
unfolding clean_stack
clean_stack-entries [] stack n h = h
clean_stack-entries (w ∷ ws) stack n h =
    clean_stack-entries ws (push true stack w) n.1 (push-entries stack w n.0 h)

All-reverse : (ws : List String) → All IsEntry ws → All IsEntry (reverse ws)
All-reverse [] h = tt
All-reverse (w ∷ ws) h =
    rw (reverse-append (w ∷ []) ws) (All-concat IsEntry (reverse ws) w (All-reverse ws h.1) h.0)

-- Cleaning an absolute path gives a canonical one: no `..` is left that could leave the root.
pub clean-IsCanonical : (s : String) → is_rooted s ≡ true → IsCanonical (clean s)
unfolding clean
clean-IsCanonical s r = rw r (record {
  parts = reverse (clean_stack true [] (split s));
  entries = All-reverse _ (clean_stack-entries (split s) [] (split-IsName s) tt);
  text = unfold render in refl;
})

push-entry : (stack : List String) (w : String) → IsEntry w → push true stack w ≡ w ∷ stack
unfolding push
push-entry stack w h = ground (arith, h.1)

-- Entries are stacked as they come.
clean_stack-entry :
    (ws stack : List String) → All IsEntry ws → clean_stack true stack ws ≡ reverse ws ++ stack
unfolding clean_stack
clean_stack-entry [] stack h = refl
clean_stack-entry (w ∷ ws) stack h = rw (push-entry stack w h.0) (
    clean_stack-entry ws (w ∷ stack) h.1
    ∙ (sym (append_assoc (reverse ws) (w ∷ []) stack)
        ∙ ap (λ l. l ++ stack) (sym (reverse-cons w ws))))

pub names_of_entries : (ws : List String) → All IsEntry ws → All IsName ws
names_of_entries [] h = tt
names_of_entries (w ∷ ws) h = (h.0.0, names_of_entries ws h.1)

clean-absolute : (ws : List String) → All IsEntry ws → clean (absolute ws) ≡ absolute ws
unfolding clean
clean-absolute [] h = unfold absolute is_rooted split clean_stack push render join in refl
clean-absolute (w ∷ ws) h =
    unfold absolute is_rooted split render in
    rw (split-join w ws (names_of_entries (w ∷ ws) h)) (
      unfold clean_stack push in
      rw (clean_stack-entry (w ∷ ws) [] h) (
        ap (λ l. absolute l)
          (ap reverse (append-nil (reverse (w ∷ ws))) ∙ reverse-reverse (w ∷ ws))))

-- Cleaning a canonical path changes nothing.
pub clean-canonical : (p : String) → IsCanonical p → clean p ≡ p
clean-canonical p c = rw c.text (clean-absolute c.parts c.entries)
