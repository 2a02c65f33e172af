-- ===== src/System/Paths/Safe.antt =====
-- The paths that `NormalizePath` returns stay below the virtual root.
use Prim.Native.String.{◌++◌ as ◌+++◌}
use text.Mathlib.TextLemmas.{cons-append, nil-append}
use red_lab.Prelude.{
  String, Bool, true, false, ◌≡◌, ◌≢◌, refl, ap, ◌∙◌, sym, List, [], ◌∷◌, ◌==◌, eq_iff, Bool-cases,
  inl, inr, arith, All, if◌then◌else◌,
}
use red_lab.GoLib.Strings.{has_prefix, join}
use red_lab.GoLib.Strings.Laws.{has_prefix-append}
use red_lab.GoLib.Path.{split, is_rooted, absolute, clean, join_path}
use red_lab.GoLib.Path.Split.{split-join}
use red_lab.GoLib.Path.Canonical.{
  IsCanonical, IsEntry, names_of_entries, clean-IsCanonical, clean-canonical,
}
use red_lab.System.{ok}
use red_lab.System.Paths.{check_root, normalize_path}

has_prefix-is_rooted : (s : String) → has_prefix s "/" ≡ is_rooted s
unfolding has_prefix is_rooted
has_prefix-is_rooted String.[] = refl
has_prefix-is_rooted (String.◌∷◌ c s) = ground arith

canonical_rooted : (p : String) → IsCanonical p → is_rooted p ≡ true
canonical_rooted p c = rw c.text (unfold is_rooted absolute in refl)

split-absolute :
    (w : String) (ws : List String) → All IsEntry (w ∷ ws) → split (absolute (w ∷ ws)) ≡ "" ∷ w ∷ ws
unfolding split absolute
split-absolute w ws h = ap (λ l. "" ∷ l) (split-join w ws (names_of_entries (w ∷ ws) h))

not_up : (w : String) → IsEntry w → w ≢ ".."
not_up w h e = ground (arith, h.1, (eq_iff w "..").1 e)

up_first :
    (w : String) (ws : List String) (t : String) (rest : List String)
    → All IsEntry (w ∷ ws)
    → absolute (w ∷ ws) ≡ t
    → split t ≡ "" ∷ ".." ∷ rest
    → ⊥
up_first w ws t rest h e s = not_up w h.0 (second (sym (split-absolute w ws h) ∙ (ap split e ∙ s)))
  where
    second : "" ∷ w ∷ ws ≡ "" ∷ ".." ∷ rest → w ≡ ".."
    second p = cc

split-up : (t : String) → split ("/../" +++ t) ≡ "" ∷ ".." ∷ split t
split-up t =
    rw
      (
        cons-append "/" "../" t,
        cons-append "." "./" t,
        cons-append "." "/" t,
        cons-append "/" "" t,
        nil-append t,
      )
      (unfold split in refl)

contradictory : ◌≡◌ {A = Bool} true false → ⊥
contradictory h = cc

check_root-absolute :
    (ws : List String) → All IsEntry ws → check_root (absolute ws) ≡ ok (absolute ws)
unfolding check_root
check_root-absolute [] h = unfold absolute join has_prefix in refl
check_root-absolute (w ∷ ws) h = ground (arith, dot, slash, up, below)
  where
    p : String
    p = absolute (w ∷ ws)

    dot : (p == ".") ≡ false
    dot = elim (Bool-cases (p == ".")) [
      | inl e ↦
          absurd (unfold is_rooted absolute in contradictory (ap is_rooted ((eq_iff p ".").0 e)))
      | inr e ↦ e
    ]

    slash : has_prefix p "/" ≡ true
    slash = unfold has_prefix absolute in refl

    up : (p == "/..") ≡ false
    up = elim (Bool-cases (p == "/..")) [
      | inl e ↦ absurd (up_first w ws "/.." [] h ((eq_iff _ _).0 e) (unfold split in refl))
      | inr e ↦ e
    ]

    below : has_prefix p "/../" ≡ false
    below = elim (Bool-cases (has_prefix p "/../")) [
      | inl e ↦
          let (t, q) = has_prefix-append p "/../" e in
          absurd (up_first w ws ("/../" +++ t) (split t) h q (split-up t))
      | inr e ↦ e
    ]

check_root-canonical : (p : String) → IsCanonical p → check_root p ≡ ok p
check_root-canonical p c = rw c.text (check_root-absolute c.parts c.entries)

rooted-append : (s t : String) → is_rooted s ≡ true → is_rooted (s +++ t) ≡ true
unfolding is_rooted
rooted-append String.[] t r = absurd (contradictory (sym r))
rooted-append (String.◌∷◌ c s) t r = rw (cons-append c s t) r

join_path-IsCanonical :
    (cwd input : String) → is_rooted cwd ≡ true → input ≢ "" → IsCanonical (join_path cwd input)
unfolding join_path
join_path-IsCanonical cwd input c n = rw (cwd_given, input_given) (clean-IsCanonical _ rooted)
  where
    cwd_given : (cwd == "") ≡ false
    cwd_given = elim (Bool-cases (cwd == "")) [
      | inl e ↦
          absurd (
            contradictory (sym c ∙ (ap is_rooted ((eq_iff cwd "").0 e) ∙ unfold is_rooted in refl)))
      | inr e ↦ e
    ]

    input_given : (input == "") ≡ false
    input_given = elim (Bool-cases (input == "")) [
      | inl e ↦ absurd (n ((eq_iff input "").0 e))
      | inr e ↦ e
    ]

    rooted : is_rooted (cwd +++ (String.◌∷◌ "/" input)) ≡ true
    rooted = rooted-append cwd _ c

-- From an absolute working directory, one that begins with `/`, `NormalizePath` gives every input
-- but the empty one a path below the virtual root: absolute, with no `.`, `..` or empty component.
-- It refuses none of them.
pub normalize_path-IsCanonical :
    (input cwd : String)
    → is_rooted cwd ≡ true
    → input ≢ ""
    → (p : String) × (normalize_path input cwd ≡ ok p) × IsCanonical p
unfolding normalize_path
normalize_path-IsCanonical input cwd c n =
    (clean target, rw given (check_root-canonical (clean target) canonical), canonical)
  where
    target : String
    target = if has_prefix input "/" then input else join_path cwd input

    given : (input == "") ≡ false
    given = elim (Bool-cases (input == "")) [
      | inl e ↦ absurd (n ((eq_iff input "").0 e))
      | inr e ↦ e
    ]

    rooted :
        (b : Bool)
        → has_prefix input "/" ≡ b
        → is_rooted (if b then input else join_path cwd input) ≡ true
    rooted true e = sym (has_prefix-is_rooted input) ∙ e
    rooted false e = canonical_rooted _ (join_path-IsCanonical cwd input c n)

    canonical : IsCanonical (clean target)
    canonical = clean-IsCanonical target (rooted (has_prefix input "/") refl)

-- A path that `NormalizePath` can return is returned as it is, in whatever directory.
normalize_path-canonical : (p cwd : String) → IsCanonical p → normalize_path p cwd ≡ ok p
unfolding normalize_path
normalize_path-canonical p cwd c =
    rw (given, has_prefix-is_rooted p, canonical_rooted p c, clean-canonical p c)
      (check_root-canonical p c)
  where
    given : (p == "") ≡ false
    given = elim (Bool-cases (p == "")) [
      | inl e ↦ absurd (
          contradictory (
            sym (canonical_rooted p c)
            ∙ (ap is_rooted ((eq_iff p "").0 e) ∙ unfold is_rooted in refl)))
      | inr e ↦ e
    ]
