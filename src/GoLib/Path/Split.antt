-- ===== src/GoLib/Path/Split.antt =====
-- `split` takes apart what `join` puts together.
use Prim.Native.String.{◌++◌ as ◌+++◌}
use text.Mathlib.TextLemmas.{cons-append, nil-append}
use red_lab.Prelude.{
  Char, String, Bool, true, false, ◌≡◌, refl, ap, ◌∙◌, List, [], ◌∷◌, All, if◌then◌else◌,
}
use red_lab.GoLib.Strings.{join}
use red_lab.GoLib.Strings.Laws.{Lacks}
use red_lab.GoLib.Path.{is_slash, cons_head, split}

-- A component: no slash in it.
abbrev pub IsName : String → Type 0
IsName w = Lacks b'/' w

split-name : (w : String) → IsName w → split w ≡ w ∷ []
unfolding split
split-name String.[] h = refl
split-name (String.◌∷◌ c w) h = rw h.0 (ap (cons_head c) (split-name w h.1))

split-name_slash : (w t : String) → IsName w → split (w +++ (String.◌∷◌ "/" t)) ≡ w ∷ split t
unfolding split
split-name_slash String.[] t h = rw nil-append
split-name_slash (String.◌∷◌ c w) t h =
    rw cons-append (rw h.0 (ap (cons_head c) (split-name_slash w t h.1)))

cons_head-IsName :
    (c : Char) (ws : List String) → is_slash c ≡ false → All IsName ws → All IsName (cons_head c ws)
cons_head-IsName c [] e h = ((e, tt), tt)
cons_head-IsName c (w ∷ ws) e h = ((e, h.0), h.1)

-- The components of a text hold no slash.
pub split-IsName : (s : String) → All IsName (split s)
unfolding split
split-IsName String.[] = (tt, tt)
split-IsName (String.◌∷◌ c s) = pick (is_slash c) refl (split-IsName s)
  where
    pick :
        (b : Bool)
        → is_slash c ≡ b
        → All IsName (split s)
        → All IsName (if b then "" ∷ split s else cons_head c (split s))
    pick true e h = (tt, h)
    pick false e h = cons_head-IsName c (split s) e h

pub join-cons :
    (w v : String) (ws : List String)
    → join "/" (w ∷ v ∷ ws) ≡ w +++ (String.◌∷◌ "/" (join "/" (v ∷ ws)))
unfolding join
join-cons w v ws =
    ap (λ t. w +++ t)
      (cons-append "/" "" (join "/" (v ∷ ws))
        ∙ ap (λ t. String.◌∷◌ "/" t) (nil-append (join "/" (v ∷ ws))))

-- The components of a joined text are the parts, if there is one and they hold no slash.
pub split-join :
    (w : String) (ws : List String) → All IsName (w ∷ ws) → split (join "/" (w ∷ ws)) ≡ w ∷ ws
split-join w [] h = unfold join in split-name w h.0
split-join w (v ∷ ws) h =
    rw (join-cons w v ws)
      (split-name_slash w (join "/" (v ∷ ws)) h.0 ∙ ap (λ l. w ∷ l) (split-join v ws h.1))
