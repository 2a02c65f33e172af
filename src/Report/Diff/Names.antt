-- ===== src/Report/Diff/Names.antt =====
-- The names that the loops of internal/report/diff.go visit: those of either map.
use red_lab.Prelude.{
  String, Bool, true, false, ◌||◌, some, List, [], ◌∷◌, ◌++◌, ◌==◌, ◌≡◌, refl, ap, ◌∙◌, arith,
  if◌then◌else◌,
}
use red_lab.Prelude.GoMap.{GoMap, get, put, keys, get-put}
use red_lab.GoLib.Sort.{text_before, insert, sort}
use red_lab.Report.Diff.{is_some, seen_names, sorted_union}

unfoldable pub has : String → List String → Bool
has name [] = false
has name (first ∷ rest) = first == name || has name rest

has-insert : (name w : String) (l : List String) → has name (insert w l) ≡ (w == name || has name l)
unfolding has
has-insert name w [] = refl
has-insert name w (v ∷ l) = pick (text_before v w) (has-insert name w l)
  where
    pick :
        (b : Bool)
        → has name (insert w l) ≡ (w == name || has name l)
        → has name (if b then v ∷ insert w l else w ∷ v ∷ l)
          ≡ (w == name || (v == name || has name l))
    pick true h = ground (arith, h)
    pick false h = refl

has-sort : (name : String) (l : List String) → has name (sort l) ≡ has name l
unfolding has sort
has-sort name [] = refl
has-sort name (w ∷ l) = has-insert name w (sort l) ∙ ap (λ b. w == name || b) (has-sort name l)

has-append : (name : String) (l r : List String) → has name (l ++ r) ≡ (has name l || has name r)
unfolding has
has-append name [] r = refl
has-append name (w ∷ l) r = ground (arith, has-append name l r)

pub has-keys : {V : Type 0} (name : String) (m : GoMap V) → has name (keys m) ≡ is_some (get m name)
unfolding has keys get
has-keys name [] = refl
has-keys name ((k, v) ∷ m) = pick (k == name) (has-keys name m)
  where
    pick :
        (b : Bool)
        → has name (keys m) ≡ is_some (get m name)
        → (b || has name (keys m)) ≡ is_some (if b then some v else get m name)
    pick true h = refl
    pick false h = h

has-put :
    (name value : String) (seen : GoMap Bool)
    → is_some (get (put seen value true) name) ≡ (value == name || is_some (get seen name))
has-put name value seen = ap is_some (get-put seen value name true) ∙ pick (value == name)
  where
    pick :
        (b : Bool)
        → is_some (if b then some true else get seen name) ≡ (b || is_some (get seen name))
    pick true = refl
    pick false = refl

has-seen_names :
    (name : String) (l : List String) (seen : GoMap Bool)
    → is_some (get (seen_names seen l) name) ≡ (is_some (get seen name) || has name l)
unfolding has seen_names
has-seen_names name [] seen = ground arith
has-seen_names name (w ∷ l) seen =
    ground (arith, has-seen_names name l (put seen w true), has-put name w seen)

-- The union has the names of both lists.
pub has-sorted_union :
    (name : String) (l r : List String) → has name (sorted_union l r) ≡ (has name l || has name r)
unfolding sorted_union
has-sorted_union name l r =
    has-sort name _
    ∙ has-keys name (seen_names [] (l ++ r))
    ∙ has-seen_names name (l ++ r) []
    ∙ unfold get in has-append name l r
