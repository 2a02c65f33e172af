-- ===== src/Prelude/GoMap.antt =====
-- Go's `map[string]V` as an association list. A read of a key that is not there gives `none`; the
-- order in which Go walks over a map is left open by Go, and here it is the list's.
use mathlib.Core.Path.{◌≡◌, refl, ap, ◌∙◌}
use mathlib.Core.Bool.{Bool, true, false}
use mathlib.Core.Option.{Option, none, some}
use mathlib.Core.List.{List, [], ◌∷◌}
use Prim.Native.String.{String}
use native.Mathlib.Omega.{arith}
use text.Mathlib.Text.{◌==◌}
use text.Mathlib.TextEquality.{eq_iff}
use text.Mathlib.TextPositions.{eq_refl}
use red_lab.Prelude.Tests.{if◌then◌else◌}
use red_lab.Prelude.Lists.{length}
use Prim.Native.Nat.{◌+◌, ◌≤◌}

abbrev pub GoMap {ℓ} : Type ℓ → Type ℓ
GoMap V = List (String × V)

module _ {ℓ} {V : Type ℓ} where
  -- `v, ok := m[k]`
  unfoldable pub get : GoMap V → String → Option V
  get [] k = none
  get ((j, v) ∷ m) k = if j == k then some v else get m k

  -- `m[k] = v`
  unfoldable pub put : GoMap V → String → V → GoMap V
  put [] k v = (k, v) ∷ []
  put ((j, w) ∷ m) k v = if j == k then (k, v) ∷ m else (j, w) ∷ put m k v

  -- `delete(m, k)`
  unfoldable pub remove : GoMap V → String → GoMap V
  remove [] k = []
  remove ((j, v) ∷ m) k = let rest = remove m k in if j == k then rest else (j, v) ∷ rest

  pub get-put :
      (m : GoMap V) (k j : String) (v : V)
      → get (put m k v) j ≡ (if k == j then some v else get m j)
  unfolding get put
  get-put [] k j v = refl
  get-put ((i, w) ∷ m) k j v = ground (arith, eq_iff k j, eq_iff i k, eq_iff i j, get-put m k j v)

  pub get-put_self : (m : GoMap V) (k : String) (v : V) → get (put m k v) k ≡ some v
  get-put_self m k v = simp (get-put, eq_refl)

  pub get-remove :
      (m : GoMap V) (k j : String) → get (remove m k) j ≡ (if k == j then none else get m j)
  unfolding get remove
  get-remove [] k j = ground arith
  get-remove ((i, v) ∷ m) k j = ground (arith, get-remove m k j, eq_iff i k, eq_iff i j, eq_iff k j)

module _ {ℓ} {V : Type ℓ} where
  -- `m[k]`, with the zero value where the key is missing.
  abbrev pub get_or : GoMap V → String → V → V
  get_or m k zero_value = elim (get m k) [ none ↦ zero_value | some v ↦ v ]

  -- `for k := range m { if test(k) { delete(m, k) } }`
  unfoldable pub remove_where : (String → Bool) → GoMap V → GoMap V
  remove_where test [] = []
  remove_where test ((j, v) ∷ m) =
      let rest = remove_where test m in if test j then rest else (j, v) ∷ rest

  -- The keys, in the order in which the map is walked.
  unfoldable pub keys : GoMap V → List String
  keys [] = []
  keys ((j, v) ∷ m) = j ∷ keys m

  pub get-remove_where :
      (test : String → Bool) (m : GoMap V) (k : String)
      → get (remove_where test m) k ≡ (if test k then none else get m k)
  unfolding get remove_where
  get-remove_where test [] k = ground arith
  get-remove_where test ((j, v) ∷ m) k = ground (arith, eq_iff j k, get-remove_where test m k)

  pub length-put_present :
      (m : GoMap V) (k : String) (v w : V) → get m k ≡ some w → length (put m k v) ≡ length m
  unfolding get put
  length-put_present [] k v w h = ground arith
  length-put_present ((j, u) ∷ m) k v w h = ground (arith, length-put_present m k v w)

  pub length-put : (m : GoMap V) (k : String) (v : V) → length (put m k v) ≤ length m + 1
  unfolding put
  length-put [] k v = omega arith
  length-put ((j, u) ∷ m) k v = ground (arith, length-put m k v)

  pub get_or-put :
      (m : GoMap V) (k j : String) (v zero_value : V)
      → get_or (put m k v) j zero_value ≡ (if k == j then v else get_or m j zero_value)
  get_or-put m k j v zero_value =
      ap (λ o. elim o [ none ↦ zero_value | some w ↦ w ]) (get-put m k j v) ∙ pick (k == j)
    where
      pick :
          (b : Bool)
          → (elim (if b then some v else get m j) [ none ↦ zero_value | some w ↦ w ])
            ≡ (if b then v else get_or m j zero_value)
      pick true = refl
      pick false = refl
