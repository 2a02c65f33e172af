-- ===== src/Server/Limits/Keys.antt =====
-- The keys under which `allowRequest` counts, and the limits that go with them.
use Prim.Native.String.{◌++◌ as ◌+++◌}
use text.Mathlib.TextLemmas.{cons-append, nil-append}
use red_lab.Prelude.{ℕ, ◌≤◌, code, String, arith, ◌≡◌, ◌⊎◌, refl, ap, Bool-cases, inl, inr}
use red_lab.GoLib.Strings.{has_prefix}
use red_lab.GoLib.Time.{Time}
use red_lab.Server.Limits.{key_and_limit}

-- A request, as the limiter sees it.
pub record Request : Type 0 where
  pub address : String
  pub path : String
  pub now : Time

abbrev pub key_of : Request → String
key_of r = (key_and_limit r.address r.path).0

abbrev pub limit_of : Request → ℕ
limit_of r = (key_and_limit r.address r.path).1

-- The code of a text's last character.
last_code : ℕ → String → ℕ
last_code d String.[] = d
last_code d (String.◌∷◌ c s) = last_code (code c) s

last_code-append : (d : ℕ) (s t : String) → last_code d (s +++ t) ≡ last_code (last_code d s) t
unfolding last_code
last_code-append d String.[] t = rw nil-append refl
last_code-append d (String.◌∷◌ c s) t = rw cons-append (last_code-append (code c) s t)

-- The last character of a key and the limit of its requests.
key_end :
    (address path : String)
    → ((last_code 0 (key_and_limit address path).0 ≡ 104) × ((key_and_limit address path).1 ≡ 20))
      ⊎ ((last_code 0 (key_and_limit address path).0 ≡ 108)
          × ((key_and_limit address path).1 ≡ 120))
unfolding key_and_limit
key_end address path = elim (Bool-cases (has_prefix path "/api/v1/auth/")) [
  | inl e ↦ inl (rw e (rw last_code-append (unfold last_code in refl)), rw e refl)
  | inr e ↦ inr (rw e (rw last_code-append (unfold last_code in refl)), rw e refl)
]

-- Requests with one key have one limit.
pub key_limit : (q r : Request) → key_of q ≡ key_of r → limit_of q ≡ limit_of r
key_limit q r e =
    ground (arith, key_end q.address q.path, key_end r.address r.path, ap (last_code 0) e)

pub limit_positive : (q : Request) → 1 ≤ limit_of q
limit_positive q = ground (arith, key_end q.address q.path)
