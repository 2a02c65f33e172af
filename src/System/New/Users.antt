-- ===== src/System/New/Users.antt =====
-- The accounts in the machine that NewState makes.
use mathlib.Core.Path.{subst}
use red_lab.Prelude.{
  String, true, false, ◌≡◌, refl, sym, ◌⊎◌, inl, inr, some, List, [], ◌∷◌, map, ◌==◌, eq_iff,
  Bool-cases, Option-cases, arith, holds-if,
}
use red_lab.Prelude.GoMap.{GoMap, get, put, get-put, get-put_self}
use red_lab.Scenario.{ScenarioSpec, UserSpec}
use red_lab.System.{User}
use red_lab.System.Permissions.{member}
use red_lab.System.Identity.{default_string}
use red_lab.System.New.{accounts, account, with_root, root_account, is_missing}

abbrev pub IsThere : GoMap User → String → Type 0
IsThere users name = (u : User) × (get users name ≡ some u)

put-IsThere :
    (users : GoMap User) (k name : String) (u : User)
    → IsThere users name
    → IsThere (put users k u) name
put-IsThere users k name u (old, h) = elim (Bool-cases (k == name)) [
  | inl e ↦ (u, rw get-put rw e refl)
  | inr e ↦ (old, rw get-put rw e h)
]

accounts-IsThere :
    (specs : List UserSpec) (users : GoMap User) (name : String)
    → IsThere users name
    → IsThere (accounts specs users) name
unfolding accounts
accounts-IsThere [] users name h = h
accounts-IsThere (s ∷ specs) users name h =
    accounts-IsThere specs _ name (put-IsThere users s.name name (account s) h)

-- Every user that the scenario names gets an account.
accounts-member :
    (specs : List UserSpec) (users : GoMap User) (name : String)
    → member name (map (λ u. u.name) specs) ≡ true
    → IsThere (accounts specs users) name
unfolding accounts member
accounts-member [] users name h = absurd (true_not_false (sym h))
  where
    true_not_false : true ≡ false → ⊥
    true_not_false e = cc
accounts-member (s ∷ specs) users name h = elim (Bool-cases (s.name == name)) [
  | inl e ↦ accounts-IsThere specs _ name (
    account s,
    subst (λ n. get (put users s.name (account s)) n ≡ some (account s)) ((eq_iff s.name name).0 e)
        (get-put_self users s.name (account s)),
  )
  | inr e ↦ accounts-member specs _ name (rw e at h)
]

with_root-IsThere :
    (users : GoMap User) (name : String) → IsThere users name → IsThere (with_root users) name
with_root-IsThere users name h = elim (Option-cases (get users "root")) [
  | inl e ↦ rw (e, with_root) (put-IsThere users "root" name root_account h)
  | inr (u, e) ↦ rw (e, with_root) h
]

root-IsThere : (users : GoMap User) → IsThere (with_root users) "root"
root-IsThere users = elim (Option-cases (get users "root")) [
  | inl e ↦ rw (e, with_root) (root_account, get-put_self users "root" root_account)
  | inr (u, e) ↦ rw (e, with_root) (u, e)
]

-- The initial user of a scenario is one of its users, or there is none.
abbrev pub IsKnown : ScenarioSpec → Type 0
IsKnown spec =
    (spec.actors.initial_user ≡ "")
    ⊎ (member spec.actors.initial_user (map (λ u. u.name) spec.actors.users) ≡ true)

default-IsThere :
    (users : GoMap User) (initial : String)
    → IsThere users "root"
    → (initial ≡ "") ⊎ IsThere users initial
    → (is_missing users initial ≡ false) × IsThere users (default_string initial "root")
default-IsThere users initial root (inl e) =
    subst (λ x. (is_missing users x ≡ false) × IsThere users (default_string x "root")) (sym e)
      (ground arith, root)
default-IsThere users initial root (inr (u, h)) = (
  rw (h, is_missing) refl,
  holds-if (IsThere users) (initial == "") "root" initial (λ _. root) (λ _. (u, h)),
)

pub current_user-IsThere :
    (spec : ScenarioSpec)
    → IsKnown spec
    → let users = with_root (accounts spec.actors.users []) in
      let initial = spec.actors.initial_user in
      (is_missing users initial ≡ false) × IsThere users (default_string initial "root")
current_user-IsThere spec known =
    let users = accounts spec.actors.users [] in
    let initial = spec.actors.initial_user in
    default-IsThere (with_root users) initial (root-IsThere users) (elim known [
      | inl e ↦ inl e
      | inr e ↦
          inr (with_root-IsThere users initial (accounts-member spec.actors.users [] initial e))
    ])
