-- ===== src/Report/Diff/Alike.antt =====
-- What internal/report/diff.go compares of two users and of two zones.
use red_lab.Prelude.{
  ℕ, ◌+◌, String, Bool, true, false, ◌&&◌, Option, none, some, List, [], ◌∷◌, ◌==◌, eq_iff, ◌≡◌,
  ◌↔◌, refl, sym, ap, ◌∙◌, arith, some_injective, if◌then◌else◌,
}
use red_lab.Prelude.GoMap.{GoMap}
use red_lab.Prelude.Int.{eqb_ℤ, eqb_ℤ_iff}
use red_lab.GoLib.Sort.{sort}
use red_lab.GoLib.Sort.Order.{count, sort-sort_iff}
use red_lab.System.{User, FirewallZone}
use red_lab.Report.Diff.{
  Names-discrete, deep_equal, same_strings, user_equal, enabled_keys, map_keys, zone_values,
}

-- Every name stands in both lists as often, in whatever order.
abbrev pub SameNames : List String → List String → Type 0
SameNames a b = (name : String) → count name a ≡ count name b

-- How often the map has the key with the value `true`: once or never in a map of Go.
abbrev pub times_on : String → GoMap Bool → ℕ
times_on key [] = 0
times_on key ((k, on) ∷ values) = (if k == key && on then 1 else 0) + times_on key values

-- The passwords may differ.
pub record SameUser (a b : User) : Type 0 where
  pub name : a.name ≡ b.name
  pub uid : a.uid ≡ b.uid
  pub gid : a.gid ≡ b.gid
  pub shell : a.shell ≡ b.shell
  pub groups : SameNames a.groups b.groups

-- A key that is off counts as one that is missing.
pub record SameZone (a b : FirewallZone) : Type 0 where
  pub interfaces : SameNames a.interfaces b.interfaces
  pub services : (key : String) → times_on key a.services ≡ times_on key b.services
  pub ports : (key : String) → times_on key a.ports ≡ times_on key b.ports

-- Both are missing, or both are there and related.
abbrev pub Alike : {V : Type 0} → (V → V → Type 0) → Option V → Option V → Type 0
Alike R none none = Unit
Alike R none (some b) = ⊥
Alike R (some a) none = ⊥
Alike R (some a) (some b) = R a b

pub clash : {A : Type 0} → false ≡ true → A
clash h = elim (never h) [ ]
  where
    never : false ≡ true → ⊥
    never k = cc

module _ {V : Type 0} (decide : Discrete V) where
  deep_equal_sound :
      (a b : V) (d : Dec (a ≡ b)) → elim d [ yes e ↦ true | no n ↦ false ] ≡ true → a ≡ b
  deep_equal_sound a b (yes e) h = e
  deep_equal_sound a b (no n) h = clash h

  deep_equal_refl : (a : V) → deep_equal decide a a ≡ true
  deep_equal_refl a = reflexive (decide a a)
    where
      reflexive : (d : Dec (a ≡ a)) → elim d [ yes e ↦ true | no n ↦ false ] ≡ true
      reflexive (yes e) = refl
      reflexive (no n) = elim (n refl) [ ]

  -- reflect.DeepEqual decides equality.
  pub deep_equal_iff : (a b : V) → deep_equal decide a b ≡ true ↔ a ≡ b
  deep_equal_iff a b = (deep_equal_sound a b (decide a b), λ e. rw (← e) (deep_equal_refl a))

same_strings_iff : (a b : List String) → same_strings a b ≡ true ↔ SameNames a b
unfolding same_strings
same_strings_iff a b =
    let equal = deep_equal_iff Names-discrete (sort a) (sort b) in
    (λ h. (sort-sort_iff a b).0 (equal.0 h), λ h. equal.1 ((sort-sort_iff a b).1 h))

pub five_true :
    (a b c d e : Bool)
    → (a && b && c && d && e) ≡ true
    → (a ≡ true) × (b ≡ true) × (c ≡ true) × (d ≡ true) × (e ≡ true)
five_true a b c d e h = ground arith

pub user_equal_iff : (a b : User) → user_equal a b ≡ true ↔ SameUser a b
unfolding user_equal
user_equal_iff a b = (same, equal)
  where
    same :
        (a.name == b.name
            && eqb_ℤ a.uid b.uid
            && eqb_ℤ a.gid b.gid
            && a.shell == b.shell
            && same_strings a.groups b.groups)
          ≡ true
        → SameUser a b
    same h =
        let every = five_true _ _ _ _ _ h in
        record {
          name = (eq_iff _ _).0 every.0;
          uid = (eqb_ℤ_iff _ _).0 every.1;
          gid = (eqb_ℤ_iff _ _).0 every.2;
          shell = (eq_iff _ _).0 every.3;
          groups = (same_strings_iff _ _).0 every.4;
        }

    equal : SameUser a b → user_equal a b ≡ true
    equal h =
        rw
          (
            (eq_iff _ _).1 h.name,
            (eqb_ℤ_iff _ _).1 h.uid,
            (eqb_ℤ_iff _ _).1 h.gid,
            (eq_iff _ _).1 h.shell,
            (same_strings_iff _ _).1 h.groups,
          )
          refl

count-enabled_keys : (key : String) (m : GoMap Bool) → count key (enabled_keys m) ≡ times_on key m
unfolding enabled_keys
count-enabled_keys key [] = refl
count-enabled_keys key ((k, on) ∷ m) = ground (arith, count-enabled_keys key m)

map_keys_iff :
    (a b : GoMap Bool)
    → map_keys a ≡ map_keys b ↔ ((key : String) → times_on key a ≡ times_on key b)
unfolding map_keys
map_keys_iff a b = (
  λ e key. sym (count-enabled_keys key a) ∙ (sort-sort_iff _ _).0 e key ∙ count-enabled_keys key b,
  λ h.
      (sort-sort_iff _ _).1
        (λ key. count-enabled_keys key a ∙ h key ∙ sym (count-enabled_keys key b)),
)

pub zone_values_iff :
    (a b : Option FirewallZone) → zone_values a ≡ zone_values b ↔ Alike SameZone a b
unfolding zone_values
zone_values_iff none none = (λ e. tt, λ h. refl)
zone_values_iff none (some b) = (λ e. absurd (missing (ap (λ v. v.services) e)), λ h. absurd h)
  where
    missing : {l : List String} → none ≡ some l → ⊥
    missing h = cc
zone_values_iff (some a) none = (λ e. absurd (missing (ap (λ v. v.services) e)), λ h. absurd h)
  where
    missing : {l : List String} → some l ≡ none → ⊥
    missing h = cc
zone_values_iff (some a) (some b) = (
  λ e. record {
    interfaces = (sort-sort_iff _ _).0 (ap (λ v. v.interfaces) e);
    services = (map_keys_iff _ _).0 (some_injective (ap (λ v. v.services) e));
    ports = (map_keys_iff _ _).0 (some_injective (ap (λ v. v.ports) e));
  },
  λ h.
      rw
        (
          (sort-sort_iff _ _).1 h.interfaces,
          (map_keys_iff _ _).1 h.services,
          (map_keys_iff _ _).1 h.ports,
        )
        refl,
)
