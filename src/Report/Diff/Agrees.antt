-- ===== src/Report/Diff/Agrees.antt =====
-- The difference of two machines is empty just when they agree.
use red_lab.Prelude.{
  String, Bool, true, ◌||◌, Option, none, some, List, [], ◌∷◌, ◌==◌, eq_iff, eq_refl, ◌≡◌, ◌⊎◌, inl,
  inr, ◌↔◌, refl, sym, ap, ◌∙◌, arith, Option-cases, Bool-cases, none_not_some,
}
use red_lab.Prelude.GoMap.{GoMap, get, keys}
use red_lab.System.{FirewallZone, Machine}
use red_lab.Report.Diff.{
  both, File-discrete, Service-discrete, ZoneValues-discrete, same_zone, zone_values, changes,
  changes_of, is_nil, is_some, sorted_union, diff_machines, is_empty,
}
use red_lab.Report.Diff.Alike.{
  Alike, SameUser, SameZone, clash, five_true, deep_equal_iff, user_equal_iff, zone_values_iff,
}
use red_lab.Report.Diff.Names.{has, has-keys, has-sorted_union}

-- The values are both missing, or the test takes them for the same.
abbrev pub IsSame : {V : Type 0} → (Option V → Option V → Bool) → Option V → Option V → Type 0
IsSame same o p = ((o ≡ none) × (p ≡ none)) ⊎ (same o p ≡ true)

module _ {V C : Type 0} (same : Option V → Option V → Bool)
    (item : String → Option V → Option V → C) (before after : GoMap V) where
  nil-visited :
      (names : List String) (name : String)
      → is_nil (changes same item before after names) ≡ true
      → has name names ≡ true
      → same (get before name) (get after name) ≡ true
  unfolding changes has
  nil-visited [] name n h = clash h
  nil-visited (first ∷ names) name n h =
      elim (Bool-cases (same (get before first) (get after first))) [
        | inr e ↦ clash (rw e at n)
        | inl e ↦ elim (Bool-cases (first == name)) [
          | inl f ↦ rw (← (eq_iff first name).0 f) e
          | inr f ↦ nil-visited names name (rw e at n) (rw f at h)
        ]
      ]

  visited-nil :
      (names : List String)
      → ((name : String) → has name names ≡ true → same (get before name) (get after name) ≡ true)
      → is_nil (changes same item before after names) ≡ true
  unfolding changes has
  visited-nil [] every = refl
  visited-nil (first ∷ names) every =
      rw (every first (rw eq_refl refl))
        (visited-nil names (λ name h. every name (later (first == name) (has name names) h)))
    where
      later : (a b : Bool) → b ≡ true → (a || b) ≡ true
      later a b h = ground arith

  has_union :
      (name : String)
      → has name (sorted_union (keys before) (keys after))
        ≡ (is_some (get before name) || is_some (get after name))
  has_union name = has-sorted_union name _ _ ∙ rw (has-keys name before, has-keys name after) refl

  changes_of-nil :
      (is_nil (changes_of same item before after) ≡ true)
      ↔ ((name : String) → IsSame same (get before name) (get after name))
  unfolding changes_of
  changes_of-nil = (listed, unlisted)
    where
      listed :
          is_nil (changes same item before after (sorted_union (keys before) (keys after))) ≡ true
          → (name : String) → IsSame same (get before name) (get after name)
      listed n name = elim (Option-cases (get before name)) [
        | inr (v, e) ↦ inr (nil-visited _ name n (has_union name ∙ rw e refl))
        | inl e ↦ elim (Option-cases (get after name)) [
          | inl f ↦ inl (e, f)
          | inr (v, f) ↦ inr (nil-visited _ name n (has_union name ∙ rw (e, f) refl))
        ]
      ]

      unlisted :
          ((name : String) → IsSame same (get before name) (get after name))
          → is_nil (changes same item before after (sorted_union (keys before) (keys after))) ≡ true
      unlisted every = visited-nil _ (λ name h. one name h (every name))
        where
          one :
              (name : String)
              → has name (sorted_union (keys before) (keys after)) ≡ true
              → IsSame same (get before name) (get after name)
              → same (get before name) (get after name) ≡ true
          one name h (inr s) = s
          one name h (inl (e, f)) = clash (sym (has_union name ∙ rw (e, f) refl) ∙ h)

  -- The loop appends nothing just when every name has related values in the maps.
  none_listed :
      (Related : Option V → Option V → Type 0)
      → ((o p : Option V) → IsSame same o p ↔ Related o p)
      → (is_nil (changes_of same item before after) ≡ true)
        ↔ ((name : String) → Related (get before name) (get after name))
  none_listed Related means = (
    λ h name. (means _ _).0 (changes_of-nil.0 h name),
    λ h. changes_of-nil.1 (λ name. (means _ _).1 (h name)),
  )

module _ {V : Type 0} (same : V → V → Bool) (R : V → V → Type 0)
    (decides : (a b : V) → same a b ≡ true ↔ R a b) where
  IsSame-Alike : (o p : Option V) → IsSame (both same) o p ↔ Alike R o p
  IsSame-Alike o p = (alike o p, same_values o p)
    where
      alike : (o p : Option V) → IsSame (both same) o p → Alike R o p
      alike none none h = tt
      alike none (some b) (inl e) = none_not_some (sym e.1)
      alike none (some b) (inr h) = clash h
      alike (some a) none (inl e) = none_not_some (sym e.0)
      alike (some a) none (inr h) = clash h
      alike (some a) (some b) (inl e) = absurd (none_not_some (sym e.0))
      alike (some a) (some b) (inr h) = (decides a b).0 h

      same_values : (o p : Option V) → Alike R o p → IsSame (both same) o p
      same_values none none h = inl (refl, refl)
      same_values none (some b) h = absurd h
      same_values (some a) none h = absurd h
      same_values (some a) (some b) h = inr ((decides a b).1 h)

IsSame-same_zone : (o p : Option FirewallZone) → IsSame same_zone o p ↔ Alike SameZone o p
unfolding same_zone
IsSame-same_zone o p =
    (alike, λ h. inr ((deep_equal_iff ZoneValues-discrete _ _).1 ((zone_values_iff o p).1 h)))
  where
    alike : IsSame same_zone o p → Alike SameZone o p
    alike (inl (e, f)) = (zone_values_iff o p).0 (ap zone_values (e ∙ sym f))
    alike (inr h) = (zone_values_iff o p).0 ((deep_equal_iff ZoneValues-discrete _ _).0 h)

-- The machines are the same as far as the difference looks. Under every path is the same file, and
-- under every name the same service, a user of the same name, numbers, shell and groups, a zone with
-- the same interfaces, enabled services and enabled ports, and a package of the same version.
pub record Agrees (b a : Machine) : Type 0 where
  pub files : (path : String) → Alike (λ f g. f ≡ g) (get b.files path) (get a.files path)
  pub services : (name : String) → Alike (λ s t. s ≡ t) (get b.services name) (get a.services name)
  pub users : (name : String) → Alike SameUser (get b.users name) (get a.users name)
  pub zones : (name : String) → Alike SameZone (get b.network.zones name) (get a.network.zones name)
  pub packages :
      (name : String)
      → Alike (λ p q. p.version ≡ q.version) (get b.packages name) (get a.packages name)

lists_iff :
    (b a : Machine)
    → (is_empty (diff_machines b a) ≡ true) ↔ (
        (is_nil (diff_machines b a).files ≡ true)
        × (is_nil (diff_machines b a).services ≡ true)
        × (is_nil (diff_machines b a).users ≡ true)
        × (is_nil (diff_machines b a).firewall ≡ true)
        × (is_nil (diff_machines b a).packages ≡ true))
unfolding is_empty
lists_iff b a = (λ h. five_true _ _ _ _ _ h, λ h. rw (h.0, h.1, h.2, h.3, h.4) refl)

module _ (b a : Machine) where
  files_iff :
      (is_nil (diff_machines b a).files ≡ true)
      ↔ ((path : String) → Alike (λ f g. f ≡ g) (get b.files path) (get a.files path))
  unfolding diff_machines
  files_iff = none_listed _ _ _ _ _ (IsSame-Alike _ _ (deep_equal_iff File-discrete))

  services_iff :
      (is_nil (diff_machines b a).services ≡ true)
      ↔ ((name : String) → Alike (λ s t. s ≡ t) (get b.services name) (get a.services name))
  unfolding diff_machines
  services_iff = none_listed _ _ _ _ _ (IsSame-Alike _ _ (deep_equal_iff Service-discrete))

  users_iff :
      (is_nil (diff_machines b a).users ≡ true)
      ↔ ((name : String) → Alike SameUser (get b.users name) (get a.users name))
  unfolding diff_machines
  users_iff = none_listed _ _ _ _ _ (IsSame-Alike _ _ user_equal_iff)

  zones_iff :
      (is_nil (diff_machines b a).firewall ≡ true)
      ↔ ((name : String) → Alike SameZone (get b.network.zones name) (get a.network.zones name))
  unfolding diff_machines
  zones_iff = none_listed _ _ _ _ _ IsSame-same_zone

  packages_iff : (is_nil (diff_machines b a).packages ≡ true) ↔ (
      (name : String)
      → Alike (λ p q. p.version ≡ q.version) (get b.packages name) (get a.packages name))
  unfolding diff_machines
  packages_iff = none_listed _ _ _ _ _ (IsSame-Alike _ _ (λ p q. eq_iff p.version q.version))

-- The difference of two machines is empty just when they agree in what it compares: they have files
-- at the same paths, and services, users, zones and packages of the same names; equal files and
-- services; users with equal names, numbers and shells, and the same groups in any order; zones with
-- the same interfaces, services that are on and ports that are on, in any order; and packages of
-- equal versions. Passwords, SELinux, open ports, the host's name and the rest are not compared.
pub diff_machines_iff : (b a : Machine) → (is_empty (diff_machines b a) ≡ true) ↔ Agrees b a
diff_machines_iff b a = (
  λ h.
      let every = (lists_iff b a).0 h in
      record {
        files = (files_iff b a).0 every.0;
        services = (services_iff b a).0 every.1;
        users = (users_iff b a).0 every.2;
        zones = (zones_iff b a).0 every.3;
        packages = (packages_iff b a).0 every.4;
      },
  λ h. (lists_iff b a).1 (
    (files_iff b a).1 h.files,
    (services_iff b a).1 h.services,
    (users_iff b a).1 h.users,
    (zones_iff b a).1 h.zones,
    (packages_iff b a).1 h.packages,
  ),
)
