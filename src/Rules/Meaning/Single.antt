-- ===== src/Rules/Meaning/Single.antt =====
-- What a single condition of a rule, an objective or a guardrail asks of the machine, and that the
-- `switch` of `Evaluate` answers it.
use Prim.Native.String.{◌++◌ as ◌+++◌}
use mathlib.Core.Path.{subst}
use mathlib.Core.List.{Memᴰ}
use red_lab.Prelude.{
  not, ap, ◌∙◌, holds-if, String, Bool, true, false, ◌≡◌, ◌≢◌, refl, sym, ◌||◌, Option, none, some,
  List, [], ◌∷◌, ◌==◌, eq_iff, eq_refl, inl, inr, ◌↔◌, Bool-cases, arith, if◌then◌else◌,
}
use red_lab.Prelude.GoMap.{get, get_or}
use red_lab.Prelude.Int.{eqb_ℤ, eqb_ℤ_iff}
use red_lab.GoLib.Strings.{contains}
use red_lab.GoLib.Strings.Occurs.{contains_iff, occurs-contains}
use red_lab.Scenario.Conditions.{Leaf}
use red_lab.System.{Machine, Result, Service, FirewallZone, User, HttpResponse, Error, ok, err}
use red_lab.System.Permissions.{member}
use red_lab.System.Files.{read_file, stat}
use red_lab.System.Net.{Url, firewall_allowed, http_get, user_in_group}
use red_lab.Rules.{file_contains, http_status, check}

-- The kinds of conditions, each with what it asks for. No other kind is ever met.
pub data IsMet (parse_url : String → Option Url) (m : Machine) (c : Leaf) : Type 0 where
  -- The table of services has the service, and it is running.
  service_running :
      (s : Service)
      → c.kind ≡ "serviceRunning"
      → get m.services c.name ≡ some s
      → s.state ≡ "running"
      → IsMet parse_url m c
  -- The zone is there, and its entry for the service is on.
  firewall_open :
      (z : FirewallZone)
      → c.kind ≡ "firewallServiceAllowed"
      → get m.network.zones c.zone ≡ some z
      → get z.services c.service ≡ some true
      → IsMet parse_url m c
  selinux_mode : c.kind ≡ "selinuxMode" → m.selinux.mode ≡ c.value → IsMet parse_url m c
  selinux_mode_in : c.kind ≡ "selinuxModeIn" → Memᴰ m.selinux.mode c.values → IsMet parse_url m c
  -- The table of services has the service, and it is not enabled.
  service_disabled :
      (s : Service)
      → c.kind ≡ "serviceDisabled"
      → get m.services c.name ≡ some s
      → s.enabled ≡ false
      → IsMet parse_url m c
  -- Root can read the file, and the pattern stands somewhere in it.
  file_has :
      (before after : String)
      → c.kind ≡ "fileContains"
      → read_file m c.path "root" ≡ ok (before +++ (c.pattern_text +++ after))
      → IsMet parse_url m c
  file_missing : (e : Error) → c.kind ≡ "fileAbsent" → stat m c.path ≡ err e → IsMet parse_url m c
  user_in :
      (u : User)
      → c.kind ≡ "userInGroup"
      → get m.users c.user ≡ some u
      → Memᴰ c.group u.groups
      → IsMet parse_url m c
  -- The URL is the field `url`, or the field `value` where that is empty.
  url_answers :
      (r : HttpResponse)
      → c.kind ≡ "httpStatus"
      → c.url ≢ ""
      → http_get parse_url m c.url ≡ ok r
      → r.status ≡ c.status
      → IsMet parse_url m c
  value_answers :
      (r : HttpResponse)
      → c.kind ≡ "httpStatus"
      → c.url ≡ ""
      → http_get parse_url m c.value ≡ ok r
      → r.status ≡ c.status
      → IsMet parse_url m c

unequal : false ≡ true → ⊥
unequal h = cc

-- A test of what a map has at a key.
found {ℓ} :
    {A : Type ℓ} (test : A → Bool) (o : Option A)
    → elim o as (λ _. Bool) [ none ↦ false | some a ↦ test a ] ≡ true
    → (a : A) × (o ≡ some a) × (test a ≡ true)
found test none h = absurd (unequal h)
found test (some a) h = (a, refl, h)

found_here {ℓ} :
    {A : Type ℓ} (test : A → Bool) (o : Option A) (a : A)
    → o ≡ some a
    → test a ≡ true
    → elim o as (λ _. Bool) [ none ↦ false | some b ↦ test b ] ≡ true
found_here test o a e h =
    subst (λ o. elim o as (λ _. Bool) [ none ↦ false | some b ↦ test b ] ≡ true) (sym e) h

answered {ℓ} :
    {A : Type ℓ} (test : A → Bool) (r : Result A)
    → elim r as (λ _. Bool) [ ok a ↦ test a | err e ↦ false ] ≡ true
    → (a : A) × (r ≡ ok a) × (test a ≡ true)
answered test (ok a) h = (a, refl, h)
answered test (err e) h = absurd (unequal h)

answered_so {ℓ} :
    {A : Type ℓ} (test : A → Bool) (r : Result A) (a : A)
    → r ≡ ok a
    → test a ≡ true
    → elim r as (λ _. Bool) [ ok b ↦ test b | err e ↦ false ] ≡ true
answered_so test r a e h =
    subst (λ r. elim r as (λ _. Bool) [ ok b ↦ test b | err e ↦ false ] ≡ true) (sym e) h

refused {ℓ} :
    {A : Type ℓ} (r : Result A)
    → elim r as (λ _. Bool) [ ok a ↦ false | err e ↦ true ] ≡ true
    → (e : Error) × (r ≡ err e)
refused (ok a) h = absurd (unequal h)
refused (err e) h = (e, refl)

member-Mem : (w : String) (list : List String) → member w list ≡ true → Memᴰ w list
unfolding member
member-Mem w [] h = absurd (unequal h)
member-Mem w (v ∷ list) h = elim (Bool-cases (v == w)) [
  | inl e ↦ Memᴰ.head (sym ((eq_iff v w).0 e))
  | inr e ↦ Memᴰ.tail (member-Mem w list (rw e at h))
]

Mem-member : (w : String) (list : List String) → Memᴰ w list → member w list ≡ true
unfolding member
Mem-member w [] m = elim m [ ]
Mem-member w (v ∷ list) (Memᴰ.head p) = rw (p, eq_refl) refl
Mem-member w (v ∷ list) (Memᴰ.tail m) = later (v == w) (member w list) (Mem-member w list m)
  where
    later : (a b : Bool) → b ≡ true → (a || b) ≡ true
    later a b h = ground arith

false_of_not : (b : Bool) → not b ≡ true → b ≡ false
false_of_not b h = ground arith

not_empty : (s : String) → s ≢ "" → (s == "") ≡ false
not_empty s n = elim (Bool-cases (s == "")) [ inl e ↦ absurd (n ((eq_iff s "").0 e)) | inr e ↦ e ]

module _ (parse_url : String → Option Url) (m : Machine) (c : Leaf) where
  abbrev Met : Type 0
  Met = IsMet parse_url m c

  url_met :
      c.kind ≡ "httpStatus"
      → http_status parse_url m (if c.url == "" then c.value else c.url) c.status ≡ true
      → Met
  url_met k h = elim (Bool-cases (c.url == "")) [
    | inl e ↦
        let (r, p, q) = answered (λ r. eqb_ℤ r.status c.status) _ (rw e at h) in
        value_answers r k ((eq_iff c.url "").0 e) p ((eqb_ℤ_iff _ _).0 q)
    | inr e ↦
        let (r, p, q) = answered (λ r. eqb_ℤ r.status c.status) _ (rw e at h) in
        url_answers r k (λ z. unequal (sym e ∙ (eq_iff c.url "").1 z)) p ((eqb_ℤ_iff _ _).0 q)
  ]

  file_met : c.kind ≡ "fileContains" → file_contains m c.path c.pattern_text ≡ true → Met
  file_met k h =
      let (content, p, q) = answered (λ content. contains content c.pattern_text) _ h in
      let (before, after, e) = (contains_iff content c.pattern_text).0 q in
      file_has before after k (p ∙ ap (λ t. ok t) e)

  Answer : Bool → Type 0
  Answer b = b ≡ true → Met

  if_kind :
      (k : String) (x y : Bool)
      → (c.kind ≡ k → Answer x)
      → Answer y
      → Answer (if c.kind == k then x else y)
  if_kind k x y h g = holds-if Answer (c.kind == k) x y (λ e. h ((eq_iff c.kind k).0 e)) (λ e. g)

  check-IsMet : check parse_url m c ≡ true → Met
  unfolding check Answer firewall_allowed user_in_group
  check-IsMet =
      if_kind "serviceRunning" _ _
        (λ k h.
          let (s, p, q) = found (λ s. s.state == "running") _ h in
          service_running s k p ((eq_iff _ _).0 q))
        (if_kind "firewallServiceAllowed" _ _
          (λ k h.
            let (z, p, q) = found (λ z. get_or z.services c.service false) _ h in
            let (b, r, t) = found (λ b. b) (get z.services c.service) q in
            firewall_open z k p (r ∙ ap (λ b. some b) t))
          (if_kind "selinuxMode" _ _ (λ k h. selinux_mode k ((eq_iff _ _).0 h))
            (if_kind "selinuxModeIn" _ _ (λ k h. selinux_mode_in k (member-Mem _ _ h))
              (if_kind "serviceDisabled" _ _
                (λ k h.
                  let (s, p, q) = found (λ s. not s.enabled) _ h in
                  service_disabled s k p (false_of_not _ q))
                (if_kind "fileContains" _ _ file_met (
                  if_kind "fileAbsent" _ _
                    (λ k h. let (e, p) = refused (stat m c.path) h in file_missing e k p)
                    (if_kind "userInGroup" _ _
                      (λ k h.
                        let (u, p, q) = found (λ u. member c.group u.groups) _ h in
                        user_in u k p (member-Mem _ _ q))
                      (if_kind "httpStatus" _ _ url_met (λ h. absurd (unequal h))))))))))

  IsMet-check : Met → check parse_url m c ≡ true
  unfolding check firewall_allowed user_in_group
  IsMet-check (service_running s k p q) =
      rw k (found_here (λ s. s.state == "running") _ s p ((eq_iff _ _).1 q))
  IsMet-check (firewall_open z k p q) = rw k (
      found_here (λ z. get_or z.services c.service false) _ z p (found_here (λ b. b) _ true q refl))
  IsMet-check (selinux_mode k p) = rw k ((eq_iff _ _).1 p)
  IsMet-check (selinux_mode_in k p) = rw k (Mem-member _ _ p)
  IsMet-check (service_disabled s k p q) = rw k (found_here (λ s. not s.enabled) _ s p (rw q refl))
  IsMet-check (file_has before after k p) = rw k (
      answered_so (λ t. contains t c.pattern_text) _ _ p
        (occurs-contains before c.pattern_text after))
  IsMet-check (file_missing e k p) =
      rw k (subst (λ r. elim r as (λ _. Bool) [ ok f ↦ false | err e ↦ true ] ≡ true) (sym p) refl)
  IsMet-check (user_in u k p q) =
      rw k (found_here (λ u. member c.group u.groups) _ u p (Mem-member _ _ q))
  IsMet-check (url_answers r k n p q) = rw k (
      rw (not_empty c.url n)
        (answered_so (λ r. eqb_ℤ r.status c.status) _ r p ((eqb_ℤ_iff _ _).1 q)))
  IsMet-check (value_answers r k n p q) = rw k (
      rw ((eq_iff c.url "").1 n)
        (answered_so (λ r. eqb_ℤ r.status c.status) _ r p ((eqb_ℤ_iff _ _).1 q)))

  -- The `switch` answers yes just where the condition is met.
  pub check_iff : check parse_url m c ≡ true ↔ Met
  check_iff = (check-IsMet, IsMet-check)
