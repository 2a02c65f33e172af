-- ===== src/Rules.antt =====
-- internal/rules/engine.go: conditions on the virtual machine, and the rules that change its network
-- when a condition holds. `parse_url` is what `HTTPGet` reads of a URL with `net/url`.
pub mod Meaning
mod Examples
use Prim.Native.String.{◌++◌ as ◌+++◌}
use red_lab.Prelude.{
  String, Bool, true, false, not, ◌&&◌, ◌||◌, Option, none, some, List, [], ◌∷◌, ◌++◌, ◌==◌,
  if◌then◌else◌,
}
use red_lab.Prelude.GoMap.{get}
use red_lab.Prelude.Int.{ℤ, eqb_ℤ}
use red_lab.GoLib.Strings.{contains}
use red_lab.GoLib.Strconv.{itoa}
use red_lab.Scenario.{RuleSpec, EffectSpec}
use red_lab.Scenario.Conditions.{
  ConditionGroup, group, Groups, nil, cons, Negated, absent, present, Leaf,
}
use red_lab.System.{Machine, HttpResponse, Error, Result, ok, err}
use red_lab.System.Permissions.{member}
use red_lab.System.Files.{read_file, stat}
use red_lab.System.Net.{Url, firewall_allowed, http_get, user_in_group, set_port, set_http}

-- The services that the table has, and a test of one of them.
abbrev pub running : Machine → String → Bool
running m name = elim (get m.services name) [ none ↦ false | some s ↦ s.state == "running" ]

abbrev pub disabled : Machine → String → Bool
disabled m name = elim (get m.services name) [ none ↦ false | some s ↦ not s.enabled ]

abbrev pub file_contains : Machine → String → String → Bool
file_contains m path pattern_text = elim (read_file m path "root") [
  | ok content ↦ contains content pattern_text
  | err e ↦ false
]

abbrev pub file_absent : Machine → String → Bool
file_absent m path = elim (stat m path) [ ok f ↦ false | err e ↦ true ]

module _ (parse_url : String → Option Url) where
  abbrev pub http_status : Machine → String → ℤ → Bool
  http_status m target status = elim (http_get parse_url m target) [
    | ok r ↦ eqb_ℤ r.status status
    | err e ↦ false
  ]

  -- The `switch` of Evaluate.
  unfoldable pub check : Machine → Leaf → Bool
  check m c =
      if c.kind == "serviceRunning"
      then running m c.name
      else if c.kind == "firewallServiceAllowed"
      then firewall_allowed m c.zone c.service
      else if c.kind == "selinuxMode"
      then m.selinux.mode == c.value
      else if c.kind == "selinuxModeIn"
      then member m.selinux.mode c.values
      else if c.kind == "serviceDisabled"
      then disabled m c.name
      else if c.kind == "fileContains"
      then file_contains m c.path c.pattern_text
      else if c.kind == "fileAbsent"
      then file_absent m c.path
      else if c.kind == "userInGroup"
      then user_in_group m c.user c.group
      else if c.kind == "httpStatus"
      then http_status m (if c.url == "" then c.value else c.url) c.status
      else false

  unfoldable mutual
    pub evaluate : Machine → ConditionGroup → Bool
    evaluate m (group c (cons g gs) any negated) = evaluate_all m (cons g gs)
    evaluate m (group c nil (cons g gs) negated) = evaluate_any m (cons g gs)
    evaluate m (group c nil nil (present g)) = not (evaluate m g)
    evaluate m (group c nil nil absent) = check m c

    pub evaluate_all : Machine → Groups → Bool
    evaluate_all m nil = true
    evaluate_all m (cons g gs) = evaluate m g && evaluate_all m gs

    pub evaluate_any : Machine → Groups → Bool
    evaluate_any m nil = false
    evaluate_any m (cons g gs) = evaluate m g || evaluate_any m gs

  -- One effect of a rule: the machine afterwards and the mutations that it reports.
  unfoldable pub perform : Machine → EffectSpec → Machine × List String
  perform m e =
      if e.kind == "setPort"
      then (
        set_port m e.address e.port e.protocol e.state,
        ("port:" +++ e.address +++ ":" +++ itoa e.port +++ "/" +++ e.protocol +++ "=" +++ e.state)
            ∷ [],
      )
      else if e.kind == "setHttpResponse"
      then (
        set_http m e.url (record { status = e.status; body = e.body }),
        ("http:" +++ e.url) ∷ [],
      )
      else (m, [])

  unfoldable pub perform_all : Machine → List EffectSpec → Machine × List String
  perform_all m [] = (m, [])
  perform_all m (e ∷ effects) =
      let first = perform m e in
      let rest = perform_all first.0 effects in (rest.0, first.1 ++ rest.1)

  unfoldable pub apply : Machine → List RuleSpec → Machine × List String
  apply m [] = (m, [])
  apply m (rule ∷ rules) =
      let fired = perform_all m rule.effects in
      let changed = apply fired.0 rules in
      let unchanged = apply m rules in
      if not (evaluate m rule.when) then unchanged else (changed.0, fired.1 ++ changed.1)
