-- ===== src/System/Sudo.antt =====
-- `SudoAllowed` of internal/system/state.go, and what it allows.
use red_lab.Prelude.{
  String, Bool, true, false, ◌||◌, ◌&&◌, none, some, List, [], ◌∷◌, ◌==◌, if◌then◌else◌,
}
use red_lab.Prelude.GoMap.{get}
use red_lab.GoLib.Strings.{has_prefix, trim_prefix}
use red_lab.Scenario.{SudoRule}
use red_lab.System.{User, Machine}
use red_lab.System.Permissions.{member}

-- `matches`, after the loop over the groups.
abbrev pub rule_matches : User → String → SudoRule → Bool
rule_matches u user rule =
    rule.subject == user
    || (has_prefix rule.subject "%" && member (trim_prefix rule.subject "%") u.groups)

-- The loop over the commands of a rule.
abbrev pub rule_allows : String → List String → Bool
rule_allows command [] = false
rule_allows command (allowed ∷ commands) =
    allowed == "ALL" || allowed == command || rule_allows command commands

-- The loop over the rules.
unfoldable pub rules_allow : User → String → String → List SudoRule → Bool
rules_allow u user command [] = false
rules_allow u user command (rule ∷ rules) =
    (rule_matches u user rule && rule_allows command rule.commands)
    || rules_allow u user command rules

unfoldable pub sudo_allowed : Machine → String → String → Bool
sudo_allowed m user command = if user == "root" then true else elim (get m.users user) [
  | none ↦ false
  | some u ↦ elim m.sudo_rules [
    | [] ↦ member "wheel" u.groups
    | rule ∷ rules ↦ rules_allow u user command (rule ∷ rules)
  ]
]
