-- ===== src/Scenario/Validate.antt =====
-- ValidateScenario of internal/scenario/loader.go, and safePackagePath. A diagnostic stands for its
-- path and message; the file's name, which all of them carry, is left out, and so is the place of a
-- condition in its group.
pub mod Accepts
use red_lab.Prelude.{
  ℕ, suc, ltb, String, Bool, true, false, not, ◌&&◌, ◌||◌, Option, none, some, List, [], ◌∷◌, ◌++◌,
  ◌==◌, map, if◌then◌else◌,
}
use red_lab.Prelude.GoMap.{GoMap, get, put, get_or}
use red_lab.Prelude.Int.{ℤ, pos, eqb_ℤ, ltb_ℤ}
use red_lab.GoLib.Path.{clean}
use red_lab.GoLib.Strings.{byte_size, contains, has_prefix, replace_all, trim_space}
use red_lab.Scenario.{
  Scenario, ScenarioSpec, UserSpec, ServiceSpec, ObjectiveSpec, GuardrailSpec, RuleSpec, RubricSpec,
  EffectSpec, FileSpec,
}
use red_lab.Scenario.Conditions.{
  ConditionGroup, group, Groups, nil, cons, Negated, absent, present, Leaf,
}

pub data Diagnostic : Type 0 where
  bad_version bad_kind missing_id bad_major missing_hostname missing_initial_user : Diagnostic
  bad_user undeclared_user bad_service bad_objective bad_guardrail bad_rubric bad_rule : Diagnostic
  bad_condition : String → Diagnostic
  negative_points : String → Diagnostic
  blank_command : ℕ → Diagnostic
  empty_solution : ℕ → Diagnostic
  blank_solution_command : ℕ → ℕ → Diagnostic
  missing_rubric : String → Diagnostic
  bad_effect : String → String → Diagnostic
  bad_entry : String → Diagnostic

-- The map `known` of validateConditionGroup.
unfoldable pub is_known : String → Bool
is_known kind =
    kind == ""
    || kind == "serviceRunning"
    || kind == "firewallServiceAllowed"
    || kind == "selinuxMode"
    || kind == "selinuxModeIn"
    || kind == "serviceDisabled"
    || kind == "httpStatus"
    || kind == "fileContains"
    || kind == "fileAbsent"
    || kind == "userInGroup"

-- validateConditionGroup: the first type that is not supported.
unfoldable mutual
  pub validate_group : ConditionGroup → Option String
  validate_group (group leaf every any negated) =
      let rest = validate_groups every in
      let others = validate_groups any in
      let inner = validate_negated negated in
      if not (is_known leaf.kind)
      then some leaf.kind
      else elim rest [ some e ↦ some e | none ↦ elim others [ some e ↦ some e | none ↦ inner ] ]

  pub validate_groups : Groups → Option String
  validate_groups nil = none
  validate_groups (cons child children) =
      let rest = validate_groups children in
      elim (validate_group child) [ some e ↦ some e | none ↦ rest ]

  pub validate_negated : Negated → Option String
  validate_negated absent = none
  validate_negated (present child) = validate_group child

abbrev pub report_if : Bool → Diagnostic → List Diagnostic
report_if b d = if b then d ∷ [] else []

abbrev pub group_diagnostics : ConditionGroup → List Diagnostic
group_diagnostics g = elim (validate_group g) [ none ↦ [] | some kind ↦ bad_condition kind ∷ [] ]

-- A loop that wants names to be there and to be new, and notes them in a map.
unfoldable pub check_names : Diagnostic → GoMap Bool → List String → List Diagnostic
check_names d seen [] = []
check_names d seen (name ∷ names) =
    report_if (name == "" || get_or seen name false) d ++ check_names d (put seen name true) names

unfoldable pub note_names : GoMap Bool → List String → GoMap Bool
note_names seen [] = seen
note_names seen (name ∷ names) = note_names (put seen name true) names

-- The loop over the objectives, behind the notes of the ids before them.
unfoldable pub check_objectives : GoMap Bool → List ObjectiveSpec → List Diagnostic
check_objectives ids [] = []
check_objectives ids (o ∷ objectives) =
    report_if (o.id == "" || get_or ids o.id false) bad_objective
    ++ (group_diagnostics o.checks
        ++ (report_if (ltb_ℤ o.points (pos 0)) (negative_points o.id)
            ++ check_objectives (put ids o.id true) objectives))

unfoldable pub check_commands : (ℕ → Diagnostic) → ℕ → List String → List Diagnostic
check_commands d index [] = []
check_commands d index (command ∷ commands) =
    report_if (trim_space command == "") (d index) ++ check_commands d (suc index) commands

abbrev pub is_nil_list : List String → Bool
is_nil_list [] = true
is_nil_list (command ∷ commands) = false

unfoldable pub check_solutions : ℕ → List (List String) → List Diagnostic
check_solutions index [] = []
check_solutions index (solution ∷ solutions) =
    report_if (is_nil_list solution) (empty_solution index)
    ++ (check_commands (blank_solution_command index) 0 solution
        ++ check_solutions (suc index) solutions)

unfoldable pub check_responses : GoMap Bool → List ObjectiveSpec → List Diagnostic
check_responses rubrics [] = []
check_responses rubrics (o ∷ objectives) =
    (elim o.response [
      | none ↦ []
      | some r ↦
          report_if (not (r.rubric_id == "") && not (get_or rubrics r.rubric_id false))
            (missing_rubric o.id)
    ])
    ++ check_responses rubrics objectives

unfoldable pub check_effects : String → List EffectSpec → List Diagnostic
check_effects rule [] = []
check_effects rule (e ∷ effects) =
    report_if (not (e.kind == "setPort") && not (e.kind == "setHttpResponse"))
      (bad_effect rule e.kind)
    ++ check_effects rule effects

unfoldable pub check_rules : GoMap Bool → List RuleSpec → List Diagnostic
check_rules ids [] = []
check_rules ids (r ∷ rules) =
    report_if (r.id == "" || get_or ids r.id false) bad_rule
    ++ (group_diagnostics r.when
        ++ (check_effects r.id r.effects ++ check_rules (put ids r.id true) rules))

unfoldable pub check_guardrails : List GuardrailSpec → List Diagnostic
check_guardrails [] = []
check_guardrails (g ∷ guardrails) = group_diagnostics g.when ++ check_guardrails guardrails

-- safeVirtualPath
unfoldable pub safe_virtual_path : String → Option String
safe_virtual_path given =
    let name = replace_all given "\\" "/" in
    let cleaned = clean name in
    if name == "" || not (has_prefix name "/")
    then none
    else if cleaned == "/" || has_prefix cleaned "/../" || cleaned == "/.."
    then none
    else some cleaned

-- safePackagePath
unfoldable pub safe_package_path : String → Option String
safe_package_path given =
    let name = replace_all given "\\" "/" in
    let cleaned = clean name in
    if name == ""
      || ltb 4096 (byte_size name)
      || contains name "\0"
      || has_prefix name "/"
      || contains name ":"
    then none
    else if cleaned == "." || cleaned == ".." || has_prefix cleaned "../"
    then none
    else some cleaned

unfoldable pub check_entries : List FileSpec → List Diagnostic
check_entries [] = []
check_entries (f ∷ entries) =
    (elim (safe_virtual_path f.path) [ none ↦ bad_entry f.path ∷ [] | some path ↦ [] ])
    ++ check_entries entries

abbrev pub user_names : ScenarioSpec → List String
user_names spec = map (λ (u : UserSpec). u.name) spec.actors.users

abbrev pub objective_ids : ScenarioSpec → List String
objective_ids spec = map (λ (o : ObjectiveSpec). o.id) spec.objectives

abbrev pub guardrail_ids : ScenarioSpec → List String
guardrail_ids spec = map (λ (g : GuardrailSpec). g.id) spec.guardrails

-- The loops of ValidateScenario, each on the names that those before it have noted.
unfoldable pub validate_spec : ScenarioSpec → List Diagnostic
validate_spec spec =
    let users = note_names [] (user_names spec) in
    let ids = note_names [] (objective_ids spec) in
    let guarded = note_names ids (guardrail_ids spec) in
    let rubric_ids = map (λ (r : RubricSpec). r.id) spec.judge_rubrics in
    check_names bad_user [] (user_names spec)
    ++ (report_if
          (not (spec.actors.initial_user == "")
            && not (get_or users spec.actors.initial_user false))
          undeclared_user
        ++ (check_names bad_service [] (map (λ (s : ServiceSpec). s.name) spec.services)
            ++ (check_objectives [] spec.objectives
                ++ (check_commands blank_command 0 spec.reference_solution
                    ++ (check_solutions 0 spec.reference_solutions
                        ++ (check_names bad_guardrail ids (guardrail_ids spec)
                            ++ (check_names bad_rubric [] rubric_ids
                                ++ (check_responses (note_names [] rubric_ids) spec.objectives
                                    ++ (check_rules guarded spec.rules
                                        ++ (check_guardrails spec.guardrails
                                            ++ check_entries spec.filesystem.entries))))))))))

unfoldable pub validate_scenario : Scenario → List Diagnostic
validate_scenario s =
    report_if (not (s.api_version == "redlab/v1")) bad_version
    ++ (report_if (not (s.kind == "Scenario")) bad_kind
        ++ (report_if (s.metadata.id == "") missing_id
            ++ (report_if (not (eqb_ℤ s.spec.rhel.major (pos 8))) bad_major
                ++ (report_if (s.spec.rhel.hostname == "") missing_hostname
                    ++ (report_if (s.spec.actors.initial_user == "") missing_initial_user
                        ++ validate_spec s.spec)))))
