-- ===== src/Scenario/Examples.antt =====
-- A small scenario without diagnostics.
use red_lab.Prelude.{◌≡◌, refl, [], ◌∷◌}
use red_lab.Prelude.Int.{pos}
use red_lab.Prelude.GoMap.{get, put}
use red_lab.Scenario.{Scenario, ScenarioSpec}
use red_lab.Scenario.Validate.{
  validate_scenario, validate_spec, check_names, note_names, check_objectives, check_commands,
  check_solutions, check_responses, check_rules, check_guardrails, check_entries, validate_group,
  is_known,
}
use red_lab.Scenario.Validate.Accepts.{IsNamed, validate_scenario-IsNamed}
use red_lab.Samples.{spec}

abbrev valid_spec : ScenarioSpec
valid_spec = record spec {
  rhel = record spec.rhel { major = pos 8 };
  actors = record {
    initial_user = "trainee";
    users =
        record {
          name = "trainee";
          uid = pos 1000;
          gid = pos 1000;
          groups = [];
          shell = "/bin/bash";
          password = "";
        }
        ∷ [];
    sudo = [];
  };
}

abbrev valid : Scenario
valid = record {
  api_version = "redlab/v1";
  kind = "Scenario";
  metadata = record { id = "broken-httpd"; title = ""; version = "1"; authors = []; tags = [] };
  spec = valid_spec;
}

no_diagnostics : validate_scenario valid ≡ []
unfolding validate_scenario validate_spec check_names note_names check_objectives check_commands
    check_solutions check_responses check_rules check_guardrails check_entries validate_group
    is_known get put
no_diagnostics = refl

validate_scenario-IsNamed_example : IsNamed valid.spec
validate_scenario-IsNamed_example = validate_scenario-IsNamed valid no_diagnostics
