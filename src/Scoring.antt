-- ===== src/Scoring.antt =====
-- internal/scoring/scoring.go: the automated score of a machine.
pub mod Total
mod Examples
use red_lab.Prelude.{String, Bool, true, false, Option, List, [], ◌∷◌, ◌++◌, if◌then◌else◌}
use red_lab.Prelude.Int.{ℤ, pos, ◌+ℤ◌, ◌-ℤ◌, wrap64}
use red_lab.Scenario.{ScenarioSpec, ObjectiveSpec, GuardrailSpec}
use red_lab.System.{Machine}
use red_lab.System.Net.{Url}
use red_lab.Rules as Conditions

pub record ObjectiveResult : Type 0 where
  pub id : String
  pub title : String
  pub points : ℤ
  pub earned : ℤ
  pub passed : Bool
  pub explanation : String

pub record GuardrailResult : Type 0 where
  pub id : String
  pub points : ℤ
  pub triggered : Bool

pub record Score : Type 0 where
  pub objectives : List ObjectiveResult
  pub guardrails : List GuardrailResult
  pub automated : ℤ
  pub maximum : ℤ
  pub hints_cost : ℤ

module _ (parse_url : String → Option Url) (m : Machine) where
  abbrev pub objective_result : ObjectiveSpec → ObjectiveResult
  objective_result objective =
      let passed = Conditions.evaluate parse_url m objective.checks in
      record {
        id = objective.id;
        title = objective.title;
        points = objective.points;
        earned = if passed then objective.points else pos 0;
        passed = passed;
        explanation =
            if passed then "objective state is satisfied" else "objective state is not satisfied";
      }

  abbrev pub guardrail_result : GuardrailSpec → GuardrailResult
  guardrail_result guardrail = record {
    id = guardrail.id;
    points = guardrail.points;
    triggered = Conditions.evaluate parse_url m guardrail.when;
  }

  -- The loop over the objectives.
  unfoldable pub score_objectives : List ObjectiveSpec → Score → Score
  score_objectives [] s = s
  score_objectives (objective ∷ rest) s =
      let r = objective_result objective in
      score_objectives rest (record s {
        objectives = s.objectives ++ (r ∷ []);
        automated = wrap64 (s.automated +ℤ r.earned);
      })

  -- The loop over the guardrails.
  unfoldable pub score_guardrails : List GuardrailSpec → Score → Score
  score_guardrails [] s = s
  score_guardrails (guardrail ∷ rest) s =
      let r = guardrail_result guardrail in
      score_guardrails rest (record s {
        automated = if r.triggered then wrap64 (s.automated +ℤ r.points) else s.automated;
        guardrails = s.guardrails ++ (r ∷ []);
      })

  unfoldable pub evaluate : ScenarioSpec → ℤ → Score
  evaluate spec hints_cost =
      let start : Score = record {
        objectives = [];
        guardrails = [];
        automated = pos 0;
        maximum = spec.scoring.automated_maximum;
        hints_cost = hints_cost;
      } in
      let s = score_guardrails spec.guardrails (score_objectives spec.objectives start) in
      record s { automated = wrap64 (s.automated -ℤ hints_cost) }
