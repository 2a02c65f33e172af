-- ===== src/Scoring/Examples.antt =====
-- The score of a small scenario, whose objective is met and whose guardrail is not triggered.
use red_lab.Prelude.{◌≡◌, refl, map}
use red_lab.Prelude.GoMap.{get}
use red_lab.Prelude.Int.{pos, ◌+ℤ◌, ◌-ℤ◌, wrap64}
use red_lab.Rules as Conditions
use red_lab.Scoring.{
  evaluate, score_objectives, score_guardrails, objective_result, guardrail_result,
}
use red_lab.Scoring.Total.{earned, penalties, evaluate_lem}
use red_lab.Samples.{host, no_url, spec}

score_example : (evaluate no_url host spec (pos 5)).automated ≡ pos 55
unfolding evaluate score_objectives score_guardrails Conditions.evaluate Conditions.check get ◌+ℤ◌
    ◌-ℤ◌ wrap64
score_example = refl

evaluate_lem_example :
    ((evaluate no_url host spec (pos 5)).objectives
      ≡ map (objective_result no_url host) spec.objectives)
    × ((evaluate no_url host spec (pos 5)).guardrails
        ≡ map (guardrail_result no_url host) spec.guardrails)
    × ((evaluate no_url host spec (pos 5)).automated
        ≡ wrap64 (
            earned (map (objective_result no_url host) spec.objectives)
            +ℤ penalties (map (guardrail_result no_url host) spec.guardrails)
            -ℤ pos 5))
evaluate_lem_example = evaluate_lem no_url host spec (pos 5)
