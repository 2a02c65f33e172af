-- ===== src/Scoring/Total.antt =====
-- What the score of internal/scoring/scoring.go is the sum of.
use mathlib.Core.List.{append_assoc, append-nil}
use red_lab.Prelude.{
  String, Bool, true, false, Option, List, [], ◌∷◌, ◌++◌, map, if◌then◌else◌, ◌≡◌, refl, arith, ap,
  sym, ◌∙◌,
}
use red_lab.Prelude.Int.{ℤ, pos, ◌+ℤ◌, ◌-ℤ◌, wrap64}
use red_lab.Scenario.{ScenarioSpec, ObjectiveSpec, GuardrailSpec}
use red_lab.System.{Machine}
use red_lab.System.Net.{Url}
use red_lab.Rules as Conditions
use red_lab.Scoring.{
  Score, ObjectiveResult, GuardrailResult, objective_result, guardrail_result, score_objectives,
  score_guardrails, evaluate,
}

wrap64-add : (a b : ℤ) → wrap64 (wrap64 a +ℤ b) ≡ wrap64 (a +ℤ b)
unfolding wrap64 ◌+ℤ◌
wrap64-add a b = ground arith

wrap64-sub : (a b : ℤ) → wrap64 (wrap64 a -ℤ b) ≡ wrap64 (a -ℤ b)
unfolding wrap64 ◌-ℤ◌
wrap64-sub a b = ground arith

add_assoc : (a b c : ℤ) → a +ℤ b +ℤ c ≡ a +ℤ (b +ℤ c)
unfolding ◌+ℤ◌
add_assoc a b c = ground arith

add_zero : (a : ℤ) → a +ℤ pos 0 ≡ a
unfolding ◌+ℤ◌
add_zero a = ground arith

zero_add : (a : ℤ) → pos 0 +ℤ a ≡ a
unfolding ◌+ℤ◌
zero_add a = ground arith

-- The points of the objectives that passed.
unfoldable pub earned : List ObjectiveResult → ℤ
earned [] = pos 0
earned (r ∷ rest) = (if r.passed then r.points else pos 0) +ℤ earned rest

-- The points of the guardrails that were triggered, which are negative as a rule.
unfoldable pub penalties : List GuardrailResult → ℤ
penalties [] = pos 0
penalties (r ∷ rest) = (if r.triggered then r.points else pos 0) +ℤ penalties rest

module _ (parse_url : String → Option Url) (m : Machine) where
  -- One step of a loop that adds up.
  wrapped_step : (s a b : ℤ) → wrap64 (wrap64 (s +ℤ a) +ℤ b) ≡ wrap64 (s +ℤ (a +ℤ b))
  wrapped_step s a b = wrap64-add (s +ℤ a) b ∙ ap wrap64 (add_assoc s a b)

  score_objectives-automated :
      (os : List ObjectiveSpec) (s : Score)
      → wrap64 (score_objectives parse_url m os s).automated
        ≡ wrap64 (s.automated +ℤ earned (map (objective_result parse_url m) os))
  unfolding score_objectives earned
  score_objectives-automated [] s = ap wrap64 (sym (add_zero s.automated))
  score_objectives-automated (o ∷ os) s =
      score_objectives-automated os _
      ∙ wrapped_step s.automated (objective_result parse_url m o).earned _

  guarded :
      (b : Bool) (s a c : ℤ)
      → wrap64 ((if b then wrap64 (s +ℤ a) else s) +ℤ c)
        ≡ wrap64 (s +ℤ ((if b then a else pos 0) +ℤ c))
  guarded true s a c = wrapped_step s a c
  guarded false s a c = ap (λ x. wrap64 (s +ℤ x)) (sym (zero_add c))

  score_guardrails-automated :
      (gs : List GuardrailSpec) (s : Score)
      → wrap64 (score_guardrails parse_url m gs s).automated
        ≡ wrap64 (s.automated +ℤ penalties (map (guardrail_result parse_url m) gs))
  unfolding score_guardrails penalties
  score_guardrails-automated [] s = ap wrap64 (sym (add_zero s.automated))
  score_guardrails-automated (g ∷ gs) s =
      score_guardrails-automated gs _
      ∙ guarded (Conditions.evaluate parse_url m g.when) s.automated g.points _

  -- What the loops list, and the fields that they leave alone.
  Lists : Score → List ObjectiveResult → List GuardrailResult → ℤ → Type 0
  Lists s os gs maximum = (s.objectives ≡ os) × (s.guardrails ≡ gs) × (s.maximum ≡ maximum)

  score_objectives-Lists :
      (os : List ObjectiveSpec) (s : Score)
      → Lists
          (score_objectives parse_url m os s)
          (s.objectives ++ map (objective_result parse_url m) os)
          s.guardrails
          s.maximum
  unfolding score_objectives Lists
  score_objectives-Lists [] s = (sym (append-nil s.objectives), refl, refl)
  score_objectives-Lists (o ∷ os) s =
      let rest = score_objectives-Lists os _ in
      (rest.0 ∙ append_assoc s.objectives _ _, rest.1, rest.2)

  score_guardrails-Lists :
      (gs : List GuardrailSpec) (s : Score)
      → Lists
          (score_guardrails parse_url m gs s)
          s.objectives
          (s.guardrails ++ map (guardrail_result parse_url m) gs)
          s.maximum
  unfolding score_guardrails Lists
  score_guardrails-Lists [] s = (refl, sym (append-nil s.guardrails), refl)
  score_guardrails-Lists (g ∷ gs) s =
      let rest = score_guardrails-Lists gs _ in
      (rest.0, rest.1 ∙ append_assoc s.guardrails _ _, rest.2)

  -- The totals of the two loops, put together.
  combined :
      (a b e p hints_cost : ℤ)
      → wrap64 a ≡ wrap64 (b +ℤ p)
      → wrap64 b ≡ wrap64 (pos 0 +ℤ e)
      → wrap64 (a -ℤ hints_cost) ≡ wrap64 (e +ℤ p -ℤ hints_cost)
  combined a b e p c h k =
      sym (wrap64-sub a c) ∙ (ap (λ x. wrap64 (x -ℤ c)) whole ∙ wrap64-sub (e +ℤ p) c)
    where
      whole : wrap64 a ≡ wrap64 (e +ℤ p)
      whole =
          h
          ∙ (sym (wrap64-add b p)
              ∙ (ap (λ x. wrap64 (x +ℤ p)) (k ∙ ap wrap64 (zero_add e)) ∙ wrap64-add e p))

  -- The score lists every objective and every guardrail in the scenario's order, and its automated
  -- points are the points of the objectives that passed and of the guardrails that were triggered,
  -- less the cost of the hints, in 64 bits.
  pub evaluate_lem :
      (spec : ScenarioSpec) (hints_cost : ℤ)
      → ((evaluate parse_url m spec hints_cost).objectives
          ≡ map (objective_result parse_url m) spec.objectives)
        × ((evaluate parse_url m spec hints_cost).guardrails
            ≡ map (guardrail_result parse_url m) spec.guardrails)
        × ((evaluate parse_url m spec hints_cost).automated
            ≡ wrap64 (
                earned (map (objective_result parse_url m) spec.objectives)
                +ℤ penalties (map (guardrail_result parse_url m) spec.guardrails)
                -ℤ hints_cost))
  unfolding evaluate Lists
  evaluate_lem spec hints_cost =
      let start : Score = record {
        objectives = [];
        guardrails = [];
        automated = pos 0;
        maximum = spec.scoring.automated_maximum;
        hints_cost = hints_cost;
      } in
      let s : Score = score_objectives parse_url m spec.objectives start in
      let first = score_objectives-Lists spec.objectives start in
      let second = score_guardrails-Lists spec.guardrails s in
      (
        second.0 ∙ first.0,
        second.1 ∙ ap (λ gs. gs ++ map (guardrail_result parse_url m) spec.guardrails) first.1,
        combined _ s.automated _ _ hints_cost (score_guardrails-automated spec.guardrails s)
            (score_objectives-automated spec.objectives start),
      )
