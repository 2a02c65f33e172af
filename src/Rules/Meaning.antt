-- ===== src/Rules/Meaning.antt =====
-- What the conditions of a rule, an objective and a guardrail mean, and that `Evaluate` decides it.
pub mod Single
use red_lab.Prelude.{
  String, Bool, true, false, not, ◌&&◌, ◌||◌, ◌≡◌, refl, Option, ◌⊎◌, inl, inr, ◌↔◌,
}
use red_lab.Scenario.Conditions.{ConditionGroup, group, Groups, nil, cons, absent, present}
use red_lab.System.{Machine}
use red_lab.System.Net.{Url}
use red_lab.Rules.{evaluate, evaluate_all, evaluate_any}
use red_lab.Rules.Meaning.Single.{IsMet, check_iff}

module _ (parse_url : String → Option Url) (m : Machine) where
  mutual
    -- A list under `all` stands before one under `any`, and both before `not` and a single condition.
    pub Holds : ConditionGroup → Type 0
    Holds (group c (cons g gs) any negated) = HoldAll (cons g gs)
    Holds (group c nil (cons g gs) negated) = HoldsOne (cons g gs)
    Holds (group c nil nil (present g)) = ¬ Holds g
    Holds (group c nil nil absent) = IsMet parse_url m c

    pub HoldAll : Groups → Type 0
    HoldAll nil = Unit
    HoldAll (cons g gs) = Holds g × HoldAll gs

    pub HoldsOne : Groups → Type 0
    HoldsOne nil = ⊥
    HoldsOne (cons g gs) = Holds g ⊎ HoldsOne gs

  no_truth : false ≡ true → ⊥
  no_truth h = cc

  negation : (b : Bool) {A : Type 0} → b ≡ true ↔ A → not b ≡ true ↔ ¬ A
  negation true h = (λ e. absurd (no_truth e), λ k. absurd (k (h.0 refl)))
  negation false h = (λ e a. no_truth (h.1 a), λ k. refl)

  both : (a b : Bool) {A B : Type 0} → a ≡ true ↔ A → b ≡ true ↔ B → a && b ≡ true ↔ (A × B)
  both true b h k = (λ e. (h.0 refl, k.0 e), λ p. k.1 p.1)
  both false b h k = (λ e. absurd (no_truth e), λ p. h.1 p.0)

  either : (a b : Bool) {A B : Type 0} → a ≡ true ↔ A → b ≡ true ↔ B → a || b ≡ true ↔ (A ⊎ B)
  either true b h k = (λ e. inl (h.0 refl), λ p. refl)
  either false b h k =
      (λ e. inr (k.0 e), λ p. elim p [ inl a ↦ absurd (no_truth (h.1 a)) | inr b ↦ k.1 b ])

  mutual
    unfolding Holds evaluate

    decides : (g : ConditionGroup) → evaluate parse_url m g ≡ true ↔ Holds g
    decides (group c (cons g gs) any negated) = decides_all (cons g gs)
    decides (group c nil (cons g gs) negated) = decides_one (cons g gs)
    decides (group c nil nil (present g)) = negation (evaluate parse_url m g) (decides g)
    decides (group c nil nil absent) = check_iff parse_url m c

    decides_all : (gs : Groups) → evaluate_all parse_url m gs ≡ true ↔ HoldAll gs
    decides_all nil = (λ h. tt, λ h. refl)
    decides_all (cons g gs) =
        both (evaluate parse_url m g) (evaluate_all parse_url m gs) (decides g) (decides_all gs)

    decides_one : (gs : Groups) → evaluate_any parse_url m gs ≡ true ↔ HoldsOne gs
    decides_one nil = (no_truth, λ p. absurd p)
    decides_one (cons g gs) =
        either (evaluate parse_url m g) (evaluate_any parse_url m gs) (decides g) (decides_one gs)

  -- Evaluate is true just where the condition holds. A group with conditions under `all` holds where
  -- each of them does, else one with conditions under `any` where one of them does, else one with a
  -- condition under `not` where that does not. A single condition holds where the machine has what
  -- its kind asks for (the service runs, it is there and not enabled, the zone has the service on, the
  -- mode is the one or among the ones named, root reads the pattern in the file, the file cannot be
  -- looked up, the user is in the group, the URL gives the status), and none of another kind holds.
  pub evaluate_iff : (g : ConditionGroup) → evaluate parse_url m g ≡ true ↔ Holds g
  evaluate_iff g = decides g
