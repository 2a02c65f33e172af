-- ===== src/Rules/Examples.antt =====
-- A condition of the rules on a small machine.
use red_lab.Prelude.{true, ◌≡◌, ◌↔◌}
use red_lab.Rules.{evaluate}
use red_lab.Rules.Meaning.{Holds, evaluate_iff}
use red_lab.Samples.{host, no_url, repaired}

evaluate_iff_example : (evaluate no_url host repaired ≡ true) ↔ Holds no_url host repaired
evaluate_iff_example = evaluate_iff no_url host repaired
