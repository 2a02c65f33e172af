-- ===== src/Runtime/Line/Loop.antt =====
-- Which statements of a line `RunLine` runs.
use red_lab.Prelude.{String, Bool, List, [], ◌∷◌, if◌then◌else◌}
use red_lab.Prelude.Int.{pos, eqb_ℤ}
use red_lab.Shell.{Command, Statement}
use red_lab.Runtime.Line.{Runner, Progress, run_one, is_or}

-- The pipelines that no `||` stands before.
unfoldable pub unconditional : List Statement → List (List Command)
unconditional [] = []
unconditional (s ∷ statements) =
    let rest = unconditional statements in if is_or s.previous then rest else s.pipeline ∷ rest

abbrev pub succeeded : Progress → Bool
succeeded p = eqb_ℤ p.last (pos 0)

module _ (run : Runner) (input : String) where
  -- Pipelines run one after the other until one fails.
  unfoldable pub run_until_failure : Progress → List (List Command) → Progress
  run_until_failure p [] = p
  run_until_failure p (pipeline ∷ pipelines) =
      let q = run_one run input p pipeline in
      let continued = run_until_failure q pipelines in if succeeded q then continued else q
