-- ===== src/Scenario/Conditions.antt =====
-- `ConditionGroup` of internal/scenario/types.go: a condition on the virtual machine, or a
-- combination of such conditions. The lists that it holds of itself stand in the block with it.
use red_lab.Prelude.{String, List}
use red_lab.Prelude.Int.{ℤ}

-- The fields that make up a single condition.
pub record Leaf : Type 0 where
  pub kind : String
  pub name : String
  pub user : String
  pub group : String
  pub path : String
  pub pattern_text : String
  pub zone : String
  pub service : String
  pub value : String
  pub url : String
  pub status : ℤ
  pub values : List String

mutual
  -- The single condition, and the fields `All`, `Any` and `Not`.
  pub data ConditionGroup : Type 0 where
    group : Leaf → Groups → Groups → Negated → ConditionGroup

  pub data Groups : Type 0 where
    nil : Groups
    cons : ConditionGroup → Groups → Groups

  -- `*ConditionGroup`
  pub data Negated : Type 0 where
    absent : Negated
    present : ConditionGroup → Negated
