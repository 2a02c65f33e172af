-- ===== src/Scenario/Package.antt =====
-- The type `Package` of internal/scenario/loader.go.
use red_lab.Prelude.{String}
use red_lab.Prelude.GoMap.{GoMap}
use red_lab.Scenario.{Scenario}

pub record Package : Type 0 where
  pub root : String
  pub files : GoMap String
  pub scenario : Scenario
  pub digest : String
