-- ===== src/Scenario/Event.antt =====
-- The event document of internal/scenario/types.go.
use red_lab.Prelude.{String, Bool, List}
use red_lab.Scenario.{DocumentMeta}
use red_lab.Prelude.Int.{ℤ}
use red_lab.GoLib.Time.{Time, Duration}

pub record Schedule : Type 0 where
  pub timezone : String
  pub opens_at : Time
  pub submissions_close_at : Time

pub record EventScenario : Type 0 where
  pub package_name : String
  pub enabled : Bool

pub record SessionsSpec : Type 0 where
  pub assignment : String
  pub allow_restart : Bool
  pub max_restarts : ℤ
  pub idle_timeout : Duration
  pub max_concurrent : ℤ

pub record TeamsSpec : Type 0 where
  pub source : String
  pub join_code_mode : String
  pub max_members : ℤ

pub record EventScoring : Type 0 where
  pub hints_enabled : Bool
  pub live_score_visible : Bool
  pub tiebreakers : List String

pub record ReportsSpec : Type 0 where
  pub formats : List String
  pub include_transcript : Bool
  pub include_state_diff : Bool
  pub redact_secrets : Bool

pub record TlsSpec : Type 0 where
  pub mode : String
  pub certificate : String
  pub key : String

pub record ServerSpec : Type 0 where
  pub listen : String
  pub tls : TlsSpec
  pub database : String

pub record EventSpec : Type 0 where
  pub schedule : Schedule
  pub scenarios : List EventScenario
  pub teams : TeamsSpec
  pub sessions : SessionsSpec
  pub scoring : EventScoring
  pub reports : ReportsSpec
  pub server : ServerSpec

pub record Event : Type 0 where
  pub api_version : String
  pub kind : String
  pub metadata : DocumentMeta
  pub spec : EventSpec
