-- ===== src/Scenario.antt =====
-- The documents that RedLab reads: internal/scenario/types.go. The fields keep the source's names;
-- `kind` is the field `Type`, which is a reserved word here.
pub mod Conditions
pub mod Event
pub mod Package
pub mod Validate
pub mod ValidateEvent
mod Examples
use red_lab.Prelude.{ℕ, String, Bool, Option, List}
use red_lab.Prelude.GoMap.{GoMap}
use red_lab.Prelude.Int.{ℤ}
use red_lab.GoLib.Time.{Duration}
use red_lab.Scenario.Conditions.{ConditionGroup}

pub record DocumentMeta : Type 0 where
  pub id : String
  pub title : String
  pub version : String
  pub authors : List String
  pub tags : List String

pub record RhelSpec : Type 0 where
  pub major : ℤ
  pub minor_profile : String
  pub hostname : String
  pub architecture : String
  pub selinux : String
  pub command_packs : List String

pub record Briefing : Type 0 where
  pub difficulty : String
  pub duration : Duration
  pub summary : String
  pub objectives_shown_to_participants : List String

pub record UserSpec : Type 0 where
  pub name : String
  pub uid : ℤ
  pub gid : ℤ
  pub groups : List String
  pub shell : String
  pub password : String

pub record SudoRule : Type 0 where
  pub subject : String
  pub commands : List String
  pub require_password : Bool

pub record ActorsSpec : Type 0 where
  pub initial_user : String
  pub users : List UserSpec
  pub sudo : List SudoRule

pub record TemplateSpec : Type 0 where
  pub source : String
  pub target : String

pub record FileSpec : Type 0 where
  pub path : String
  pub owner : String
  pub group : String
  pub mode : String
  pub selinux_type : String
  pub append : String

pub record FilesystemSpec : Type 0 where
  pub templates : List TemplateSpec
  pub entries : List FileSpec

pub record PackageSpec : Type 0 where
  pub name : String
  pub version : String

pub record PackagesSpec : Type 0 where
  pub installed : List PackageSpec

pub record ConditionSpec : Type 0 where
  pub kind : String
  pub name : String
  pub path : String
  pub pattern_text : String
  pub zone : String
  pub service : String
  pub subject : String
  pub object : String
  pub permission : String
  pub values : List String

pub record JournalSpec : Type 0 where
  pub priority : String
  pub message : String

pub record FailureSpec : Type 0 where
  pub journal : List JournalSpec

pub record ServiceSpec : Type 0 where
  pub name : String
  pub enabled : Bool
  pub state : String
  pub start_conditions : List ConditionSpec
  pub on_failure : FailureSpec

pub record InterfaceSpec : Type 0 where
  pub name : String
  pub state : String
  pub addresses : List String

pub record ZoneSpec : Type 0 where
  pub interfaces : List String
  pub services : List String
  pub ports : List String

pub record PortSpec : Type 0 where
  pub number : ℤ
  pub protocol : String
  pub state : String
  pub service : String

pub record SimHostSpec : Type 0 where
  pub name : String
  pub address : String
  pub ports : List PortSpec

pub record FirewallSpec : Type 0 where
  pub default_zone : String
  pub zones : GoMap ZoneSpec

pub record DnsSpec : Type 0 where
  pub servers : List String
  pub records : GoMap String

pub record NetworkSpec : Type 0 where
  pub interfaces : List InterfaceSpec
  pub dns : DnsSpec
  pub firewall : FirewallSpec
  pub simulated_hosts : List SimHostSpec

pub record FaultSpec : Type 0 where
  pub id : String
  pub description_for_judges : String
  pub evidence : List String

pub record EffectSpec : Type 0 where
  pub kind : String
  pub address : String
  pub port : ℤ
  pub protocol : String
  pub state : String
  pub url : String
  pub status : ℤ
  pub body : String

pub record RuleSpec : Type 0 where
  pub id : String
  pub when : ConditionGroup
  pub effects : List EffectSpec

pub record ResponseSpec : Type 0 where
  pub kind : String
  pub rubric_id : String

pub record ObjectiveSpec : Type 0 where
  pub id : String
  pub title : String
  pub points : ℤ
  pub checks : ConditionGroup
  pub response : Option ResponseSpec

pub record GuardrailSpec : Type 0 where
  pub id : String
  pub severity : String
  pub points : ℤ
  pub when : ConditionGroup

pub record HintSpec : Type 0 where
  pub id : String
  pub cost : ℤ
  pub unlock_after : Duration
  pub text : String

pub record ScoringSpec : Type 0 where
  pub automated_maximum : ℤ
  pub judge_maximum : ℤ
  pub completion_bonus : ℤ
  pub minimum_passing_score : ℤ

pub record CriterionSpec : Type 0 where
  pub label : String
  pub points : ℤ

pub record RubricSpec : Type 0 where
  pub id : String
  pub maximum : ℤ
  pub criteria : List CriterionSpec

pub record ScenarioSpec : Type 0 where
  pub rhel : RhelSpec
  pub briefing : Briefing
  pub actors : ActorsSpec
  pub filesystem : FilesystemSpec
  pub packages : PackagesSpec
  pub services : List ServiceSpec
  pub network : NetworkSpec
  pub faults : List FaultSpec
  pub rules : List RuleSpec
  pub objectives : List ObjectiveSpec
  pub guardrails : List GuardrailSpec
  pub hints : List HintSpec
  pub scoring : ScoringSpec
  pub judge_rubrics : List RubricSpec
  pub reference_solution : List String
  pub reference_solutions : List (List String)

pub record Scenario : Type 0 where
  pub api_version : String
  pub kind : String
  pub metadata : DocumentMeta
  pub spec : ScenarioSpec
