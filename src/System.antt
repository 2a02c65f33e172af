-- ===== src/System.antt =====
-- internal/system/state.go: the virtual machine that participants work on.
pub mod Paths
pub mod Permissions
pub mod Files
pub mod Net
pub mod Reset
pub mod Sudo
pub mod Directories
pub mod Processes
pub mod Services
pub mod Tree
pub mod Identity
pub mod Guarded
pub mod Base
pub mod New
mod Examples
use red_lab.Prelude.{ℕ, String, Bool, Option, List}
use red_lab.Prelude.GoMap.{GoMap}
use red_lab.Prelude.Int.{ℤ}
use red_lab.GoLib.Time.{Time}
use red_lab.Scenario.{ConditionSpec, FailureSpec, InterfaceSpec, DnsSpec, SimHostSpec, SudoRule}

-- `mode` is a uint32.
pub record File : Type 0 where
  pub path : String
  pub content : String
  pub owner : String
  pub group : String
  pub mode : ℕ
  pub selinux_type : String
  pub directory : Bool

pub record User : Type 0 where
  pub name : String
  pub uid : ℤ
  pub gid : ℤ
  pub groups : List String
  pub shell : String
  pub password : String

pub record Service : Type 0 where
  pub name : String
  pub enabled : Bool
  pub state : String
  pub start_conditions : List ConditionSpec
  pub on_failure : FailureSpec

pub record JournalEntry : Type 0 where
  pub timestamp : Time
  pub priority : String
  pub unit : String
  pub message : String
  pub actor : String

pub record FirewallZone : Type 0 where
  pub interfaces : List String
  pub services : GoMap Bool
  pub ports : GoMap Bool

pub record HttpResponse : Type 0 where
  pub status : ℤ
  pub body : String

pub record Network : Type 0 where
  pub interfaces : List InterfaceSpec
  pub dns : DnsSpec
  pub default_zone : String
  pub zones : GoMap FirewallZone
  pub hosts : List SimHostSpec
  pub open_ports : GoMap Bool
  pub http : GoMap HttpResponse

pub record Selinux : Type 0 where
  pub mode : String
  pub booleans : GoMap Bool

pub record Package : Type 0 where
  pub name : String
  pub version : String

pub record Process : Type 0 where
  pub pid : ℕ
  pub ppid : ℕ
  pub user : String
  pub state : String
  pub cpu_seconds : ℕ
  pub memory_bytes : ℕ
  pub command : String

-- The fields of `State` but for `Initial`.
pub record Machine : Type 0 where
  pub hostname : String
  pub clock : Time
  pub files : GoMap File
  pub users : GoMap User
  pub sudo_rules : List SudoRule
  pub services : GoMap Service
  pub processes : List Process
  pub journal : List JournalEntry
  pub network : Network
  pub selinux : Selinux
  pub packages : GoMap Package
  pub env : GoMap String
  pub current_user : String
  pub cwd : String
  pub architecture : String

-- `Initial` is a snapshot, whose own `Initial` is nil: `cloneUnlocked` clears it.
pub record State : Type 0 where
  pub machine : Machine
  pub open machine use *
  pub initial : Option Machine

-- The errors that the methods return, and below the result of a method that changes the machine: a
-- method can have changed it before it fails.
pub data Error : Type 0 where
  path_is_empty path_escapes no_such_file permission_denied file_exists not_a_directory : Error
  remove_root omitting_directory copy_root same_file copy_into_itself not_permitted bad_mode : Error
  needs_root no_such_unit start_condition invalid_mode zone_conflict bad_url : Error
  cannot_resolve no_such_user empty_group empty_user user_exists no_snapshot : Error
  kill_init : Error

pub data Result {ℓ} (A : Type ℓ) : Type ℓ where
  ok : (value : A) → Result A
  err : (error : Error) → Result A
