-- ===== src/System/Services.antt =====
-- The services and the journal of internal/system/state.go.
pub mod InSync
pub mod Started
pub mod Signals
use Prim.Native.Nat.{◌*◌}
use Prim.Native.String.{◌++◌ as ◌+++◌}
use red_lab.Prelude.{
  ℕ, zero, suc, ◌+◌, ltb, eqb, code, String, Bool, true, false, not, ◌&&◌, ◌||◌, Option, none, some,
  List, [], ◌∷◌, ◌++◌, map, ◌==◌, if◌then◌else◌,
}
use red_lab.Prelude.GoMap.{GoMap, get, put, get_or, remove_where}
use red_lab.GoLib.Strings.{contains, has_suffix}
use red_lab.GoLib.Path.{split}
use red_lab.Scenario.{ConditionSpec, JournalSpec, InterfaceSpec}
use red_lab.System.{
  File, Service, Process, JournalEntry, FirewallZone, Machine, Error, needs_root, no_such_unit,
  start_condition,
}
use red_lab.System.Files.{Outcome}
use red_lab.System.Processes.{rebuild_processes}

-- conditionLocked
unfoldable pub condition : Machine → ConditionSpec → Bool
condition m c =
    if c.kind == "fileContains"
    then elim (get m.files c.path) [ none ↦ false | some f ↦ contains f.content c.pattern_text ]
    else if c.kind == "selinuxAllows"
    then not (m.selinux.mode == "disabled")
    else if c.kind == "serviceRunning"
    then elim (get m.services c.name) [ none ↦ false | some s ↦ s.state == "running" ]
    else if c.kind == "firewallServiceAllowed"
    then elim (get m.network.zones c.zone) [
      | none ↦ false
      | some z ↦ get_or z.services c.service false
    ]
    else false

unfoldable pub append_journal : Machine → String → String → String → String → Machine
append_journal m actor unit priority message =
    let entry : JournalEntry = record {
      timestamp = m.clock;
      priority = priority;
      unit = unit;
      message = message;
      actor = actor;
    } in
    record m { journal = m.journal ++ entry ∷ [] }

unfoldable pub journal_entries : String → List JournalEntry → List JournalEntry
journal_entries unit [] = []
journal_entries unit (e ∷ es) =
    let rest = journal_entries unit es in if unit == "" || e.unit == unit then e ∷ rest else rest

abbrev pub is_web : String → Bool
is_web name = name == "httpd.service" || name == "httpd"

-- `strings.Split(addr, "/")[0]`
abbrev pub address_part : String → String
address_part address = elim (split address) [ [] ↦ "" | part ∷ parts ↦ part ]

unfoldable pub open_addresses : List String → GoMap Bool → GoMap Bool
open_addresses [] ports = ports
open_addresses (address ∷ addresses) ports =
    open_addresses addresses (put ports (address_part address +++ ":80") true)

unfoldable pub open_interfaces : List InterfaceSpec → GoMap Bool → GoMap Bool
open_interfaces [] ports = ports
open_interfaces (i ∷ interfaces) ports =
    open_interfaces interfaces (open_addresses i.addresses ports)

unfoldable pub open_zones : List InterfaceSpec → GoMap FirewallZone → GoMap Bool → GoMap Bool
open_zones interfaces [] ports = ports
open_zones interfaces ((name, z) ∷ zones) ports =
    open_zones interfaces zones
      (if get_or z.services "http" false then open_interfaces interfaces ports else ports)

abbrev pub runs : Machine → String → Bool
runs m name = elim (get m.services name) [ none ↦ false | some s ↦ s.state == "running" ]

abbrev pub with_ports : Machine → GoMap Bool → Machine
with_ports m ports = record m { network = record m.network { open_ports = ports } }

-- refreshServiceEffectsLocked
unfoldable pub refresh_effects : Machine → String → Machine
refresh_effects m name =
    if not (is_web name) || not (runs m name)
    then m
    else with_ports m (open_zones m.network.interfaces m.network.zones m.network.open_ports)

-- clearServiceEffectsLocked
unfoldable pub clear_effects : Machine → String → Machine
clear_effects m name =
    if is_web name
    then with_ports m (remove_where (λ key. has_suffix key ":80") m.network.open_ports)
    else m

abbrev pub set_service : Machine → String → Service → Machine
set_service m name s = record m { services = put m.services name s }

unfoldable pub journal_all : Machine → String → String → List JournalSpec → Machine
journal_all m user name [] = m
journal_all m user name (j ∷ js) =
    journal_all (append_journal m user name j.priority j.message) user name js

-- A start condition fails.
unfoldable pub fail_start : Machine → String → String → Service → Outcome
fail_start m name user s = (
  journal_all (set_service m name (record s { state = "failed" })) user name s.on_failure.journal,
  some start_condition,
)

-- All start conditions are met.
unfoldable pub run_service : Machine → String → String → Service → Outcome
run_service m name user s = (
  append_journal
      (refresh_effects (rebuild_processes (set_service m name (record s { state = "running" })))
        name)
      user name "info" ("Started " +++ name),
  none,
)

-- The loop over the start conditions.
unfoldable pub check_start : Machine → String → String → Service → List ConditionSpec → Outcome
check_start m name user s [] = run_service m name user s
check_start m name user s (c ∷ conditions) =
    let rest = check_start m name user s conditions in
    if not (condition m c) then fail_start m name user s else rest

-- The first lines of the three methods below.
unfoldable pub with_service : Machine → String → String → (Service → Outcome) → Outcome
with_service m name user body =
    if not (user == "root")
    then (m, some needs_root)
    else elim (get m.services name) [ none ↦ (m, some no_such_unit) | some s ↦ body s ]

unfoldable pub start_service : Machine → String → String → Outcome
start_service m name user =
    with_service m name user λ s. check_start m name user s s.start_conditions

unfoldable pub stop_service : Machine → String → String → Outcome
stop_service m name user = with_service m name user λ s. (
  append_journal
      (clear_effects (rebuild_processes (set_service m name (record s { state = "stopped" }))) name)
      user name "info" ("Stopped " +++ name),
  none,
)

unfoldable pub enable_service : Machine → String → String → Bool → Outcome
enable_service m name user enabled =
    with_service m name user λ s. (set_service m name (record s { enabled = enabled }), none)
