-- ===== src/System/New.antt =====
-- NewState of internal/system/state.go. Its walks over maps have the order of the map.
pub mod Filed
pub mod Entries
pub mod Users
pub mod Settled
pub mod Ready
mod Examples
use Prim.Native.String.{◌++◌ as ◌+++◌}
use red_lab.Prelude.{
  ℕ, String, Bool, true, false, not, ◌&&◌, ◌||◌, Option, none, some, List, [], ◌∷◌, ◌==◌,
  if◌then◌else◌,
}
use red_lab.Prelude.GoMap.{GoMap, get, get_or, put}
use red_lab.Prelude.Int.{pos, eqb_ℤ}
use red_lab.GoLib.Strings.{has_prefix, trim_prefix}
use red_lab.GoLib.Time.{Time}
use red_lab.Scenario.{
  ScenarioSpec, UserSpec, FileSpec, ServiceSpec, PackageSpec, ZoneSpec, RhelSpec, NetworkSpec,
}
use red_lab.Scenario.Package as Loaded
use red_lab.System.{
  File, User, Service, Package, FirewallZone, Network, Selinux, Machine, State, Result, ok, err,
  no_such_user,
}
use red_lab.System.Paths.{normalize_path}
use red_lab.System.Files.{root_directory}
use red_lab.System.Directories.{parse_mode}
use red_lab.System.Identity.{user_home, default_string}
use red_lab.System.Processes.{rebuild_processes}
use red_lab.System.Services.{refresh_effects, journal_all}
use red_lab.System.Base.{place, root_file, install_base}
use red_lab.System.Base.Texts.{hostname_of}

abbrev pub account : UserSpec → User
account u = record {
  name = u.name;
  uid = u.uid;
  gid = if eqb_ℤ u.gid (pos 0) then u.uid else u.gid;
  groups = u.groups;
  shell = u.shell;
  password = u.password;
}

unfoldable pub accounts : List UserSpec → GoMap User → GoMap User
accounts [] users = users
accounts (u ∷ specs) users = accounts specs (put users u.name (account u))

abbrev pub root_account : User
root_account = record {
  name = "root";
  uid = pos 0;
  gid = pos 0;
  groups = "root" ∷ [];
  shell = "/bin/bash";
  password = "";
}

abbrev pub with_root : GoMap User → GoMap User
with_root users = elim (get users "root") [ none ↦ put users "root" root_account | some u ↦ users ]

-- The variables of the current user.
abbrev pub environment : GoMap User → String → String → GoMap String
environment users user hostname =
    let shell : String = elim (get users user) [ none ↦ "" | some u ↦ u.shell ] in
    ("HOME", user_home user)
    ∷ ("USER", user)
    ∷ ("LOGNAME", user)
    ∷ ("SHELL", default_string shell "/bin/bash")
    ∷ ("PWD", user_home user)
    ∷ ("PATH", "/usr/local/sbin:/usr/local/bin:/usr/sbin:/usr/bin:/sbin:/bin")
    ∷ ("LANG", "en_US.UTF-8")
    ∷ ("HOSTNAME", hostname)
    ∷ []

abbrev pub entry_file : String → ℕ → FileSpec → File
entry_file p mode e = record {
  path = p;
  content = e.append;
  owner = default_string e.owner "root";
  group = default_string e.group "root";
  mode = mode;
  selinux_type = e.selinux_type;
  directory = false;
}

-- The loop over the entries of the scenario, with `scenarioEntries`.
unfoldable pub place_entries :
    List FileSpec → GoMap Bool → GoMap File → Result (GoMap File × GoMap Bool)
place_entries [] seen files = ok (files, seen)
place_entries (e ∷ entries) seen files = elim (normalize_path e.path "/") [
  | err x ↦ err x
  | ok p ↦ elim (parse_mode e.mode 0o644) [
    | err x ↦ err x
    | ok mode ↦ place_entries entries (put seen p true) (place (entry_file p mode e) files)
  ]
]

-- The loop over the files of the package.
unfoldable pub place_packaged : GoMap String → GoMap Bool → GoMap File → GoMap File
place_packaged [] seen files = files
place_packaged ((name, content) ∷ packaged) seen files =
    let virtual = "/" +++ trim_prefix name "files/" in
    let skipped = place_packaged packaged seen files in
    let placed = place_packaged packaged seen (place (root_file virtual content 0o644 "") files) in
    if not (has_prefix name "files/") || virtual == "/" || get_or seen virtual false
    then skipped
    else placed

abbrev pub service_of : ServiceSpec → Service
service_of s = record {
  name = s.name;
  enabled = s.enabled;
  state = s.state;
  start_conditions = s.start_conditions;
  on_failure = s.on_failure;
}

unfoldable pub services_of : List ServiceSpec → GoMap Service → GoMap Service
services_of [] services = services
services_of (s ∷ specs) services = services_of specs (put services s.name (service_of s))

unfoldable pub installed : List PackageSpec → GoMap Package → GoMap Package
installed [] packages = packages
installed (p ∷ specs) packages =
    installed specs (put packages p.name (record { name = p.name; version = p.version }))

unfoldable pub slice_set : List String → GoMap Bool → GoMap Bool
slice_set [] out = out
slice_set (v ∷ values) out = slice_set values (put out v true)

abbrev pub zone_of : ZoneSpec → FirewallZone
zone_of z = record {
  interfaces = z.interfaces;
  services = slice_set z.services [];
  ports = slice_set z.ports [];
}

unfoldable pub zones_of : GoMap ZoneSpec → GoMap FirewallZone → GoMap FirewallZone
zones_of [] zones = zones
zones_of ((name, z) ∷ specs) zones = zones_of specs (put zones name (zone_of z))

abbrev pub network_of : NetworkSpec → Network
network_of n = record {
  interfaces = n.interfaces;
  dns = n.dns;
  default_zone = n.firewall.default_zone;
  zones = zones_of n.firewall.zones [];
  hosts = n.simulated_hosts;
  open_ports = [];
  http = [];
}

-- The loop over the services that opens the ports of those that run.
unfoldable pub refresh_all : GoMap Service → Machine → Machine
refresh_all [] m = m
refresh_all ((name, s) ∷ services) m =
    refresh_all services (if s.state == "running" then refresh_effects m s.name else m)

-- The loops over what the services write to the journal.
unfoldable pub journal_failures : List ServiceSpec → Machine → Machine
journal_failures [] m = m
journal_failures (s ∷ specs) m =
    journal_failures specs (journal_all m "" s.name s.on_failure.journal)

-- The machine before the ports, the processes and the journal.
abbrev pub assembled : ScenarioSpec → Time → GoMap User → String → GoMap File → Machine
assembled spec now users user files = record {
  hostname = hostname_of spec.rhel;
  clock = now;
  files = files;
  users = users;
  sudo_rules = spec.actors.sudo;
  services = services_of spec.services [];
  processes = [];
  journal = [];
  network = network_of spec.network;
  selinux = record { mode = default_string spec.rhel.selinux "enforcing"; booleans = [] };
  packages = installed spec.packages.installed [];
  env = environment users user (hostname_of spec.rhel);
  current_user = user;
  cwd = user_home user;
  architecture = default_string spec.rhel.architecture "x86_64";
}

-- The last lines of NewState.
abbrev pub completed : ScenarioSpec → Machine → State
completed spec m =
    let n = journal_failures spec.services (rebuild_processes (refresh_all m.services m)) in
    record { machine = n; initial = some n }

-- `if _, ok := s.Users[initial]; !ok && initial != ""`
abbrev pub is_missing : GoMap User → String → Bool
is_missing users initial =
    elim (get users initial) as (λ _. Bool) [ none ↦ true | some u ↦ false ] && not (initial == "")

unfoldable pub new_state : (Time → String → String) → Loaded.Package → Time → Result State
new_state format_time pkg now =
    let spec = pkg.scenario.spec in
    let users = with_root (accounts spec.actors.users []) in
    let initial = spec.actors.initial_user in
    let user = default_string initial "root" in
    let files = install_base format_time spec now users (("/", root_directory "/") ∷ []) in
    if is_missing users initial
    then err no_such_user
    else elim (place_entries spec.filesystem.entries [] files) [
      | err e ↦ err e
      | ok (placed, seen) ↦
          ok (completed spec (assembled spec now users user (place_packaged pkg.files seen placed)))
    ]
