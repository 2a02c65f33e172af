-- ===== src/Samples.antt =====
-- A small machine, scenario and session, on which the tests of the modules run.
use red_lab.Prelude.{String, true, false, Option, none, some, [], ◌∷◌}
use red_lab.Prelude.Int.{pos, negsuc}
use red_lab.Scenario.{ScenarioSpec, HintSpec}
use red_lab.Scenario.Conditions.{ConditionGroup, group, nil, cons, absent, present, Leaf}
use red_lab.System.{File, User, Service, Machine}
use red_lab.System.Net.{Url}
use red_lab.Evidence.Chain.{empty}
use red_lab.Runtime.{Session}

abbrev pub owned_file : String → String → String → File
owned_file path owner content = record {
  path = path;
  content = content;
  owner = owner;
  group = owner;
  mode = 0o644;
  selinux_type = "";
  directory = false;
}

abbrev pub trainee : User
trainee = record {
  name = "trainee";
  uid = pos 1000;
  gid = pos 1000;
  groups = "trainee" ∷ [];
  shell = "/bin/bash";
  password = "";
}

abbrev pub httpd : Service
httpd = record {
  name = "httpd";
  enabled = true;
  state = "running";
  start_conditions = [];
  on_failure = record { journal = [] };
}

abbrev pub host : Machine
host = record {
  hostname = "web01";
  clock = 100;
  files =
      ("/motd", owned_file "/motd" "root" "hello")
      ∷ ("/note", owned_file "/note" "trainee" "mine")
      ∷ [];
  users = ("trainee", trainee) ∷ [];
  sudo_rules = [];
  services = ("httpd", httpd) ∷ [];
  processes = [];
  journal = [];
  network = record {
    interfaces = [];
    dns = record { servers = []; records = [] };
    default_zone = "public";
    zones = [];
    hosts = [];
    open_ports = [];
    http = [];
  };
  selinux = record { mode = "enforcing"; booleans = [] };
  packages = [];
  env = ("HOME", "/home/trainee") ∷ [];
  current_user = "trainee";
  cwd = "/";
  architecture = "x86_64";
}

abbrev pub no_url : String → Option Url
no_url text = none

abbrev pub blank_leaf : Leaf
blank_leaf = record {
  kind = "";
  name = "";
  user = "";
  group = "";
  path = "";
  pattern_text = "";
  zone = "";
  service = "";
  value = "";
  url = "";
  status = pos 0;
  values = [];
}

abbrev pub service_runs : String → ConditionGroup
service_runs name =
    group (record blank_leaf { kind = "serviceRunning"; name = name }) nil nil absent

abbrev pub permissive : ConditionGroup
permissive = group (record blank_leaf { kind = "selinuxMode"; value = "permissive" }) nil nil absent

-- `all: [service running, not: permissive]`
abbrev pub repaired : ConditionGroup
repaired =
    group blank_leaf
      (cons (service_runs "httpd") (cons (group blank_leaf nil nil (present permissive)) nil)) nil
      absent

abbrev pub hint_one : HintSpec
hint_one = record { id = "one"; cost = pos 5; unlock_after = pos 0; text = "Look at the logs." }

abbrev pub spec : ScenarioSpec
spec = record {
  rhel = record {
    major = pos 9;
    minor_profile = "";
    hostname = "web01";
    architecture = "x86_64";
    selinux = "enforcing";
    command_packs = [];
  };
  briefing = record {
    difficulty = "";
    duration = pos 0;
    summary = "";
    objectives_shown_to_participants = [];
  };
  actors = record { initial_user = "trainee"; users = []; sudo = [] };
  filesystem = record { templates = []; entries = [] };
  packages = record { installed = [] };
  services = [];
  network = record {
    interfaces = [];
    dns = record { servers = []; records = [] };
    firewall = record { default_zone = "public"; zones = [] };
    simulated_hosts = [];
  };
  faults = [];
  rules = [];
  objectives =
      record { id = "up"; title = "Up"; points = pos 60; checks = repaired; response = none } ∷ [];
  guardrails = record { id = "se"; severity = ""; points = negsuc 9; when = permissive } ∷ [];
  hints = hint_one ∷ [];
  scoring = record {
    automated_maximum = pos 60;
    judge_maximum = pos 40;
    completion_bonus = pos 0;
    minimum_passing_score = pos 50;
  };
  judge_rubrics = [];
  reference_solution = [];
  reference_solutions = [];
}

abbrev pub session : Session
session = record {
  id = "s1";
  team_id = "t1";
  scenario = record {
    api_version = "";
    kind = "";
    metadata = record { id = "web"; title = ""; version = ""; authors = []; tags = [] };
    spec = spec;
  };
  state = record { machine = host; initial = some host };
  chain = empty;
  history = [];
  transcript = "";
  notes = [];
  root_cause = "";
  resolution = "";
  hints = [];
  hint_cost = pos 0;
  started = 100;
  submitted = false;
  submitted_at = 0;
  judge_score = pos 0;
  judge_notes = "";
  judged = false;
  secrets = [];
}
