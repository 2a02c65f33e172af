-- ===== src/System/Processes.antt =====
-- The process table of internal/system/state.go, which follows from the services that run.
use Prim.Native.Nat.{◌*◌}
use Prim.Native.String.{◌++◌ as ◌+++◌}
use red_lab.Prelude.{ℕ, suc, ◌+◌, String, List, [], ◌∷◌, ◌==◌, if◌then◌else◌}
use red_lab.Prelude.GoMap.{GoMap}
use red_lab.GoLib.Sort.{sort}
use red_lab.System.{Service, Process, Machine}

unfoldable pub running_names : GoMap Service → List String
running_names [] = []
running_names ((name, s) ∷ services) =
    let rest = running_names services in if s.state == "running" then name ∷ rest else rest

abbrev pub init_process : Process
init_process = record {
  pid = 1;
  ppid = 0;
  user = "root";
  state = "S";
  cpu_seconds = 1;
  memory_bytes = 4096;
  command = "/sbin/init";
}

abbrev pub unit_path : String → String
unit_path name = "/usr/lib/systemd/system/" +++ name

-- The loop over the sorted names, from the index `index` on.
unfoldable pub service_processes : ℕ → List String → List Process
service_processes index [] = []
service_processes index (name ∷ names) =
    record {
      pid = 100 + index;
      ppid = 1;
      user = "root";
      state = "S<";
      cpu_seconds = index + 1;
      memory_bytes = 8192 + index * 1024;
      command = unit_path name;
    }
    ∷ service_processes (suc index) names

unfoldable pub process_table : GoMap Service → List Process
process_table services = init_process ∷ service_processes 0 (sort (running_names services))

unfoldable pub rebuild_processes : Machine → Machine
rebuild_processes m = record m { processes = process_table m.services }
