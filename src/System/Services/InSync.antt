-- ===== src/System/Services/InSync.antt =====
-- The process table lists the services that run.
use red_lab.Prelude.{
  String, Bool, true, false, not, ◌||◌, ◌≡◌, refl, sym, ap, ◌∙◌, inl, inr, Bool-cases, Option, none,
  some, [], ◌∷◌, ◌==◌, eq_iff, if◌then◌else◌,
}
use red_lab.Prelude.GoMap.{GoMap, get, put, remove_where}
use red_lab.GoLib.Strings.{has_suffix}
use red_lab.GoLib.Sort.{sort}
use red_lab.System.{Service, Machine, needs_root, no_such_unit}
use red_lab.System.Files.{Outcome}
use red_lab.System.Processes.{
  process_table, running_names, rebuild_processes, init_process, service_processes,
}
use red_lab.System.Services.{
  append_journal, refresh_effects, clear_effects, with_service, with_ports, open_zones, is_web,
  runs, stop_service, enable_service,
}

pub record InSync (m : Machine) : Type 0 where
  pub table : m.processes ≡ process_table m.services

pub rebuilt_InSync : (m : Machine) → InSync (rebuild_processes m)
unfolding rebuild_processes
rebuilt_InSync m = record { table = refl }

either_InSync : (b : Bool) (m n : Machine) → InSync m → InSync n → InSync (if b then m else n)
either_InSync true m n h k = h
either_InSync false m n h k = k

ports_InSync : (m : Machine) (ports : GoMap Bool) → InSync m → InSync (with_ports m ports)
ports_InSync m ports s = record { table = s.table }

refreshed_InSync : (m : Machine) (name : String) → InSync m → InSync (refresh_effects m name)
unfolding refresh_effects
refreshed_InSync m name s =
    let ports = open_zones m.network.interfaces m.network.zones m.network.open_ports in
    either_InSync (not (is_web name) || not (runs m name)) m (with_ports m ports) s
      (ports_InSync m ports s)

cleared_InSync : (m : Machine) (name : String) → InSync m → InSync (clear_effects m name)
unfolding clear_effects
cleared_InSync m name s =
    let ports = remove_where (λ key. has_suffix key ":80") m.network.open_ports in
    either_InSync (is_web name) (with_ports m ports) m (ports_InSync m ports s) s

pub journal_InSync :
    (m : Machine) (actor unit priority message : String)
    → InSync m
    → InSync (append_journal m actor unit priority message)
unfolding append_journal
journal_InSync m actor unit priority message s = record { table = s.table }

-- A method that looks the service up.
with_service-InSync :
    (m : Machine) (name user : String) (body : Service → Outcome)
    → InSync m
    → ((s : Service) → get m.services name ≡ some s → InSync (body s).0)
    → InSync (with_service m name user body).0
unfolding with_service
with_service-InSync m name user body h k =
    refused (not (user == "root")) (looked_up (get m.services name) refl)
  where
    answer : Option Service → Outcome
    answer o = elim o [ none ↦ (m, some no_such_unit) | some s ↦ body s ]

    refused :
        (b : Bool)
        → InSync (answer (get m.services name)).0
        → InSync (if b then (m, some needs_root) else answer (get m.services name)).0
    refused true g = h
    refused false g = g

    looked_up : (o : Option Service) → get m.services name ≡ o → InSync (answer o).0
    looked_up none e = h
    looked_up (some s) e = k s e

-- StopService keeps the process table in step with the services, whatever its outcome.
stop_service-InSync :
    (m : Machine) (name user : String) → InSync m → InSync (stop_service m name user).0
unfolding stop_service
stop_service-InSync m name user h =
    with_service-InSync m name user _ h
      λ s found. journal_InSync _ user name "info" _ (cleared_InSync _ name (rebuilt_InSync _))

-- A service that is replaced by one in the same state changes nothing in the list of those that run.
running_names-put :
    (services : GoMap Service) (name : String) (s t : Service)
    → get services name ≡ some s
    → t.state ≡ s.state
    → running_names (put services name t) ≡ running_names services
unfolding running_names put get
running_names-put [] name s t found same = absurd (missing found)
  where
    missing : none ≡ some s → ⊥
    missing h = cc
running_names-put ((n, u) ∷ services) name s t found same = elim (Bool-cases (n == name)) [
  | inl e ↦ rw (e, same, (eq_iff n name).0 e, found_here e) refl
  | inr e ↦ rw e (
      ap (λ names. if u.state == "running" then n ∷ names else names)
        (running_names-put services name s t (rw e at found) same))
]
  where
    injected : ◌≡◌ {A = Option Service} (some u) (some s) → s ≡ u
    injected h = cc

    found_here : (n == name) ≡ true → s ≡ u
    found_here e = injected (rw e at found)

-- EnableService keeps the process table in step with the services, whatever its outcome.
enable_service-InSync :
    (m : Machine) (name user : String) (enabled : Bool)
    → InSync m
    → InSync (enable_service m name user enabled).0
unfolding enable_service
enable_service-InSync m name user enabled h = with_service-InSync m name user _ h λ s found.
    record {
      table =
          h.table
          ∙ unfold process_table in
            ap (λ names. init_process ∷ service_processes 0 (sort names))
              (sym
                (running_names-put m.services name s (record s { enabled = enabled }) found refl));
    }
