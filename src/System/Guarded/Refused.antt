-- ===== src/System/Guarded/Refused.antt =====
-- What the methods of internal/system/state.go that are root's come to for another user.
use red_lab.Prelude.{
  ℕ, suc, String, Bool, true, false, not, ◌≡◌, refl, some, List, [], ◌∷◌, ◌==◌, if◌then◌else◌,
}
use red_lab.Prelude.GoMap.{GoMap}
use red_lab.Prelude.Int.{ℤ, pos, eqb_ℤ, ltb_ℤ}
use red_lab.System.{Service, Process, Machine, needs_root}
use red_lab.System.Files.{Outcome}
use red_lab.System.Processes.{process_table, service_processes, rebuild_processes}
use red_lab.System.Services.{with_service, start_service, stop_service, enable_service}
use red_lab.System.Services.Signals.{signal_all, signal_process}
use red_lab.System.Net.{allow_firewall, set_selinux}
use red_lab.System.Identity.{add_user, add_user_to_group}
use red_lab.System.Guarded.{IsKept, IsKept-refl, OwnedByRoot}

service_processes-OwnedByRoot :
    (index : ℕ) (names : List String) → OwnedByRoot (service_processes index names)
unfolding service_processes
service_processes-OwnedByRoot index [] = tt
service_processes-OwnedByRoot index (name ∷ names) =
    (refl, service_processes-OwnedByRoot (suc index) names)

pub process_table-OwnedByRoot : (services : GoMap Service) → OwnedByRoot (process_table services)
unfolding process_table
process_table-OwnedByRoot services = (refl, service_processes-OwnedByRoot 0 _)

-- The second machine has what is root's from the first, and root owns its processes.
pub record IsSpared (m n : Machine) : Type 0 where
  pub kept : IsKept m n
  pub owned : OwnedByRoot n.processes

IsSpared-if :
    (m : Machine) (b : Bool) (x y : Outcome)
    → IsSpared m x.0
    → IsSpared m y.0
    → IsSpared m (if b then x else y).0
IsSpared-if m true x y h k = h
IsSpared-if m false x y h k = k

-- What a user who is not root can do.
module _ (user : String) (common : (user == "root") ≡ false) where
  with_service_refused :
      (m : Machine) (name : String) (body : Service → Outcome)
      → with_service m name user body ≡ (m, some needs_root)
  unfolding with_service
  with_service_refused m name body = rw common refl

  pub start_service_refused :
      (m : Machine) (name : String) → start_service m name user ≡ (m, some needs_root)
  unfolding start_service
  start_service_refused m name = with_service_refused m name _

  pub stop_service_refused :
      (m : Machine) (name : String) → stop_service m name user ≡ (m, some needs_root)
  unfolding stop_service
  stop_service_refused m name = with_service_refused m name _

  pub enable_service_refused :
      (m : Machine) (name : String) (enabled : Bool)
      → enable_service m name user enabled ≡ (m, some needs_root)
  unfolding enable_service
  enable_service_refused m name enabled = with_service_refused m name _

  pub add_user_refused : (m : Machine) (name : String) → add_user m name user ≡ (m, some needs_root)
  unfolding add_user
  add_user_refused m name = rw common refl

  pub add_user_to_group_refused :
      (m : Machine) (name group : String)
      → add_user_to_group m name group user ≡ (m, some needs_root)
  unfolding add_user_to_group
  add_user_to_group_refused m name group = rw common refl

  pub allow_firewall_refused :
      (m : Machine) (zone service : String)
      → allow_firewall m zone service user ≡ (m, some needs_root)
  unfolding allow_firewall
  allow_firewall_refused m zone service = rw common refl

  pub set_selinux_refused :
      (m : Machine) (mode : String) → set_selinux m mode user ≡ (m, some needs_root)
  unfolding set_selinux
  set_selinux_refused m mode = rw common refl

  signal_all-IsSpared :
      (m : Machine) (pid : ℤ) (signal : String) (processes : List Process)
      → OwnedByRoot m.processes
      → OwnedByRoot processes
      → IsSpared m (signal_all m pid signal user processes).0
  unfolding signal_all rebuild_processes
  signal_all-IsSpared m pid signal [] all owned = record {
    kept = record {
      users = refl;
      sudo_rules = refl;
      services = refl;
      network = refl;
      selinux = refl;
      packages = refl;
      owned = λ h. process_table-OwnedByRoot m.services;
    };
    owned = process_table-OwnedByRoot m.services;
  }
  signal_all-IsSpared m pid signal (p ∷ processes) all owned = rw owned.0 rw common (
      IsSpared-if m (not (eqb_ℤ (pos p.pid) pid)) _ _
        (signal_all-IsSpared m pid signal processes all owned.1)
        (record { kept = IsKept-refl m; owned = all }))

  pub signal_process-IsSpared :
      (m : Machine) (pid : ℤ) (signal : String)
      → OwnedByRoot m.processes
      → IsSpared m (signal_process m pid signal user).0
  unfolding signal_process
  signal_process-IsSpared m pid signal all =
      IsSpared-if m (not (ltb_ℤ (pos 1) pid)) _ _ (record { kept = IsKept-refl m; owned = all })
        (signal_all-IsSpared m pid signal m.processes all all)
