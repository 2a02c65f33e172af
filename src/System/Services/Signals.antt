-- ===== src/System/Services/Signals.antt =====
-- `SignalProcess` of internal/system/state.go. Go leaves open the order in which it walks over the
-- services; here it is the order of the map.
use Prim.Native.String.{◌++◌ as ◌+++◌}
use red_lab.Prelude.{
  String, Bool, true, false, not, ◌&&◌, ◌≡◌, Option, none, some, List, [], ◌∷◌, ◌==◌, if◌then◌else◌,
}
use red_lab.Prelude.GoMap.{GoMap}
use red_lab.Prelude.Int.{ℤ, pos, ltb_ℤ, eqb_ℤ}
use red_lab.System.{Service, Process, Machine, Error, kill_init, not_permitted}
use red_lab.System.Files.{Outcome}
use red_lab.System.Processes.{unit_path, rebuild_processes}
use red_lab.System.Services.{append_journal, clear_effects, set_service}
use red_lab.System.Services.InSync.{InSync, rebuilt_InSync}

-- The loop over the services, for a process that the user may signal.
unfoldable pub stop_units : Machine → String → String → Process → GoMap Service → Machine
stop_units m signal user process [] = m
stop_units m signal user process ((name, s) ∷ services) =
    let stopped =
      append_journal (clear_effects (set_service m name (record s { state = "stopped" })) name) user
        name "warning" ("Stopped " +++ name +++ " after signal " +++ signal) in
    stop_units (if process.command == unit_path name then stopped else m) signal user process
      services

-- The loop over the processes, and the lines behind it.
unfoldable pub signal_all : Machine → ℤ → String → String → List Process → Outcome
signal_all m pid signal user [] = (rebuild_processes m, none)
signal_all m pid signal user (process ∷ processes) =
    let other = signal_all m pid signal user processes in
    let signalled =
      signal_all (stop_units m signal user process m.services) pid signal user processes in
    if not (eqb_ℤ (pos process.pid) pid)
    then other
    else if not (user == "root") && not (user == process.user)
    then (m, some not_permitted)
    else signalled

unfoldable pub signal_process : Machine → ℤ → String → String → Outcome
signal_process m pid signal user =
    if not (ltb_ℤ (pos 1) pid)
    then (m, some kill_init)
    else signal_all m pid signal user m.processes

-- An outcome that is in sync unless it is an error.
Synced : Outcome → Type 0
Synced o = o.1 ≡ none → InSync o.0

Synced-error : (m : Machine) (e : Error) → Synced (m, some e)
unfolding Synced
Synced-error m e h = absurd (clash h)
  where
    clash : ◌≡◌ {A = Option Error} (some e) none → ⊥
    clash h = cc

Synced-if : (b : Bool) (x y : Outcome) → Synced x → Synced y → Synced (if b then x else y)
Synced-if true x y h k = h
Synced-if false x y h k = k

signal_all-Synced :
    (m : Machine) (pid : ℤ) (signal user : String) (processes : List Process)
    → Synced (signal_all m pid signal user processes)
unfolding signal_all
signal_all-Synced m pid signal user [] = unfold Synced in λ e. rebuilt_InSync m
signal_all-Synced m pid signal user (process ∷ processes) =
    Synced-if (not (eqb_ℤ (pos process.pid) pid)) _ _
      (signal_all-Synced m pid signal user processes)
      (Synced-if (not (user == "root") && not (user == process.user)) _ _
        (Synced-error m not_permitted)
        (signal_all-Synced (stop_units m signal user process m.services) pid signal user processes))

-- SignalProcess keeps the process table in step with the services where it returns no error.
signal_process-InSync :
    (m : Machine) (pid : ℤ) (signal user : String)
    → (signal_process m pid signal user).1 ≡ none
    → InSync (signal_process m pid signal user).0
unfolding signal_process Synced
signal_process-InSync m pid signal user =
    Synced-if (not (ltb_ℤ (pos 1) pid)) (m, some kill_init) _ (Synced-error m kill_init)
      (signal_all-Synced m pid signal user m.processes)
