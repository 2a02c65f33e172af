-- ===== src/Commands/Registry/Refused.antt =====
-- What the commands on users, services, processes and the network come to for a user who is not root,
-- and what any command that such a user runs keeps.
use Prim.Native.String.{◌++◌ as ◌+++◌}
use red_lab.Prelude.{
  String, Bool, true, false, not, ◌&&◌, ◌≡◌, refl, ap, Option, none, some, List, [], ◌∷◌, ◌==◌,
  if◌then◌else◌, Bool-cases, inl, inr, arith,
}
use red_lab.Prelude.GoMap.{get}
use red_lab.Prelude.Int.{pos}
use red_lab.GoLib.Fmt.{atoi}
use red_lab.System.{Machine, Process, Service, needs_root}
use red_lab.System.Files.{Outcome}
use red_lab.System.Services.Signals.{signal_process}
use red_lab.System.Guarded.{IsKept, IsKept-refl, IsKept-trans, OwnedByRoot, append_journal-IsKept}
use red_lab.System.Guarded.Refused.{
  IsSpared, start_service_refused, stop_service_refused, enable_service_refused, add_user_refused,
  add_user_to_group_refused, allow_firewall_refused, set_selinux_refused, signal_process-IsSpared,
}
use red_lab.Runtime.{Env, CommandResult, failed}
use red_lab.Commands.{Library, Context, fails}
use red_lab.Commands.Identity.{add_groups, run_usermod, run_useradd}
use red_lab.Commands.Services.{
  unit_name, change_service, restart_service, status_text, control, run_systemctl, run_logger,
}
use red_lab.Commands.Network.{
  FirewallCall, query, allow, call_firewall, run_firewall, mode_named, run_setenforce,
}
use red_lab.Commands.Processes.{
  kill_all, kill_operands, run_kill, kill_named, run_killall, is_named,
}
use red_lab.Commands.Registry.Guarded.{Keeps, for_names-IsKept, answer-IsKept}

-- Any of two outcomes.
pub IsKept-if :
    {m : Machine} (b : Bool) (x y : Context × CommandResult)
    → IsKept m x.0.0
    → IsKept m y.0.0
    → IsKept m (if b then x else y).0.0
IsKept-if true x y h k = h
IsKept-if false x y h k = k

pub run_logger-Keeps : Keeps run_logger
unfolding run_logger
run_logger-Keeps c args stdin common owned = append_journal-IsKept c.0 _ _ _ _

module _ (library : Library) where
  add_groups-IsKept :
      (c : Context) (user : String) (groups : List String)
      → (c.1.user == "root") ≡ false
      → IsKept c.0 (add_groups library c user groups).0.0
  unfolding add_groups
  add_groups-IsKept c user groups common = answer-IsKept library c.1 c.0 _ _ _ _ (
      for_names-IsKept _
        (λ m group. rw (add_user_to_group_refused c.1.user common m user group) (IsKept-refl m)) c.0
        groups)

  pub run_usermod-Keeps : Keeps (run_usermod library)
  unfolding run_usermod
  run_usermod-Keeps c [] stdin common owned = IsKept-refl c.0
  run_usermod-Keeps c (flag ∷ []) stdin common owned = IsKept-refl c.0
  run_usermod-Keeps c (flag ∷ names ∷ []) stdin common owned = IsKept-refl c.0
  run_usermod-Keeps c (flag ∷ names ∷ user ∷ args) stdin common owned =
      IsKept-if (not (flag == "-aG") && not (flag == "-G")) _ _ (IsKept-refl c.0)
        (IsKept-if _ _ _ (IsKept-refl c.0) (add_groups-IsKept c user _ common))

  pub run_useradd-Keeps : Keeps (run_useradd library)
  unfolding run_useradd
  run_useradd-Keeps c [] stdin common owned = IsKept-refl c.0
  run_useradd-Keeps c (name ∷ []) stdin common owned =
      rw (add_user_refused c.1.user common c.0 name)
        (IsKept-if _ _ _ (IsKept-refl c.0) (IsKept-refl c.0))
  run_useradd-Keeps c (name ∷ a ∷ args) stdin common owned = IsKept-refl c.0

  restart_service_refused :
      (user : String) (m : Machine) (name : String)
      → (user == "root") ≡ false
      → restart_service m name user ≡ (m, some needs_root)
  unfolding restart_service
  restart_service_refused user m name common =
      rw (restart_service, stop_service_refused user common m name)
        (ap (λ o. (o.0, some needs_root)) (stop_service_refused user common m name))

  change_service_refused :
      (verb user : String) (m : Machine) (name : String)
      → (user == "root") ≡ false
      → change_service verb m name user ≡ (m, some needs_root)
  unfolding change_service
  change_service_refused verb user m name common =
      rw
        (
          start_service_refused user common m name,
          restart_service_refused user m name common,
          stop_service_refused user common m name,
          enable_service_refused user common m name true,
          enable_service_refused user common m name false,
        )
        (same (verb == "start") (verb == "restart") (verb == "stop") (verb == "enable")
          (m, some needs_root))
    where
      same :
          (a b c d : Bool) (o : Outcome)
          → (if a then o else if b then o else if c then o else if d then o else o) ≡ o
      same true b c d o = refl
      same false true c d o = refl
      same false false true d o = refl
      same false false false true o = refl
      same false false false false o = refl

  control-IsKept :
      (env : Env) (verb : String) (all : List String) (m : Machine) (out : String)
      (names : List String)
      → (env.user == "root") ≡ false
      → IsKept m (control library env verb all m out names).0.0
  unfolding control
  control-IsKept env verb all m out [] common = IsKept-refl m
  control-IsKept env verb all m out (n ∷ names) common = elim (Bool-cases (verb == "status")) [
    | inl e ↦ rw e (
        by_service (get m.services (unit_name n))
          (λ text. control-IsKept env verb all m text names common))
    | inr e ↦
        rw (e, change_service_refused verb env.user m (unit_name n) common) rw
          (change_service_refused verb env.user m (unit_name n) common) (ground arith)
  ]
    where
      by_service :
          (o : Option Service)
          → ((text : String) → IsKept m (control library env verb all m text names).0.0)
          → IsKept m
              (elim o as (λ _. Context × CommandResult) [
                | none ↦ (
                  (m, env),
                  failed (pos 4) ("Unit " +++ unit_name n +++ " could not be found.\n"),
                )
                | some s ↦
                    control library env verb all m (out +++ status_text (unit_name n) s) names
              ]).0.0
      by_service none next = IsKept-refl m
      by_service (some s) next = next _

  pub run_systemctl-Keeps : Keeps (run_systemctl library)
  unfolding run_systemctl
  run_systemctl-Keeps c [] stdin common owned = IsKept-refl c.0
  run_systemctl-Keeps c (verb ∷ []) stdin common owned =
      IsKept-if (verb == "daemon-reload") _ _ (IsKept-refl c.0) (IsKept-refl c.0)
  run_systemctl-Keeps c (verb ∷ name ∷ names) stdin common owned =
      control-IsKept c.1 verb _ c.0 "" _ common

  call_firewall-IsKept :
      (c : Context) (call : FirewallCall)
      → (c.1.user == "root") ≡ false
      → IsKept c.0 (call_firewall library c call).0.0
  unfolding call_firewall
  call_firewall-IsKept c (query zone service) common = IsKept-refl c.0
  call_firewall-IsKept c (allow zone service) common =
      rw (allow_firewall_refused c.1.user common c.0 zone service)
        (IsKept-if (service == "") _ _ (IsKept-refl c.0) (IsKept-refl c.0))

  pub run_firewall-Keeps : Keeps (run_firewall library)
  unfolding run_firewall
  run_firewall-Keeps c [] stdin common owned = IsKept-refl c.0
  run_firewall-Keeps c (a ∷ args) stdin common owned = call_firewall-IsKept c _ common

  pub run_setenforce-Keeps : Keeps (run_setenforce library)
  unfolding run_setenforce
  run_setenforce-Keeps c [] stdin common owned = IsKept-refl c.0
  run_setenforce-Keeps c (a ∷ []) stdin common owned =
      rw (set_selinux_refused c.1.user common c.0 (mode_named library a)) (IsKept-refl c.0)
  run_setenforce-Keeps c (a ∷ b ∷ args) stdin common owned = IsKept-refl c.0

  -- A loop that sends a signal and goes on if there is no error.
  after_signal :
      (env : Env) (m : Machine) (o : Outcome) (name : String)
      (next : Machine → Context × CommandResult)
      → IsSpared m o.0
      → ((n : Machine) → OwnedByRoot n.processes → IsKept n (next n).0.0)
      → IsKept m
          (elim o.1 as (λ _. Context × CommandResult) [
            | some e ↦ ((o.0, env), fails library (pos 1) name e)
            | none ↦ next o.0
          ]).0.0
  after_signal env m (n, some e) name next h k = h.kept
  after_signal env m (n, none) name next h k = IsKept-trans h.kept (k n h.owned)

  kill_all-IsKept :
      (env : Env) (signal : String) (operands : List String) (m : Machine) (args : List String)
      → (env.user == "root") ≡ false
      → OwnedByRoot m.processes
      → IsKept m (kill_all library env signal operands m args).0.0
  unfolding kill_all
  kill_all-IsKept env signal operands m [] common owned = IsKept-refl m
  kill_all-IsKept env signal operands m (a ∷ args) common owned =
      IsKept-if (not (atoi a).1) _ _ (IsKept-refl m) (
        after_signal env m (signal_process m (atoi a).0 signal env.user) "kill: "
          (λ n. kill_all library env signal operands n args)
          (signal_process-IsSpared env.user common m (atoi a).0 signal owned)
          (λ n k. kill_all-IsKept env signal operands n args common k))

  kill_operands-IsKept :
      (c : Context) (signal : String) (args : List String)
      → (c.1.user == "root") ≡ false
      → OwnedByRoot c.0.processes
      → IsKept c.0 (kill_operands library c signal args).0.0
  unfolding kill_operands
  kill_operands-IsKept c signal [] common owned = IsKept-refl c.0
  kill_operands-IsKept c signal (a ∷ args) common owned =
      kill_all-IsKept c.1 signal _ c.0 _ common owned

  pub run_kill-Keeps : Keeps (run_kill library)
  unfolding run_kill
  run_kill-Keeps c args stdin common owned = kill_operands-IsKept c _ _ common owned

  kill_named-IsKept :
      (env : Env) (wanted : String) (matched : Bool) (m : Machine) (processes : List Process)
      → (env.user == "root") ≡ false
      → OwnedByRoot m.processes
      → IsKept m (kill_named library env wanted matched m processes).0.0
  unfolding kill_named
  kill_named-IsKept env wanted matched m [] common owned = IsKept-refl m
  kill_named-IsKept env wanted matched m (p ∷ processes) common owned =
      IsKept-if (is_named wanted p) _ _
        (after_signal env m (signal_process m (pos p.pid) "TERM" env.user) "killall: "
          (λ n. kill_named library env wanted true n processes)
          (signal_process-IsSpared env.user common m (pos p.pid) "TERM" owned)
          (λ n k. kill_named-IsKept env wanted true n processes common k))
        (kill_named-IsKept env wanted matched m processes common owned)

  pub run_killall-Keeps : Keeps (run_killall library)
  unfolding run_killall
  run_killall-Keeps c [] stdin common owned = IsKept-refl c.0
  run_killall-Keeps c (wanted ∷ []) stdin common owned =
      kill_named-IsKept c.1 wanted false c.0 _ common owned
  run_killall-Keeps c (wanted ∷ a ∷ args) stdin common owned = IsKept-refl c.0
