-- ===== src/Commands/Registry/Sequence.antt =====
-- Commands that users run one after the other on one machine, each in an environment of its own.
use red_lab.Prelude.{String, false, ◌≡◌, refl, ap, List, [], ◌∷◌, ◌==◌, All, ◌∙◌}
use red_lab.System.{Machine}
use red_lab.System.Sudo.{sudo_allowed}
use red_lab.System.Guarded.{IsKept, IsKept-refl, IsKept-trans, OwnedByRoot}
use red_lab.Runtime.{Env}
use red_lab.Commands.{Library, Handler}
use red_lab.Commands.Shell.{Entry}
use red_lab.Commands.Registry.{run_core}
use red_lab.Commands.Registry.Kept.{run_core-IsKept}

-- A call of `Registry.Run`.
pub record Call : Type 0 where
  pub name : String
  pub env : Env
  pub args : List String
  pub stdin : String

-- The user of the call is not root, the rules of sudo allow that user nothing on the machine, and the
-- command is not `lab`.
abbrev pub IsCommon : Machine → Call → Type 0
IsCommon m call =
    ((call.env.user == "root") ≡ false)
    × ((command : String) → sudo_allowed m call.env.user command ≡ false)
    × ((call.name == "lab") ≡ false)

-- What is root's decides what the rules of sudo allow.
sudo_allowed-IsKept :
    (m n : Machine) (user command : String)
    → IsKept m n
    → sudo_allowed n user command ≡ sudo_allowed m user command
unfolding sudo_allowed
sudo_allowed-IsKept m n user command h =
    ap (λ users. sudo_allowed (record m { users = users; sudo_rules = n.sudo_rules }) user command)
      h.users
    ∙ ap (λ rules. sudo_allowed (record m { sudo_rules = rules }) user command) h.sudo_rules

IsCommon-IsKept :
    (m n : Machine) (calls : List Call)
    → IsKept m n
    → All (IsCommon m) calls
    → All (IsCommon n) calls
IsCommon-IsKept m n [] h all = tt
IsCommon-IsKept m n (call ∷ calls) h ((common, denied, other), all) = (
  (common, (λ command. sudo_allowed-IsKept m n call.env.user command h ∙ denied command), other),
  IsCommon-IsKept m n calls h all,
)

module _ (library : Library) (catalog : List Entry) (lab : Handler) where
  unfoldable pub run_calls : Machine → List Call → Machine
  run_calls m [] = m
  run_calls m (call ∷ calls) =
      run_calls (run_core library catalog lab call.name (m, call.env) call.args call.stdin).0.0
        calls

  -- Where root owns the processes, any sequence of calls by users who are not root and whom the rules
  -- of sudo allow nothing at the start, none of them of `lab`, keeps the users, the rules, the
  -- services, the network, SELinux and the packages as they are, and the processes root's, whatever
  -- the arguments and inputs; and what the rules of sudo allow anyone is afterwards what it was before.
  pub run_calls-IsKept :
      (m : Machine) (calls : List Call)
      → All (IsCommon m) calls
      → OwnedByRoot m.processes
      → IsKept m (run_calls m calls)
        × ((user command : String)
            → sudo_allowed (run_calls m calls) user command ≡ sudo_allowed m user command)
  unfolding run_calls
  run_calls-IsKept m [] all owned = (IsKept-refl m, λ user command. refl)
  run_calls-IsKept m (call ∷ calls) ((common, denied, other), all) owned =
      let n = (run_core library catalog lab call.name (m, call.env) call.args call.stdin).0.0 in
      let one =
        run_core-IsKept library catalog lab call.name (m, call.env) call.args call.stdin common
          denied owned other in
      let rest = run_calls-IsKept n calls (IsCommon-IsKept m n calls one all) (one.owned owned) in
      (
        IsKept-trans one rest.0,
        λ user command. rest.1 user command ∙ sudo_allowed-IsKept m n user command one,
      )
