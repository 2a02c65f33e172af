-- ===== src/Commands/Identity.antt =====
-- The commands of internal/command/command.go on users: whoami, id, groups, usermod, useradd.
use Prim.Native.String.{◌++◌ as ◌+++◌}
use red_lab.Prelude.{String, Bool, true, not, ◌&&◌, none, some, List, [], ◌∷◌, ◌==◌, if◌then◌else◌}
use red_lab.Prelude.GoMap.{get}
use red_lab.Prelude.Int.{pos}
use red_lab.GoLib.Strings.{has_prefix, join}
use red_lab.GoLib.Lines.{split_on}
use red_lab.GoLib.Strconv.{itoa}
use red_lab.System.Identity.{add_user, add_user_to_group}
use red_lab.Runtime.{CommandResult, failed, done}
use red_lab.Commands.{Library, Context, Handler, Reader, for_names, answer}

unfoldable pub run_whoami : Reader
run_whoami c args stdin = done (c.1.user +++ "\n") []

unfoldable pub run_id : Reader
run_id c args stdin = elim (get c.0.users c.1.user) [
  | none ↦ failed (pos 1) "id: no such user\n"
  | some u ↦
      done
        ("uid="
          +++ itoa u.uid
          +++ "("
          +++ u.name
          +++ ") gid="
          +++ itoa u.gid
          +++ "("
          +++ u.name
          +++ ") groups="
          +++ join "," u.groups
          +++ "\n")
        []
]

unfoldable pub run_groups : Reader
run_groups c args stdin = elim (get c.0.users c.1.user) [
  | none ↦ failed (pos 1) ""
  | some u ↦ done (c.1.user +++ " : " +++ join " " u.groups +++ "\n") []
]

module _ (library : Library) where
  -- runUsermod behind the test of the groups.
  unfoldable pub add_groups : Context → String → List String → Context × CommandResult
  add_groups c user groups =
      answer library c.1 (for_names (λ m group. add_user_to_group m user group c.1.user) c.0 groups)
        (pos 1) "" (done "" (("usergroups:" +++ user) ∷ []))

  abbrev pub first_is_empty : List String → Bool
  first_is_empty [] = true
  first_is_empty (group ∷ groups) = group == ""

  unfoldable pub run_usermod : Handler
  run_usermod c (flag ∷ names ∷ user ∷ args) stdin =
      if not (flag == "-aG") && not (flag == "-G")
      then (c, failed (pos 2) "usermod: usage: usermod -aG GROUP USER\n")
      else if first_is_empty (split_on "," names)
      then (c, failed (pos 2) "usermod: group is required\n")
      else add_groups c user (split_on "," names)
  run_usermod c args stdin = (c, failed (pos 2) "usermod: usage: usermod -aG GROUP USER\n")

  unfoldable pub run_useradd : Handler
  run_useradd c (name ∷ []) stdin =
      if has_prefix name "-"
      then (c, failed (pos 2) "useradd: usage: useradd USER\n")
      else answer library c.1 (add_user c.0 name c.1.user) (pos 1) "useradd: "
          (done "" (("useradd:" +++ name) ∷ []))
  run_useradd c args stdin = (c, failed (pos 2) "useradd: usage: useradd USER\n")
