-- ===== src/System/Identity.antt =====
-- The methods AddUser and AddUserToGroup of internal/system/state.go, and the files that list the
-- users, of internal/system/basefs.go. Go leaves open the order in which renderGroup walks over the
-- users; here it is the order of the map.
pub mod Fresh
use Prim.Native.String.{◌++◌ as ◌+++◌}
use red_lab.Prelude.{
  ℕ, suc, ◌+◌, String, Bool, true, false, not, ◌&&◌, ◌||◌, none, some, List, [], ◌∷◌, ◌++◌, ◌==◌,
  if◌then◌else◌,
}
use red_lab.Prelude.GoMap.{GoMap, get, put, get_or, keys}
use red_lab.Prelude.Int.{ℤ, pos, ◌+ℤ◌, ltb_ℤ, eqb_ℤ, wrap64}
use red_lab.GoLib.Strings.{join}
use red_lab.GoLib.Sort.{text_before, sort, sort_by}
use red_lab.GoLib.Strconv.{itoa}
use red_lab.System.{
  File, User, Machine, needs_root, no_such_user, empty_group, empty_user, user_exists,
}
use red_lab.System.Permissions.{member}
use red_lab.System.Files.{Outcome}

unfoldable pub user_home : String → String
user_home name = if name == "root" then "/root" else "/home/" +++ name

abbrev pub default_string : String → String → String
default_string value fallback = if value == "" then fallback else value

-- sortedUsers, whose order is by UID and then by name.
abbrev pub user_before : User → User → Bool
user_before a b = ltb_ℤ a.uid b.uid || (eqb_ℤ a.uid b.uid && text_before a.name b.name)

unfoldable pub users_of : GoMap User → List User
users_of [] = []
users_of ((name, u) ∷ users) = u ∷ users_of users

abbrev pub sorted_users : GoMap User → List User
sorted_users users = sort_by user_before (users_of users)

abbrev pub passwd_line : User → String
passwd_line u =
    u.name
    +++ ":x:"
    +++ itoa u.uid
    +++ ":"
    +++ itoa u.gid
    +++ ":"
    +++ u.name
    +++ ":"
    +++ user_home u.name
    +++ ":"
    +++ default_string u.shell "/bin/bash"
    +++ "\n"

unfoldable pub passwd_lines : List User → String
passwd_lines [] = ""
passwd_lines (u ∷ users) = passwd_line u +++ passwd_lines users

unfoldable pub render_passwd : GoMap User → String
render_passwd users = passwd_lines (sorted_users users)

abbrev pub append_unique : List String → String → List String
append_unique values value = if member value values then values else values ++ value ∷ []

-- `groups[group] = appendUnique(groups[group], name)`
abbrev pub join_group : String → String → GoMap (List String) → GoMap (List String)
join_group name group groups = put groups group (append_unique (get_or groups group []) name)

unfoldable pub join_groups : String → List String → GoMap (List String) → GoMap (List String)
join_groups name [] groups = groups
join_groups name (group ∷ rest) groups = join_groups name rest (join_group name group groups)

-- The first loop of renderGroup.
unfoldable pub collect_groups : GoMap User → GoMap (List String) → GoMap (List String)
collect_groups [] groups = groups
collect_groups ((key, u) ∷ users) groups =
    collect_groups users (join_groups u.name u.groups (join_group u.name u.name groups))

abbrev pub group_id : GoMap User → ℕ → String → ℤ
group_id users i name =
    if name == "root"
    then pos 0
    else elim (get users name) [ none ↦ pos (1000 + i) | some u ↦ u.gid ]

-- The loop of renderGroup over the names, from the index `i` on.
unfoldable pub group_lines : GoMap User → GoMap (List String) → ℕ → List String → String
group_lines users groups i [] = ""
group_lines users groups i (name ∷ names) =
    name
    +++ ":x:"
    +++ itoa (group_id users i name)
    +++ ":"
    +++ join "," (get_or groups name [])
    +++ "\n"
    +++ group_lines users groups (suc i) names

unfoldable pub render_group : GoMap User → String
render_group users =
    let groups = collect_groups users (("root", []) ∷ []) in
    group_lines users groups 0 (sort (keys groups))

abbrev pub set_content : GoMap File → String → String → GoMap File
set_content files name text = elim (get files name) [
  | none ↦ files
  | some file ↦ put files file.path (record file { content = text })
]

-- syncIdentityFilesLocked
unfoldable pub sync_identity : Machine → Machine
sync_identity m = record m {
  files =
      set_content (set_content m.files "/etc/passwd" (render_passwd m.users)) "/etc/group"
        (render_group m.users);
}

unfoldable pub add_user_to_group : Machine → String → String → String → Outcome
add_user_to_group m user group actor =
    if not (actor == "root") then (m, some needs_root) else elim (get m.users user) [
      | none ↦ (m, some no_such_user)
      | some u ↦
          if group == ""
          then (m, some empty_group)
          else if member group u.groups
          then (m, none)
          else (
            sync_identity (record m {
              users = put m.users user (record u { groups = u.groups ++ group ∷ [] });
            }),
            none,
          )
    ]

-- The loop of AddUser: one more than the greatest UID from `uid` on.
unfoldable pub free_uid : ℤ → List User → ℤ
free_uid uid [] = uid
free_uid uid (u ∷ users) = free_uid (if ltb_ℤ u.uid uid then uid else wrap64 (u.uid +ℤ pos 1)) users

abbrev pub home_file : String → String → String → ℕ → Bool → String → File
home_file p name content mode directory selinux_type = record {
  path = p;
  content = content;
  owner = name;
  group = name;
  mode = mode;
  selinux_type = selinux_type;
  directory = directory;
}

abbrev pub with_home : GoMap File → String → GoMap File
with_home files name =
    let home = user_home name in
    let profile = home +++ "/.bash_profile" in
    let bashrc = home +++ "/.bashrc" in
    put
      (put (put files home (home_file home name "" 0o750 true "user_home_dir_t")) profile (
        home_file profile name "# .bash_profile\nif [ -f ~/.bashrc ]; then . ~/.bashrc; fi\n" 0o644
          false "user_home_t"))
      bashrc
      (home_file bashrc name "# .bashrc\nif [ -f /etc/bashrc ]; then . /etc/bashrc; fi\n" 0o644
        false "user_home_t")

abbrev pub new_user : String → ℤ → User
new_user name uid = record {
  name = name;
  uid = uid;
  gid = uid;
  groups = name ∷ [];
  shell = "/bin/bash";
  password = "";
}

unfoldable pub add_user : Machine → String → String → Outcome
add_user m name actor =
    if not (actor == "root")
    then (m, some needs_root)
    else if name == ""
    then (m, some empty_user)
    else elim (get m.users name) [
      | some u ↦ (m, some user_exists)
      | none ↦ (
        sync_identity (record m {
          users = put m.users name (new_user name (free_uid (pos 1000) (users_of m.users)));
          files = with_home m.files name;
        }),
        none,
      )
    ]
