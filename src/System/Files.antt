-- ===== src/System/Files.antt =====
-- The methods of internal/system/state.go that read and change single files. A method that changes
-- the machine returns the new machine and its error: it may have changed it before it fails.
pub mod Access
use Prim.Native.String.{◌++◌ as ◌+++◌}
use red_lab.Prelude.{
  ℕ, zero, suc, ◌+◌, String, Bool, true, false, not, ◌&&◌, ◌||◌, Option, none, some, List, [], ◌∷◌,
  ◌==◌, if◌then◌else◌,
}
use red_lab.Prelude.GoMap.{GoMap, get, put, remove, remove_where}
use red_lab.GoLib.Strings.{size, has_prefix}
use red_lab.GoLib.Path.{dir}
use red_lab.System.{
  File, Machine, Error, Result, ok, err, no_such_file, permission_denied, file_exists,
  not_a_directory, remove_root, not_permitted,
}
use red_lab.System.Paths.{normalize_path}
use red_lab.System.Permissions.{can_read, can_write, primary_group, file_at}

abbrev pub Outcome : Type 0
Outcome = Machine × Option Error

-- The first lines of every method: the path, or the error of NormalizePath.
unfoldable pub with_path : Machine → String → (String → Outcome) → Outcome
with_path m filename body = elim (normalize_path filename m.cwd) [
  | err e ↦ (m, some e)
  | ok p ↦ body p
]

abbrev pub root_directory : String → File
root_directory p = record {
  path = p;
  content = "";
  owner = "root";
  group = "root";
  mode = 0o755;
  selinux_type = "";
  directory = true;
}

abbrev pub add_directory : String → GoMap File → GoMap File
add_directory p files = elim (get files p) [
  | none ↦ put files p (root_directory p)
  | some f ↦ files
]

-- The loop of ensureParents. Each round takes a component off `current`, so as many rounds as the
-- path has characters are enough.
unfoldable pub ensure_from : ℕ → String → GoMap File → GoMap File
ensure_from zero current files = files
ensure_from (suc rounds) current files =
    let rest = ensure_from rounds (dir current) (add_directory current files) in
    if current == "." || current == "/" then files else rest

unfoldable pub ensure_parents : Machine → String → Machine
ensure_parents m filename = record m {
  files = ensure_from (size filename + 1) (dir filename) m.files;
}

unfoldable pub read_file : Machine → String → String → Result String
read_file m filename user = elim (normalize_path filename m.cwd) [
  | err e ↦ err e
  | ok p ↦ elim (get m.files p) [
    | none ↦ err no_such_file
    | some file ↦
        if file.directory
        then err no_such_file
        else if not (can_read m file user)
        then err permission_denied
        else ok file.content
  ]
]

-- The last lines of WriteFile.
abbrev pub put_content : Machine → String → File → String → Machine
put_content m p file text = record m { files = put m.files p (record file { content = text }) }

-- `File{Path: p, Owner: user, Group: s.primaryGroupLocked(user), Mode: mode, Directory: directory}`
abbrev pub new_file : Machine → String → String → ℕ → Bool → File
new_file m p user mode directory = record {
  path = p;
  content = "";
  owner = user;
  group = primary_group m user;
  mode = mode;
  selinux_type = "";
  directory = directory;
}

-- WriteFile at a path that is not there yet.
unfoldable pub create_file : Machine → String → String → String → Outcome
create_file m p content user =
    let n = ensure_parents m p in
    if not (user == "root") && not (can_write n (file_at n (dir p)) user)
    then (n, some permission_denied)
    else (put_content n p (new_file n p user 0o644 false) content, none)

-- WriteFile at a file that is there.
unfoldable pub overwrite_file : Machine → String → File → String → String → Bool → Outcome
overwrite_file m p existing content user append_mode =
    if not (can_write m existing user) then (m, some permission_denied) else (
      put_content m p existing (if append_mode then existing.content +++ content else content),
      none,
    )

unfoldable pub write_file : Machine → String → String → String → Bool → Outcome
write_file m filename content user append_mode = with_path m filename λ p. elim (get m.files p) [
  | none ↦ create_file m p content user
  | some existing ↦ overwrite_file m p existing content user append_mode
]

unfoldable pub stat : Machine → String → Result File
stat m filename = elim (normalize_path filename m.cwd) [
  | err e ↦ err e
  | ok p ↦ elim (get m.files p) [ none ↦ err no_such_file | some file ↦ ok file ]
]

unfoldable pub make_dir : Machine → String → String → Outcome
make_dir m filename user = with_path m filename λ p. elim (get m.files p) [
  | some f ↦ (m, some file_exists)
  | none ↦
      if not (can_write m (file_at m (dir p)) user)
      then (m, some permission_denied)
      else (record m { files = put m.files p (new_file m p user 0o755 true) }, none)
]

unfoldable pub touch : Machine → String → String → Outcome
touch m filename user = with_path m filename λ p. elim (get m.files p) [
  | some f ↦ (m, none)
  | none ↦
      let n = ensure_parents m p in
      if not (can_write n (file_at n (dir p)) user)
      then (n, some permission_denied)
      else (record n { files = put n.files p (new_file n p user 0o644 false) }, none)
]

-- `strings.TrimSuffix(p, "/") + "/"`
unfoldable pub subtree_prefix : String → String
subtree_prefix p = if p == "/" then "/" else p +++ "/"

unfoldable pub remove_path : Machine → String → File → GoMap File
remove_path m p file =
    let rest =
      if file.directory
      then remove_where (λ name. has_prefix name (subtree_prefix p)) m.files
      else m.files in
    remove rest p

unfoldable pub remove_file : Machine → String → String → Outcome
remove_file m filename user = with_path m filename λ p. elim (get m.files p) [
  | none ↦ (m, some no_such_file)
  | some file ↦
      if p == "/"
      then (m, some remove_root)
      else if not (can_write m (file_at m (dir p)) user)
      then (m, some permission_denied)
      else (record m { files = remove_path m p file }, none)
]

unfoldable pub chown : Machine → String → String → String → String → Outcome
chown m filename owner group user =
    if not (user == "root")
    then (m, some not_permitted)
    else with_path m filename λ p. elim (get m.files p) [
      | none ↦ (m, some no_such_file)
      | some file ↦ (
        record m {
          files =
              put m.files p
                (record file { owner = owner; group = if group == "" then file.group else group });
        },
        none,
      )
    ]

unfoldable pub set_cwd : Machine → String → Outcome
set_cwd m directory = with_path m directory λ p. elim (get m.files p) [
  | none ↦ (m, some no_such_file)
  | some file ↦ if file.directory then (record m { cwd = p }, none) else (m, some no_such_file)
]
