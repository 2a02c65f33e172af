-- ===== src/System/Tree.antt =====
-- The methods of internal/system/state.go that look at or copy many files: List, Walk, Glob,
-- CopyRecursive and VirtualUsage. `matches` stands for path.Match without its error.
pub mod Moves
mod Examples
use Prim.Native.String.{◌++◌ as ◌+++◌}
use red_lab.Prelude.{
  ℕ, ◌+◌, String, Bool, false, not, ◌&&◌, ◌||◌, none, some, List, [], ◌∷◌, ◌==◌, if◌then◌else◌,
}
use red_lab.Prelude.GoMap.{GoMap, get, put, get_or, remove_where}
use red_lab.GoLib.Strings.{byte_size, has_prefix, contains, trim_prefix}
use red_lab.GoLib.Path.{dir, base, clean, join_path}
use red_lab.GoLib.Sort.{text_before, sort, sort_by}
use red_lab.System.{
  File, Machine, Result, ok, err, no_such_file, permission_denied, omitting_directory, copy_root,
  same_file, copy_into_itself,
}
use red_lab.System.Paths.{normalize_path}
use red_lab.System.Permissions.{can_read, can_write, file_at, no_file}
use red_lab.System.Files.{Outcome, with_path, ensure_parents, subtree_prefix}

-- `name == p || strings.HasPrefix(name, prefix)`
abbrev pub in_subtree : String → String → Bool
in_subtree p name = name == p || has_prefix name (subtree_prefix p)

-- The test of List: an entry right below the directory.
abbrev pub is_child : String → String → Bool
is_child p name =
    not (name == p)
    && has_prefix name (subtree_prefix p)
    && not (contains (trim_prefix name (subtree_prefix p)) "/")

-- The files whose names pass a test.
unfoldable pub files_where : (String → Bool) → GoMap File → List File
files_where test [] = []
files_where test ((name, file) ∷ files) =
    let rest = files_where test files in if test name then file ∷ rest else rest

abbrev pub path_before : File → File → Bool
path_before a b = text_before a.path b.path

-- List. The user is not used.
unfoldable pub list_files : Machine → String → Result (List File)
list_files m filename = elim (normalize_path filename m.cwd) [
  | err e ↦ err e
  | ok p ↦ elim (get m.files p) [
    | none ↦ err no_such_file
    | some target ↦
        if not target.directory
        then ok (target ∷ [])
        else ok (sort_by path_before (files_where (is_child p) m.files))
  ]
]

-- Walk. The user is not used.
unfoldable pub walk : Machine → String → Result (List File)
walk m root = elim (normalize_path root m.cwd) [
  | err e ↦ err e
  | ok p ↦ elim (get m.files p) [
    | none ↦ err no_such_file
    | some file ↦ ok (sort_by path_before (files_where (in_subtree p) m.files))
  ]
]

module _ (matches : String → String → Bool) where
  -- The loop of Glob.
  unfoldable pub matching : Machine → String → String → GoMap File → List String
  matching m pattern_text user [] = []
  matching m pattern_text user ((name, file) ∷ files) =
      let rest = matching m pattern_text user files in
      if not (can_read m file user) && not file.directory
      then rest
      else if matches pattern_text name
      then name ∷ rest
      else rest

  unfoldable pub glob_files : Machine → String → String → List String
  glob_files m pattern_text user = elim (normalize_path pattern_text m.cwd) [
    | err e ↦ []
    | ok cleaned ↦ sort (matching m cleaned user m.files)
  ]

-- VirtualUsage: the bytes and the number of the files.
unfoldable pub virtual_usage : GoMap File → ℕ × ℕ
virtual_usage [] = (0, 0)
virtual_usage ((name, file) ∷ files) =
    let rest = virtual_usage files in (byte_size file.content + rest.0, 1 + rest.1)

unfoldable pub names_where : (String → Bool) → GoMap File → List String
names_where test [] = []
names_where test ((name, file) ∷ files) =
    let rest = names_where test files in if test name then name ∷ rest else rest

-- The loop of CopyRecursive over the names in a directory.
unfoldable pub copy_entries : String → String → List String → GoMap File → GoMap File
copy_entries src dst [] files = files
copy_entries src dst (name ∷ names) files =
    let entry = get_or files name no_file in
    let target = clean (dst +++ "/" +++ trim_prefix name src) in
    copy_entries src dst names (put files target (record entry { path = target }))

-- The last lines of CopyRecursive, once the parents of `dst` are there and the tests are passed.
unfoldable pub copy_files : String → String → File → Bool → GoMap File → GoMap File
copy_files src dst file move files =
    let copied =
      if not file.directory
      then put files dst (record file { path = dst })
      else copy_entries src dst (sort (names_where (in_subtree src) files)) files in
    if move then remove_where (in_subtree src) copied else copied

-- `existing, exists := s.Files[dst]; exists && user != "root" && !s.canWriteLocked(existing, user)`
abbrev pub bars_copy : Machine → String → String → Bool
bars_copy m dst user = elim (get m.files dst) [
  | none ↦ false
  | some existing ↦ not (user == "root") && not (can_write m existing user)
]

-- CopyRecursive from the test of `dst == src` on.
unfoldable pub copy_to : Machine → String → String → File → String → Bool → Outcome
copy_to m src dst file user move =
    if dst == src
    then (m, some same_file)
    else if file.directory && has_prefix dst (subtree_prefix src)
    then (m, some copy_into_itself)
    else let n = ensure_parents m dst in
      if not (user == "root") && not (can_write n (file_at n (dir dst)) user)
      then (n, some permission_denied)
      else if bars_copy n dst user
      then (n, some permission_denied)
      else (record n { files = copy_files src dst file move n.files }, none)

-- `if existing, exists := s.Files[dst]; exists && existing.Directory { … }`
abbrev pub copy_target : Machine → String → String → String
copy_target m src dst = elim (get m.files dst) [
  | none ↦ dst
  | some existing ↦ if existing.directory then join_path dst (base src) else dst
]

-- CopyRecursive behind the lookup of the source.
unfoldable pub copy_found : Machine → String → String → File → String → Bool → Bool → Outcome
copy_found m src dst file user move recursive =
    if file.directory && not move && not recursive
    then (m, some omitting_directory)
    else if src == "/"
    then (m, some copy_root)
    else if not (can_read m file user) && not (user == "root")
    then (m, some permission_denied)
    else copy_to m src (copy_target m src dst) file user move

unfoldable pub copy_recursive : Machine → String → String → String → Bool → Bool → Outcome
copy_recursive m source destination user move recursive = with_path m source λ src.
    with_path m destination λ dst. elim (get m.files src) [
      | none ↦ (m, some no_such_file)
      | some file ↦ copy_found m src dst file user move recursive
    ]
