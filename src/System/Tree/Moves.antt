-- ===== src/System/Tree/Moves.antt =====
-- What copying and moving a file leads to.
use mathlib.Core.Path.{subst}
use red_lab.Prelude.{
  String, Bool, true, false, not, ◌&&◌, ◌≡◌, refl, ap, ◌∙◌, Option, none, some, ◌==◌, eq_refl,
  if◌then◌else◌, arith,
}
use red_lab.Prelude.GoMap.{GoMap, get, get-remove_where}
use red_lab.GoLib.Strings.{has_prefix}
use red_lab.GoLib.Path.{dir}
use red_lab.System.{
  File, Machine, Error, Result, ok, err, no_such_file, permission_denied, omitting_directory,
  copy_root, same_file, copy_into_itself,
}
use red_lab.System.Paths.{normalize_path}
use red_lab.System.Permissions.{can_read, can_write, file_at}
use red_lab.System.Files.{Outcome, with_path, ensure_parents, subtree_prefix}
use red_lab.System.Tree.{copy_files, bars_copy, copy_to, copy_found, copy_target, copy_recursive}

-- An error is not the lack of one.
failed : (m : Machine) (e : Error) → ◌≡◌ {A = Option Error} (some e) none → ⊥
failed m e h = cc

-- Where there is no error the four tests have failed.
passed :
    (a b c d : Bool) (m n : Machine) (w x y z : Error) (o : Outcome)
    → let result =
        if a
        then (m, some w)
        else if b
        then (m, some x)
        else if c
        then (n, some y)
        else if d
        then (n, some z)
        else o in
      result.1 ≡ none → (a ≡ false) × (result ≡ o)
passed true b c d m n w x y z o h = absurd (failed m w h)
passed false true c d m n w x y z o h = absurd (failed m x h)
passed false false true d m n w x y z o h = absurd (failed m y h)
passed false false false true m n w x y z o h = absurd (failed m z h)
passed false false false false m n w x y z o h = (refl, refl)

-- The file is at its new place, and at the old one if it was copied.
abbrev pub IsCopied : Bool → String → String → File → GoMap File → Type 0
IsCopied move src dst file files =
    (get files dst ≡ some (record file { path = dst }))
    × (get files src ≡ (if move then none else some file))

-- What copying comes to where there is no error.
copy_to_done :
    (m : Machine) (src dst : String) (file : File) (user : String) (move : Bool)
    → (copy_to m src dst file user move).1 ≡ none
    → let n = ensure_parents m dst in
      ((dst == src) ≡ false)
      × (copy_to m src dst file user move
          ≡ (record n { files = copy_files src dst file move n.files }, none))
unfolding copy_to
copy_to_done m src dst file user move h =
    let n = ensure_parents m dst in
    passed (dst == src) (file.directory && has_prefix dst (subtree_prefix src))
      (not (user == "root") && not (can_write n (file_at n (dir dst)) user)) (bars_copy n dst user)
      m n same_file copy_into_itself permission_denied permission_denied
      (record n { files = copy_files src dst file move n.files }, none) h

copy_recursive_found :
    (m : Machine) (source target user : String) (move recursive : Bool) (src dst : String)
    (file : File)
    → normalize_path source m.cwd ≡ ok src
    → normalize_path target m.cwd ≡ ok dst
    → get m.files src ≡ some file
    → copy_recursive m source target user move recursive
      ≡ copy_found m src dst file user move recursive
unfolding copy_recursive with_path
copy_recursive_found m source target user move recursive src dst file from to found =
    ap first from ∙ ap second to ∙ ap third found
  where
    third : Option File → Outcome
    third f = elim f [
      | none ↦ (m, some no_such_file)
      | some file ↦ copy_found m src dst file user move recursive
    ]

    second : Result String → Outcome
    second r = elim r [
      | err e ↦ (m, some e)
      | ok dst ↦ elim (get m.files src) [
        | none ↦ (m, some no_such_file)
        | some file ↦ copy_found m src dst file user move recursive
      ]
    ]

    first : Result String → Outcome
    first r = elim r [
      | err e ↦ (m, some e)
      | ok src ↦ with_path m target λ dst. elim (get m.files src) [
        | none ↦ (m, some no_such_file)
        | some file ↦ copy_found m src dst file user move recursive
      ]
    ]

-- A call without an error, on a file that is there.
module _ (m : Machine) (source target user : String) (move recursive : Bool) (src dst : String)
    (file : File) (from : normalize_path source m.cwd ≡ ok src)
    (to : normalize_path target m.cwd ≡ ok dst) (found : get m.files src ≡ some file)
    (plain : file.directory ≡ false)
    (done : (copy_recursive m source target user move recursive).1 ≡ none) where
  copy_recursive_done :
      let place = copy_target m src dst in
      let n = ensure_parents m place in
      ((place == src) ≡ false)
      × ((copy_recursive m source target user move recursive).0.files
          ≡ copy_files src place file move n.files)
  unfolding copy_found
  copy_recursive_done =
      let place = copy_target m src dst in
      let shown =
        copy_recursive_found m source target user move recursive src dst file from to found in
      let tested =
        passed (file.directory && not move && not recursive) (src == "/")
          (not (can_read m file user) && not (user == "root")) false m m omitting_directory
          copy_root permission_denied permission_denied (copy_to m src place file user move)
          (subst (λ o. o.1 ≡ none) shown done) in
      let result = shown ∙ tested.1 in
      let last = copy_to_done m src place file user move (subst (λ o. o.1 ≡ none) result done) in
      (last.0, ap (λ o. o.0.files) (result ∙ last.1))

-- A file that is no directory and is moved without an error to a path below its own is lost: neither
-- path holds a file afterwards.
pub copy_recursive_lost :
    (m : Machine) (source target user : String) (recursive : Bool) (src dst : String) (file : File)
    → normalize_path source m.cwd ≡ ok src
    → normalize_path target m.cwd ≡ ok dst
    → get m.files src ≡ some file
    → file.directory ≡ false
    → has_prefix (copy_target m src dst) (subtree_prefix src) ≡ true
    → (copy_recursive m source target user true recursive).1 ≡ none
    → let files = (copy_recursive m source target user true recursive).0.files in
      (get files src ≡ none) × (get files (copy_target m src dst) ≡ none)
unfolding copy_files
copy_recursive_lost m source target user recursive src dst file from to found plain inside done =
    rw
      (copy_recursive_done m source target user true recursive src dst file from to found plain
        done).1
      (rw get-remove_where rw eq_refl refl, rw get-remove_where rw inside ground arith)
