-- ===== src/Commands/Changes.antt =====
-- The commands of internal/command/command.go that look files up in the machine and change them: ls,
-- stat, tee, mkdir, touch, rm, chmod, chown, cp, mv, rmdir, find, realpath, tree and du.
use Prim.Native.String.{◌++◌ as ◌+++◌}
use red_lab.Prelude.{
  String, Bool, true, false, not, ◌&&◌, ◌||◌, none, some, List, [], ◌∷◌, ◌==◌, if◌then◌else◌,
}
use red_lab.Prelude.Int.{pos}
use red_lab.GoLib.Strings.{byte_size, contains}
use red_lab.GoLib.Lines.{cut_at}
use red_lab.GoLib.Path.{base, last_or}
use red_lab.GoLib.Fmt.{octal_text, pad_left}
use red_lab.System.{File, Machine, Error, ok, err}
use red_lab.System.Paths.{normalize_path}
use red_lab.System.Files.{stat, write_file, make_dir, touch, remove_file, chown}
use red_lab.System.Directories.{make_dir_all, chmod}
use red_lab.System.Tree.{list_files, walk, copy_recursive}
use red_lab.Runtime.{Env, CommandResult, failed, done}
use red_lab.Commands.{Library, Context, Handler, Reader, fails, for_names, answer}
use red_lab.Commands.Files.{
  ls_options, listing, number, without, any_of, is_parents, is_force, is_recursive, forces, Search,
  search_for, missing, find_options, tree_lines, content_size, blocks, du_options,
}

-- What removing a name comes to: `rm` goes on, reports a directory, or fails.
pub data Removal : Type 0 where
  removed : Removal
  is_directory : String → Removal
  refused : Error → Removal

module _ (library : Library) where
  unfoldable pub run_ls : Reader
  run_ls c args stdin =
      let o = ls_options (record { target = "."; long = false; all = false }) args in
      elim (list_files c.0 o.target) [
        | err e ↦ fails library (pos 2) "ls: " e
        | ok files ↦ done (listing o.long o.all files) []
      ]

  unfoldable pub run_stat : Reader
  run_stat c [] stdin = failed (pos 1) "stat: missing operand\n"
  run_stat c (a ∷ args) stdin = elim (stat c.0 (last_or a args)) [
    | err e ↦ fails library (pos 1) "" e
    | ok f ↦
        done
          ("  File: "
            +++ f.path
            +++ "\n  Size: "
            +++ number (byte_size f.content)
            +++ "\n  Mode: ("
            +++ pad_left "0" 4 (octal_text f.mode)
            +++ ")\n  Uid: "
            +++ f.owner
            +++ "\n  Gid: "
            +++ f.group
            +++ "\n")
          []
  ]

  unfoldable pub run_tee : Handler
  run_tee c [] stdin = (c, done stdin [])
  run_tee c (a ∷ args) stdin =
      answer library c.1
        (for_names (λ m name. write_file m name stdin c.1.user false) c.0 (a ∷ args)) (pos 1)
        "tee: " (done stdin (a ∷ args))

  unfoldable pub make_all : Context → Bool → List String → Context × CommandResult
  make_all c parents [] = (c, failed (pos 1) "mkdir: missing operand\n")
  make_all c parents (a ∷ operands) =
      answer library c.1
        (for_names
          (λ m name. if parents then make_dir_all m name c.1.user else make_dir m name c.1.user) c.0
          (a ∷ operands))
        (pos 1) "mkdir: " (done "" (a ∷ operands))

  unfoldable pub run_mkdir : Handler
  run_mkdir c args stdin = make_all c (any_of is_parents args) (without is_parents args)

  unfoldable pub run_touch : Handler
  run_touch c [] stdin = (c, failed (pos 1) "touch: missing file operand\n")
  run_touch c (a ∷ args) stdin =
      answer library c.1 (for_names (λ m name. touch m name c.1.user) c.0 (a ∷ args)) (pos 1)
        "touch: " (done "" (a ∷ args))

  -- The body of the loop of runRM.
  unfoldable pub remove_one : Bool → Bool → String → Machine → String → Machine × Removal
  remove_one recursive force user m name =
      let o = remove_file m name user in
      let removal : Machine × Removal = elim o.1 [
        | none ↦ (o.0, removed)
        | some e ↦
            if force && contains (library.error_text e) "No such file"
            then (o.0, removed)
            else (o.0, refused e)
      ] in
      elim (stat m name) [
        | err e ↦ if force then (m, removed) else removal
        | ok file ↦ if file.directory && not recursive then (m, is_directory name) else removal
      ]

  unfoldable pub remove_names :
      Env → Bool → Bool → List String → Machine → List String → Context × CommandResult
  remove_names env recursive force operands m [] = ((m, env), done "" operands)
  remove_names env recursive force operands m (name ∷ names) =
      let o = remove_one recursive force env.user m name in
      elim o.1 [
        | removed ↦ remove_names env recursive force operands o.0 names
        | is_directory d ↦
            ((o.0, env), failed (pos 1) ("rm: cannot remove '" +++ d +++ "': Is a directory\n"))
        | refused e ↦ ((o.0, env), fails library (pos 1) "rm: " e)
      ]

  unfoldable pub remove_all : Context → Bool → Bool → List String → Context × CommandResult
  remove_all c recursive force [] = (c, failed (pos 1) "rm: missing operand\n")
  remove_all c recursive force (a ∷ operands) =
      remove_names c.1 recursive force (a ∷ operands) c.0 (a ∷ operands)

  unfoldable pub run_rm : Handler
  run_rm c args stdin =
      remove_all c (any_of is_recursive args) (any_of forces args)
        (without (λ a. is_force a || is_recursive a) args)

  unfoldable pub run_chmod : Handler
  run_chmod c (mode ∷ name ∷ names) stdin =
      answer library c.1 (for_names (λ m n. chmod m n mode c.1.user) c.0 (name ∷ names)) (pos 1)
        "chmod: " (done "" (name ∷ names))
  run_chmod c args stdin = (c, failed (pos 1) "chmod: missing operand\n")

  -- `strings.SplitN(a[0], ":", 2)`, with an empty group where there is none
  abbrev pub owner_and_group : String → String × String
  owner_and_group a = elim (cut_at b':' a) [ none ↦ (a, "") | some parts ↦ parts ]

  unfoldable pub run_chown : Handler
  run_chown c (owner ∷ name ∷ names) stdin =
      let o = owner_and_group owner in
      answer library c.1 (for_names (λ m n. chown m n o.0 o.1 c.1.user) c.0 (name ∷ names)) (pos 1)
        "chown: " (done "" (name ∷ names))
  run_chown c args stdin = (c, failed (pos 1) "chown: missing operand\n")

  abbrev pub is_copy_flag : String → Bool
  is_copy_flag a = a == "-r" || a == "-R" || a == "--recursive"

  unfoldable pub copy_operands : Context → Bool → List String → Context × CommandResult
  copy_operands c recursive (source ∷ target ∷ []) =
      answer library c.1 (copy_recursive c.0 source target c.1.user false recursive) (pos 1) "cp: "
        (done "" ((source +++ " -> " +++ target) ∷ []))
  copy_operands c recursive operands = (c, failed (pos 2) "cp: usage: cp [-r] SOURCE DEST\n")

  unfoldable pub run_copy : Handler
  run_copy c args stdin = copy_operands c (any_of is_copy_flag args) (without is_copy_flag args)

  unfoldable pub move_operands : Context → List String → Context × CommandResult
  move_operands c (source ∷ target ∷ []) =
      answer library c.1 (copy_recursive c.0 source target c.1.user true true) (pos 1) "mv: "
        (done "" ((source +++ " -> " +++ target) ∷ []))
  move_operands c operands = (c, failed (pos 2) "mv: usage: mv SOURCE DEST\n")

  unfoldable pub run_move : Handler
  run_move c args stdin = move_operands c (without is_force args)

  -- runRmdir behind the test of the directory.
  unfoldable pub remove_empty : Context → String → Context × CommandResult
  remove_empty c name = elim (list_files c.0 name) [
    | err e ↦ (c, fails library (pos 1) "rmdir: " e)
    | ok [] ↦
        answer library c.1 (remove_file c.0 name c.1.user) (pos 1) "rmdir: " (done "" (name ∷ []))
    | ok (child ∷ children) ↦ (c, failed (pos 1) "rmdir: Directory not empty\n")
  ]

  unfoldable pub run_rmdir : Handler
  run_rmdir c (name ∷ []) stdin = elim (stat c.0 name) [
    | err e ↦ (c, failed (pos 1) "rmdir: directory not found\n")
    | ok file ↦
        if not file.directory
        then (c, failed (pos 1) "rmdir: directory not found\n")
        else remove_empty c name
  ]
  run_rmdir c args stdin = (c, failed (pos 2) "rmdir: usage: rmdir DIRECTORY\n")

  -- The loop of runFind over the files.
  unfoldable pub found_paths : Search → List File → String
  found_paths s [] = ""
  found_paths s (f ∷ files) =
      (if (s.kind == "f" && f.directory) || (s.kind == "d" && not f.directory)
        then ""
        else if not (s.name == "") && not (library.matches s.name (base f.path))
        then ""
        else f.path +++ "\n")
      +++ found_paths s files

  unfoldable pub run_find : Reader
  run_find c args stdin = elim (find_options (record { root = "."; name = ""; kind = "" }) args) [
    | missing text ↦ failed (pos 2) text
    | search_for s ↦ elim (walk c.0 s.root) [
      | err e ↦ fails library (pos 1) "find: " e
      | ok files ↦ done (found_paths s files) []
    ]
  ]

  unfoldable pub run_realpath : Reader
  run_realpath c (name ∷ []) stdin = elim (normalize_path name c.1.cwd) [
    | err e ↦ fails library (pos 1) "realpath: " e
    | ok resolved ↦ elim (stat c.0 resolved) [
      | err e ↦ fails library (pos 1) "realpath: " e
      | ok file ↦ done (resolved +++ "\n") []
    ]
  ]
  run_realpath c args stdin = failed (pos 1) "realpath: missing operand\n"

  unfoldable pub run_tree : Reader
  run_tree c args stdin =
      let root = last_or "." args in
      elim (normalize_path root c.1.cwd) [
        | err e ↦ fails library (pos 1) "tree: " e
        | ok resolved ↦ elim (walk c.0 root) [
          | err e ↦ fails library (pos 1) "tree: " e
          | ok files ↦
              let t = tree_lines resolved files in
              done
                (resolved
                  +++ "\n"
                  +++ t.0
                  +++ "\n"
                  +++ number t.1
                  +++ " directories, "
                  +++ number t.2
                  +++ " files\n")
                []
        ]
      ]

  unfoldable pub run_du : Reader
  run_du c args stdin =
      let o = du_options (".", false) args in
      elim (walk c.0 o.0) [
        | err e ↦ fails library (pos 1) "du: " e
        | ok files ↦
            let size = number (blocks (content_size files)) in
            done ((if o.1 then size +++ "K" else size) +++ "\t" +++ o.0 +++ "\n") []
      ]
