-- ===== src/Commands/Registry/Guarded.antt =====
-- What the commands leave to root: whatever a user who is not root runs, but for `sudo`, keeps the
-- users, the rules of sudo, the services, the network, SELinux and the packages.
use red_lab.Prelude.{String, Bool, true, false, ◌≡◌, Option, none, some, List, [], ◌∷◌, ◌==◌, arith}
use red_lab.Prelude.GoMap.{GoMap, get_or, put, remove}
use red_lab.Prelude.Int.{ℤ, pos}
use red_lab.System.{Machine}
use red_lab.System.Files.{Outcome, set_cwd}
use red_lab.System.Guarded.{
  IsKept, IsKept-refl, IsKept-trans, OwnedByRoot, write_file-IsKept, touch-IsKept, make_dir-IsKept,
  make_dir_all-IsKept, chown-IsKept, chmod-IsKept, set_cwd-IsKept, copy_recursive-IsKept,
}
use red_lab.Runtime.{Env, CommandResult, failed}
use red_lab.Commands.{Library, Context, Handler, for_names, answer, with_variables, fails}
use red_lab.GoLib.Lines.{cut_at}
use red_lab.Commands.Shell.{run_cd, export_all, unset_all, change_directory, moved}
use red_lab.Commands.Changes.{
  run_tee, make_all, run_mkdir, run_touch, run_chmod, run_chown, copy_operands, run_copy,
  move_operands, run_move,
}

-- A handler keeps what is root's, if the user is not root and root owns the processes.
abbrev pub Keeps : Handler → Type 0
Keeps h =
    (c : Context) (args : List String) (stdin : String)
    → (c.1.user == "root") ≡ false
    → OwnedByRoot c.0.processes
    → IsKept c.0 (h c args stdin).0.0

pub for_names-IsKept :
    (operation : Machine → String → Outcome)
    → ((m : Machine) (name : String) → IsKept m (operation m name).0)
    → (m : Machine) (names : List String) → IsKept m (for_names operation m names).0
unfolding for_names
for_names-IsKept operation h m [] = IsKept-refl m
for_names-IsKept operation h m (name ∷ names) =
    by_outcome (operation m name) (h m name) (λ n. for_names-IsKept operation h n names)
  where
    by_outcome :
        (o : Outcome)
        → IsKept m o.0
        → ((n : Machine) → IsKept n (for_names operation n names).0)
        → IsKept m
            (elim o.1 as (λ _. Outcome) [
              | some e ↦ (o.0, some e)
              | none ↦ for_names operation o.0 names
            ]).0
    by_outcome (n, some e) k next = k
    by_outcome (n, none) k next = IsKept-trans k (next n)

pub answer-IsKept :
    (library : Library) (env : Env) (m : Machine) (o : Outcome) (code : ℤ) (prefix : String)
    (r : CommandResult)
    → IsKept m o.0
    → IsKept m (answer library env o code prefix r).0.0
answer-IsKept library env m (n, some e) code prefix r h = h
answer-IsKept library env m (n, none) code prefix r h = h

with_variables-IsKept :
    (c : Context) (variables : GoMap String) → IsKept c.0 (with_variables c variables).0
with_variables-IsKept (m, e) variables = ground arith

pub export_all-IsKept : (c : Context) (items : List String) → IsKept c.0 (export_all c items).0.0
unfolding export_all
export_all-IsKept c [] = IsKept-refl c.0
export_all-IsKept c (item ∷ items) = by_cut (cut_at b'=' item) (λ d. export_all-IsKept d items)
  where
    by_cut :
        (o : Option (String × String))
        → ((d : Context) → IsKept d.0 (export_all d items).0.0)
        → IsKept c.0
            (elim o as (λ _. Context × CommandResult) [
              | none ↦ (c, failed (pos 1) "export: invalid assignment\n")
              | some (key, value) ↦
                  export_all (with_variables c (put c.1.variables key value)) items
            ]).0.0
    by_cut none next = IsKept-refl c.0
    by_cut (some (key, value)) next = IsKept-trans (with_variables-IsKept c _) (next _)

pub unset_all-IsKept : (c : Context) (names : List String) → IsKept c.0 (unset_all c names).0
unfolding unset_all
unset_all-IsKept c [] = IsKept-refl c.0
unset_all-IsKept c (key ∷ names) =
    IsKept-trans (with_variables-IsKept c _)
      (unset_all-IsKept (with_variables c (remove c.1.variables key)) names)

module _ (library : Library) where
  change_directory-IsKept :
      (c : Context) (target : String) (print_target : Bool)
      → IsKept c.0 (change_directory library c target print_target).0.0
  unfolding change_directory
  change_directory-IsKept c target print_target =
      by_outcome (set_cwd c.0 target) (set_cwd-IsKept c.0 target)
    where
      by_outcome :
          (o : Outcome)
          → IsKept c.0 o.0
          → IsKept c.0
              (elim o.1 as (λ _. Context × CommandResult) [
                | some e ↦ ((o.0, c.1), fails library (pos 1) "" e)
                | none ↦ moved (o.0, c.1) c.1.cwd print_target
              ]).0.0
      by_outcome (m, some e) h = h
      by_outcome (m, none) h =
          IsKept-trans h (with_variables-IsKept (m, record c.1 { cwd = m.cwd }) _)

  pub run_cd-Keeps : Keeps (run_cd library)
  unfolding run_cd
  run_cd-Keeps c args stdin common owned = ground (
    arith,
    change_directory-IsKept c
        (elim args as (λ _. String) [ [] ↦ get_or c.1.variables "HOME" "" | a ∷ rest ↦ a ]) false,
    change_directory-IsKept c (get_or c.1.variables "OLDPWD" "") true,
  )

  pub run_tee-Keeps : Keeps (run_tee library)
  unfolding run_tee
  run_tee-Keeps c [] stdin common owned = IsKept-refl c.0
  run_tee-Keeps c (a ∷ args) stdin common owned =
      answer-IsKept library c.1 c.0 _ _ _ _ (
        for_names-IsKept _ (λ m name. write_file-IsKept m name stdin c.1.user false) c.0 (a ∷ args))

  make_all-IsKept :
      (c : Context) (parents : Bool) (operands : List String)
      → IsKept c.0 (make_all library c parents operands).0.0
  unfolding make_all
  make_all-IsKept c parents [] = IsKept-refl c.0
  make_all-IsKept c true (a ∷ operands) =
      answer-IsKept library c.1 c.0 _ _ _ _
        (for_names-IsKept _ (λ m name. make_dir_all-IsKept m name c.1.user) c.0 (a ∷ operands))
  make_all-IsKept c false (a ∷ operands) =
      answer-IsKept library c.1 c.0 _ _ _ _
        (for_names-IsKept _ (λ m name. make_dir-IsKept m name c.1.user) c.0 (a ∷ operands))

  pub run_mkdir-Keeps : Keeps (run_mkdir library)
  unfolding run_mkdir
  run_mkdir-Keeps c args stdin common owned = make_all-IsKept c _ _

  pub run_touch-Keeps : Keeps (run_touch library)
  unfolding run_touch
  run_touch-Keeps c [] stdin common owned = IsKept-refl c.0
  run_touch-Keeps c (a ∷ args) stdin common owned =
      answer-IsKept library c.1 c.0 _ _ _ _
        (for_names-IsKept _ (λ m name. touch-IsKept m name c.1.user) c.0 (a ∷ args))

  pub run_chmod-Keeps : Keeps (run_chmod library)
  unfolding run_chmod
  run_chmod-Keeps c [] stdin common owned = IsKept-refl c.0
  run_chmod-Keeps c (mode ∷ []) stdin common owned = IsKept-refl c.0
  run_chmod-Keeps c (mode ∷ name ∷ names) stdin common owned =
      answer-IsKept library c.1 c.0 _ _ _ _
        (for_names-IsKept _ (λ m n. chmod-IsKept m n mode c.1.user) c.0 (name ∷ names))

  pub run_chown-Keeps : Keeps (run_chown library)
  unfolding run_chown
  run_chown-Keeps c [] stdin common owned = IsKept-refl c.0
  run_chown-Keeps c (owner ∷ []) stdin common owned = IsKept-refl c.0
  run_chown-Keeps c (owner ∷ name ∷ names) stdin common owned =
      answer-IsKept library c.1 c.0 _ _ _ _
        (for_names-IsKept _ (λ m n. chown-IsKept m n _ _ c.1.user) c.0 (name ∷ names))

  copy_operands-IsKept :
      (c : Context) (recursive : Bool) (operands : List String)
      → IsKept c.0 (copy_operands library c recursive operands).0.0
  unfolding copy_operands
  copy_operands-IsKept c recursive [] = IsKept-refl c.0
  copy_operands-IsKept c recursive (source ∷ []) = IsKept-refl c.0
  copy_operands-IsKept c recursive (source ∷ target ∷ []) =
      answer-IsKept library c.1 c.0 _ _ _ _
        (copy_recursive-IsKept c.0 source target c.1.user false recursive)
  copy_operands-IsKept c recursive (source ∷ target ∷ a ∷ operands) = IsKept-refl c.0

  pub run_copy-Keeps : Keeps (run_copy library)
  unfolding run_copy
  run_copy-Keeps c args stdin common owned = copy_operands-IsKept c _ _

  move_operands-IsKept :
      (c : Context) (operands : List String) → IsKept c.0 (move_operands library c operands).0.0
  unfolding move_operands
  move_operands-IsKept c [] = IsKept-refl c.0
  move_operands-IsKept c (source ∷ []) = IsKept-refl c.0
  move_operands-IsKept c (source ∷ target ∷ []) =
      answer-IsKept library c.1 c.0 _ _ _ _
        (copy_recursive-IsKept c.0 source target c.1.user true true)
  move_operands-IsKept c (source ∷ target ∷ a ∷ operands) = IsKept-refl c.0

  pub run_move-Keeps : Keeps (run_move library)
  unfolding run_move
  run_move-Keeps c args stdin common owned = move_operands-IsKept c _
