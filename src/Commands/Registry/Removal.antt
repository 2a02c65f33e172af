-- ===== src/Commands/Registry/Removal.antt =====
-- What `rm` and `rmdir` leave alone.
use Prim.Native.String.{◌++◌ as ◌+++◌}
use red_lab.Prelude.{String, Bool, List, [], ◌∷◌, arith}
use red_lab.Prelude.Int.{pos}
use red_lab.System.{Machine}
use red_lab.System.Guarded.{IsKept, IsKept-refl, IsKept-trans, remove_file-IsKept}
use red_lab.Runtime.{Env, CommandResult, failed}
use red_lab.Commands.{Library, Context, fails}
use red_lab.Commands.Changes.{
  Removal, removed, is_directory, refused, remove_one, remove_names, remove_all, run_rm,
  remove_empty, run_rmdir,
}
use red_lab.Commands.Registry.Guarded.{Keeps}

module _ (library : Library) where
  remove_one-IsKept :
      (recursive force : Bool) (user : String) (m : Machine) (name : String)
      → IsKept m (remove_one library recursive force user m name).0
  unfolding remove_one
  remove_one-IsKept recursive force user m name = ground (arith, remove_file-IsKept m name user)

  remove_names-IsKept :
      (env : Env) (recursive force : Bool) (operands : List String) (m : Machine)
      (names : List String)
      → IsKept m (remove_names library env recursive force operands m names).0.0
  unfolding remove_names
  remove_names-IsKept env recursive force operands m [] = IsKept-refl m
  remove_names-IsKept env recursive force operands m (name ∷ names) =
      by_removal (remove_one library recursive force env.user m name)
        (remove_one-IsKept recursive force env.user m name)
        (λ n. remove_names-IsKept env recursive force operands n names)
    where
      by_removal :
          (o : Machine × Removal)
          → IsKept m o.0
          → ((n : Machine)
              → IsKept n (remove_names library env recursive force operands n names).0.0)
          → IsKept m
              (elim o.1 as (λ _. Context × CommandResult) [
                | removed ↦ remove_names library env recursive force operands o.0 names
                | is_directory d ↦ (
                  (o.0, env),
                  failed (pos 1) ("rm: cannot remove '" +++ d +++ "': Is a directory\n"),
                )
                | refused e ↦ ((o.0, env), fails library (pos 1) "rm: " e)
              ]).0.0
      by_removal (n, removed) h next = IsKept-trans h (next n)
      by_removal (n, is_directory d) h next = h
      by_removal (n, refused e) h next = h

  remove_all-IsKept :
      (c : Context) (recursive force : Bool) (operands : List String)
      → IsKept c.0 (remove_all library c recursive force operands).0.0
  unfolding remove_all
  remove_all-IsKept c recursive force [] = IsKept-refl c.0
  remove_all-IsKept c recursive force (a ∷ operands) =
      remove_names-IsKept c.1 recursive force _ c.0 _

  pub run_rm-Keeps : Keeps (run_rm library)
  unfolding run_rm
  run_rm-Keeps c args stdin common owned = remove_all-IsKept c _ _ _

  remove_empty-IsKept : (c : Context) (name : String) → IsKept c.0 (remove_empty library c name).0.0
  unfolding remove_empty
  remove_empty-IsKept c name = ground (arith, remove_file-IsKept c.0 name c.1.user)

  pub run_rmdir-Keeps : Keeps (run_rmdir library)
  unfolding run_rmdir
  run_rmdir-Keeps c [] stdin common owned = IsKept-refl c.0
  run_rmdir-Keeps c (name ∷ []) stdin common owned = ground (arith, remove_empty-IsKept c name)
  run_rmdir-Keeps c (name ∷ a ∷ args) stdin common owned = IsKept-refl c.0
