-- ===== src/System/Guarded.antt =====
-- What only root may change: the methods of internal/system/state.go leave the users, the rules of
-- sudo, the services, the network, SELinux and the packages to root.
pub mod Refused
use Prim.Native.String.{◌++◌ as ◌+++◌}
use red_lab.Prelude.{
  ℕ, suc, String, Bool, true, false, not, ◌&&◌, ◌≡◌, refl, ◌∙◌, Option, none, some, List, [], ◌∷◌,
  ◌==◌, if◌then◌else◌, arith, All, Bool-cases, inl, inr,
}
use red_lab.Prelude.GoMap.{GoMap, get, put}
use red_lab.Prelude.Int.{ℤ, pos, eqb_ℤ, ltb_ℤ}
use red_lab.System.{
  File, Service, Process, Machine, Error, Result, ok, err, no_such_file, omitting_directory,
  copy_root, permission_denied, needs_root,
}
use red_lab.System.Paths.{normalize_path}
use red_lab.System.Files.{
  Outcome, with_path, ensure_parents, write_file, create_file, overwrite_file, new_file, make_dir,
  touch, remove_file, chown, set_cwd,
}
use red_lab.System.Directories.{make_dir_all, make_parts, chmod}
use red_lab.GoLib.Strings.{trim_prefix}
use red_lab.GoLib.Path.{split}
use red_lab.System.Permissions.{can_read}
use red_lab.System.Processes.{process_table, service_processes, rebuild_processes}
use red_lab.System.Services.{
  with_service, start_service, stop_service, enable_service, append_journal,
}
use red_lab.System.Services.Signals.{signal_all, signal_process}
use red_lab.System.Net.{allow_firewall, set_selinux}
use red_lab.System.Identity.{add_user, add_user_to_group}
use red_lab.System.Tree.{copy_recursive, copy_found, copy_to, copy_target}

-- Every process is root's.
abbrev pub OwnedByRoot : List Process → Type 0
OwnedByRoot processes = All (λ p. p.user ≡ "root") processes

-- The second machine has what is root's from the first, and its processes are root's if the first's
-- are.
pub record IsKept (m n : Machine) : Type 0 where
  pub users : n.users ≡ m.users
  pub sudo_rules : n.sudo_rules ≡ m.sudo_rules
  pub services : n.services ≡ m.services
  pub network : n.network ≡ m.network
  pub selinux : n.selinux ≡ m.selinux
  pub packages : n.packages ≡ m.packages
  pub owned : OwnedByRoot m.processes → OwnedByRoot n.processes

pub IsKept-refl : (m : Machine) → IsKept m m
IsKept-refl m = record {
  users = refl;
  sudo_rules = refl;
  services = refl;
  network = refl;
  selinux = refl;
  packages = refl;
  owned = λ h. h;
}

pub IsKept-trans : {l m n : Machine} → IsKept l m → IsKept m n → IsKept l n
IsKept-trans h k = record {
  users = k.users ∙ h.users;
  sudo_rules = k.sudo_rules ∙ h.sudo_rules;
  services = k.services ∙ h.services;
  network = k.network ∙ h.network;
  selinux = k.selinux ∙ h.selinux;
  packages = k.packages ∙ h.packages;
  owned = λ all. k.owned (h.owned all);
}

with_path-IsKept :
    (m : Machine) (filename : String) (body : String → Outcome)
    → ((p : String) → IsKept m (body p).0)
    → IsKept m (with_path m filename body).0
unfolding with_path
with_path-IsKept m filename body h = by_path (normalize_path filename m.cwd)
  where
    by_path :
        (r : Result String)
        → IsKept m (elim r as (λ _. Outcome) [ err e ↦ (m, some e) | ok p ↦ body p ]).0
    by_path (err e) = IsKept-refl m
    by_path (ok p) = h p

pub touch-IsKept : (m : Machine) (filename user : String) → IsKept m (touch m filename user).0
unfolding touch ensure_parents
touch-IsKept m filename user = with_path-IsKept m filename _ (λ p. ground arith)

pub write_file-IsKept :
    (m : Machine) (filename content user : String) (append_mode : Bool)
    → IsKept m (write_file m filename content user append_mode).0
unfolding write_file create_file overwrite_file ensure_parents
write_file-IsKept m filename content user append_mode =
    with_path-IsKept m filename _ (λ p. ground arith)

pub make_dir-IsKept : (m : Machine) (filename user : String) → IsKept m (make_dir m filename user).0
unfolding make_dir
make_dir-IsKept m filename user = with_path-IsKept m filename _ (λ p. ground arith)

make_parts-IsKept :
    (m : Machine) (user current : String) (parts : List String)
    → IsKept m (make_parts m user current parts).0
unfolding make_parts
make_parts-IsKept m user current [] = IsKept-refl m
make_parts-IsKept m user current (part ∷ parts) =
    let p = current +++ "/" +++ part in
    let made = record m { files = put m.files p (new_file m p user 0o755 true) } in
    ground (arith, make_parts-IsKept m user p parts, make_parts-IsKept made user p parts)

pub make_dir_all-IsKept :
    (m : Machine) (filename user : String) → IsKept m (make_dir_all m filename user).0
unfolding make_dir_all
make_dir_all-IsKept m filename user =
    with_path-IsKept m filename _
      (λ p. ground (arith, make_parts-IsKept m user "" (split (trim_prefix p "/"))))

pub remove_file-IsKept :
    (m : Machine) (filename user : String) → IsKept m (remove_file m filename user).0
unfolding remove_file
remove_file-IsKept m filename user = with_path-IsKept m filename _ (λ p. ground arith)

pub chown-IsKept :
    (m : Machine) (filename owner group user : String)
    → IsKept m (chown m filename owner group user).0
unfolding chown
chown-IsKept m filename owner group user = elim (Bool-cases (user == "root")) [
  | inl e ↦ rw e (with_path-IsKept m filename _ (λ p. ground arith))
  | inr e ↦ rw e (IsKept-refl m)
]

pub chmod-IsKept :
    (m : Machine) (filename mode user : String) → IsKept m (chmod m filename mode user).0
unfolding chmod
chmod-IsKept m filename mode user = with_path-IsKept m filename _ (λ p. ground arith)

pub set_cwd-IsKept : (m : Machine) (directory : String) → IsKept m (set_cwd m directory).0
unfolding set_cwd
set_cwd-IsKept m directory = with_path-IsKept m directory _ (λ p. ground arith)

copy_to-IsKept :
    (m : Machine) (src dst : String) (file : File) (user : String) (move : Bool)
    → IsKept m (copy_to m src dst file user move).0
unfolding copy_to ensure_parents
copy_to-IsKept m src dst file user move = ground arith

pub copy_recursive-IsKept :
    (m : Machine) (source target user : String) (move recursive : Bool)
    → IsKept m (copy_recursive m source target user move recursive).0
unfolding copy_recursive copy_found
copy_recursive-IsKept m source target user move recursive =
    with_path-IsKept m source _
      (λ src. with_path-IsKept m target _ (λ dst. by_file src dst (get m.files src)))
  where
    tested :
        (a b c : Bool) (x y z : Error) (o : Outcome)
        → IsKept m o.0
        → IsKept m
            (if a then (m, some x) else if b then (m, some y) else if c then (m, some z) else o).0
    tested true b c x y z o h = IsKept-refl m
    tested false true c x y z o h = IsKept-refl m
    tested false false true x y z o h = IsKept-refl m
    tested false false false x y z o h = h

    by_file :
        (src dst : String) (f : Option File)
        → IsKept m
            (elim f as (λ _. Outcome) [
              | none ↦ (m, some no_such_file)
              | some file ↦ copy_found m src dst file user move recursive
            ]).0
    by_file src dst none = IsKept-refl m
    by_file src dst (some file) =
        tested (file.directory && not move && not recursive) (src == "/")
          (not (can_read m file user) && not (user == "root")) omitting_directory copy_root
          permission_denied (copy_to m src (copy_target m src dst) file user move)
          (copy_to-IsKept m src (copy_target m src dst) file user move)

pub append_journal-IsKept :
    (m : Machine) (actor unit priority message : String)
    → IsKept m (append_journal m actor unit priority message)
unfolding append_journal
append_journal-IsKept m actor unit priority message = ground arith
