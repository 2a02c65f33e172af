-- ===== src/System/Directories/Entries.antt =====
-- What MakeDirAll leaves alone.
use Prim.Native.String.{◌++◌ as ◌+++◌}
use red_lab.Prelude.{
  String, Bool, true, false, not, ◌≡◌, refl, Option, none, some, List, [], ◌∷◌, if◌then◌else◌,
}
use red_lab.Prelude.GoMap.{get, put}
use red_lab.GoLib.Path.{dir}
use red_lab.System.{
  File, Machine, Error, Result, ok, err, permission_denied, file_exists, not_a_directory,
}
use red_lab.System.Paths.{normalize_path}
use red_lab.System.Permissions.{can_write, file_at}
use red_lab.System.Files.{Outcome, with_path, new_file}
use red_lab.System.Files.Access.{Extends, put_missing}
use red_lab.System.Directories.{make_parts, make_dir_all}

-- No entry of a machine is changed or lost in an outcome.
record Keeps (m : Machine) (o : Outcome) : Type 0 where
  kept : Extends m.files o.0.files

Keeps-same : (m : Machine) (e : Option Error) → Keeps m (m, e)
Keeps-same m e = record { kept = λ q f h. h }

Keeps-if :
    (m : Machine) (b : Bool) (x y : Outcome) → Keeps m x → Keeps m y → Keeps m (if b then x else y)
Keeps-if m true x y h k = h
Keeps-if m false x y h k = k

-- The machine with the directory `p` made.
abbrev made : Machine → String → String → Machine
made m user p = record m { files = put m.files p (new_file m p user 0o755 true) }

Keeps-made :
    (m : Machine) (user p : String) (o : Outcome)
    → get m.files p ≡ none
    → Keeps (made m user p) o
    → Keeps m o
Keeps-made m user p o missing k = record {
  kept = λ q f h.
      k.kept q f
        (put_missing m.files m.files p (new_file m p user 0o755 true) missing (λ q f h. h) q f h);
}

-- One part of the path, when the rest of the parts keeps the entries.
Keeps-part :
    (m : Machine) (user p : String) (parts : List String) (o : Option File)
    → get m.files p ≡ o
    → Keeps m (make_parts m user p parts)
    → Keeps (made m user p) (make_parts (made m user p) user p parts)
    → Keeps m (elim o as (λ _. Outcome) [
      | some existing ↦
          if not existing.directory then (m, some not_a_directory) else make_parts m user p parts
      | none ↦
          if not (can_write m (file_at m (dir p)) user)
          then (m, some permission_denied)
          else make_parts (made m user p) user p parts
    ])
Keeps-part m user p parts (some existing) e h k = Keeps-if m _ _ _ (Keeps-same m _) h
Keeps-part m user p parts none e h k = Keeps-if m _ _ _ (Keeps-same m _) (Keeps-made m user p _ e k)

make_parts-Keeps :
    (m : Machine) (user current : String) (parts : List String)
    → Keeps m (make_parts m user current parts)
unfolding make_parts
make_parts-Keeps m user current [] = Keeps-same m none
make_parts-Keeps m user current (part ∷ parts) =
    let p = current +++ "/" +++ part in
    Keeps-part m user p parts (get m.files p) refl (make_parts-Keeps m user p parts)
      (make_parts-Keeps (made m user p) user p parts)

Keeps-path :
    (m : Machine) (filename : String) (body : String → Outcome)
    → ((p : String) → Keeps m (body p))
    → Keeps m (with_path m filename body)
unfolding with_path
Keeps-path m filename body h = pick (normalize_path filename m.cwd)
  where
    pick :
        (r : Result String)
        → Keeps m (elim r as (λ _. Outcome) [ ok p ↦ body p | err e ↦ (m, some e) ])
    pick (ok p) = h p
    pick (err e) = Keeps-same m (some e)

Keeps-lookup :
    (m : Machine) (o : Option File) (missing : Outcome) (found : File → Outcome)
    → Keeps m missing
    → ((f : File) → Keeps m (found f))
    → Keeps m (elim o as (λ _. Outcome) [ none ↦ missing | some f ↦ found f ])
Keeps-lookup m none missing found h k = h
Keeps-lookup m (some f) missing found h k = k f

make_dir_all-Keeps : (m : Machine) (filename user : String) → Keeps m (make_dir_all m filename user)
unfolding make_dir_all
make_dir_all-Keeps m filename user = Keeps-path m filename _ λ p.
    Keeps-lookup m (get m.files p) _ _ (make_parts-Keeps m user "" _)
      (λ f. Keeps-if m f.directory _ _ (Keeps-same m none) (Keeps-same m (some file_exists)))

-- MakeDirAll changes and loses no entry, whatever its outcome.
make_dir_all-Extends :
    (m : Machine) (filename user : String) → Extends m.files (make_dir_all m filename user).0.files
make_dir_all-Extends m filename user = (make_dir_all-Keeps m filename user).kept
