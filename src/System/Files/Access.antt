-- ===== src/System/Files/Access.antt =====
-- What the methods that create and write files leave alone, and what a reader finds afterwards.
use red_lab.Prelude.{
  ℕ, zero, suc, String, Bool, true, false, not, ◌&&◌, ◌||◌, ◌≡◌, refl, sym, ap, ◌∙◌, ◌⊎◌, inl, inr,
  Option, none, some, ◌==◌, eq_iff, Bool-cases, Option-cases, arith, if◌then◌else◌,
}
use red_lab.Prelude.GoMap.{GoMap, get, put, get-put}
use red_lab.GoLib.Path.{dir}
use red_lab.System.{File, Machine, Error, Result, ok, err, permission_denied}
use red_lab.System.Paths.{normalize_path}
use red_lab.System.Permissions.{can_write, file_at}
use red_lab.System.Files.{
  add_directory, root_directory, ensure_from, ensure_parents, create_file, overwrite_file,
  write_file, with_path, new_file, Outcome,
}

-- Every entry of the one table is in the other.
abbrev pub Extends : GoMap File → GoMap File → Type 0
Extends old new = (q : String) (f : File) → get old q ≡ some f → get new q ≡ some f

-- An entry is put where the first table has none.
pub put_missing :
    (old new : GoMap File) (p : String) (f : File)
    → get old p ≡ none
    → Extends old new
    → Extends old (put new p f)
put_missing old new p f missing x q g h = rw get-put (other (p == q) refl)
  where
    other : (b : Bool) → (p == q) ≡ b → (if b then some f else get new q) ≡ some g
    other true e = absurd (clash (sym missing ∙ (ap (get old) ((eq_iff p q).0 e) ∙ h)))
      where
        clash : none ≡ some g → ⊥
        clash h = cc
    other false e = x q g h

add_directory-Extends : (p : String) (files : GoMap File) → Extends files (add_directory p files)
add_directory-Extends p files = elim (Option-cases (get files p)) [
  | inl e ↦ rw (e, add_directory) (put_missing files files p (root_directory p) e (λ q f h. h))
  | inr (f, e) ↦ rw (e, add_directory) (λ q g h. h)
]

pub ensure_from-Extends :
    (rounds : ℕ) (current : String) (files : GoMap File)
    → Extends files (ensure_from rounds current files)
unfolding ensure_from
ensure_from-Extends zero current files = λ q f h. h
ensure_from-Extends (suc rounds) current files =
    pick (current == "." || current == "/")
      (ensure_from-Extends rounds (dir current) (add_directory current files))
  where
    pick :
        (b : Bool)
        → Extends
            (add_directory current files)
            (ensure_from rounds (dir current) (add_directory current files))
        → Extends files
            (if b then files else ensure_from rounds (dir current) (add_directory current files))
    pick true ih = λ q f h. h
    pick false ih = λ q f h. ih q f (add_directory-Extends current files q f h)

-- ensureParents adds directories and changes no entry.
pub ensure_parents-Extends : (m : Machine) (p : String) → Extends m.files (ensure_parents m p).files
unfolding ensure_parents
ensure_parents-Extends m p = ensure_from-Extends _ _ m.files

-- Each file that was there is there unchanged, unless the user may write it.
pub record Spares (m : Machine) (user : String) (o : Outcome) : Type 0 where
  pub at :
      (q : String) (f : File)
      → get m.files q ≡ some f
      → (get o.0.files q ≡ some f) ⊎ (can_write m f user ≡ true)

module _ (m : Machine) (user : String) where
  Spares-added : (o : Outcome) → Extends m.files o.0.files → Spares m user o
  Spares-added o x = record { at = λ q f h. inl (x q f h) }

  Spares-same : (e : Option Error) → Spares m user (m, e)
  Spares-same e = record { at = λ q f h. inl h }

  Spares-if :
      (b : Bool) (o o' : Outcome)
      → (b ≡ true → Spares m user o)
      → (b ≡ false → Spares m user o')
      → Spares m user (if b then o else o')
  Spares-if true o o' h k = h refl
  Spares-if false o o' h k = k refl

  Spares-path :
      (filename : String) (body : String → Outcome)
      → ((p : String) → Spares m user (body p))
      → Spares m user (with_path m filename body)
  unfolding with_path
  Spares-path filename body h = pick (normalize_path filename m.cwd)
    where
      pick :
          (r : Result String)
          → Spares m user (elim r as (λ _. Outcome) [ ok p ↦ body p | err e ↦ (m, some e) ])
      pick (ok p) = h p
      pick (err e) = Spares-same (some e)

  -- A method that looks the path up.
  Spares-lookup :
      (p : String) (missing : Outcome) (found : File → Outcome)
      → (get m.files p ≡ none → Spares m user missing)
      → ((f : File) → get m.files p ≡ some f → Spares m user (found f))
      → Spares m user (elim (get m.files p) as (λ _. Outcome) [ none ↦ missing | some f ↦ found f ])
  Spares-lookup p missing found h k = pick (get m.files p) refl
    where
      pick :
          (o : Option File)
          → get m.files p ≡ o
          → Spares m user (elim o as (λ _. Outcome) [ none ↦ missing | some f ↦ found f ])
      pick none e = h e
      pick (some f) e = k f e

  Spares-create :
      (p content : String) → get m.files p ≡ none → Spares m user (create_file m p content user)
  unfolding create_file
  Spares-create p content missing =
      let n : Machine = ensure_parents m p in
      let g : File = record (new_file n p user 0o644 false) { content = content } in
      Spares-if (not (user == "root") && not (can_write n (file_at n (dir p)) user))
        (n, some permission_denied) (record n { files = put n.files p g }, none)
        (λ h. Spares-added (n, some permission_denied) (ensure_parents-Extends m p))
        (λ h.
          Spares-added (record n { files = put n.files p g }, none)
            (put_missing m.files n.files p g missing (ensure_parents-Extends m p)))

  -- A file is put back changed, by a user who may write it.
  put_found :
      (p : String) (f g : File) (e : Option Error)
      → get m.files p ≡ some f
      → can_write m f user ≡ true
      → Spares m user (record m { files = put m.files p g }, e)
  put_found p f g e found may = record { at = kept }
    where
      same : (k : File) → ◌≡◌ {A = Option File} (some f) (some k) → f ≡ k
      same k h = cc

      kept :
          (q : String) (k : File)
          → get m.files q ≡ some k
          → (get (put m.files p g) q ≡ some k) ⊎ (can_write m k user ≡ true)
      kept q k h = elim (Bool-cases (p == q)) [
        | inl e ↦
            inr (rw (sym (same k (sym found ∙ (ap (get m.files) ((eq_iff p q).0 e) ∙ h)))) may)
        | inr e ↦ inl (rw (get-put, e) h)
      ]

  allowed : (b : Bool) → not b ≡ false → b ≡ true
  allowed b h = ground arith

  Spares-overwrite :
      (p : String) (f : File) (content : String) (append_mode : Bool)
      → get m.files p ≡ some f
      → Spares m user (overwrite_file m p f content user append_mode)
  unfolding overwrite_file
  Spares-overwrite p f content append_mode found =
      Spares-if (not (can_write m f user)) _ _ (λ _. Spares-same _)
        (λ e. put_found p f _ none found (allowed (can_write m f user) e))

  -- Whatever the path and the outcome, WriteFile leaves each file as it was that is there already
  -- and that the user may not write.
  pub write_file-Spares :
      (filename content : String) (append_mode : Bool)
      → Spares m user (write_file m filename content user append_mode)
  unfolding write_file
  write_file-Spares filename content append_mode = Spares-path filename _ λ p.
      Spares-lookup p _ _ (Spares-create p content)
        (λ f found. Spares-overwrite p f content append_mode found)
