-- ===== src/System/New/Entries.antt =====
-- The files of a scenario in the machine that NewState makes.
use Prim.Native.String.{◌++◌ as ◌+++◌}
use mathlib.Core.Path.{subst}
use red_lab.Prelude.{
  ℕ, ◌+◌, String, Bool, true, false, not, ◌||◌, ◌≡◌, ◌≢◌, refl, sym, ap, ◌∙◌, ◌⊎◌, inl, inr, some,
  List, [], ◌∷◌, ◌==◌, All, Bool-cases, eq_iff, eq_refl, arith, holds-if,
}
use red_lab.Prelude.GoMap.{GoMap, get, get_or, put, get-put, get-put_self, get_or-put}
use red_lab.GoLib.Path.{dir, is_rooted}
use red_lab.GoLib.Strings.{size, has_prefix, trim_prefix}
use red_lab.Scenario.{FileSpec}
use red_lab.System.{File, ok}
use red_lab.System.Paths.{normalize_path}
use red_lab.System.Paths.Safe.{normalize_path-IsCanonical}
use red_lab.System.Directories.{parse_mode}
use red_lab.System.Files.Access.{ensure_from-Extends}
use red_lab.System.Base.{place, root_file}
use red_lab.System.New.{place_entries, place_packaged, entry_file}
use red_lab.System.New.Filed.{IsFiled, place-IsFiled}

-- The entry has a path, and a mode that can be read or none.
abbrev pub IsValid : FileSpec → Type 0
IsValid e = (e.path ≢ "") × (mode : ℕ) × (parse_mode e.mode 0o644 ≡ ok mode)

abbrev pub IsIn : FileSpec → List FileSpec → Type 0
IsIn e [] = ⊥
IsIn e (first ∷ rest) = (e ≡ first) ⊎ IsIn e rest

-- The file at a path is made from one of the entries, with the mode that is read.
abbrev pub IsFromEntry : List FileSpec → GoMap File → String → Type 0
IsFromEntry all files p =
    (e : FileSpec) × (mode : ℕ) × IsIn e all
    × (parse_mode e.mode 0o644 ≡ ok mode)
    × (get files p ≡ some (entry_file p mode e))

-- The paths that were seen hold files of entries.
abbrev pub Owns : List FileSpec → GoMap Bool → GoMap File → Type 0
Owns all seen files = (p : String) → get_or seen p false ≡ true → IsFromEntry all files p

-- A file that is placed leaves every other file alone.
get-place :
    (f : File) (files : GoMap File) (p : String) (g : File)
    → (f.path == p) ≡ false
    → get files p ≡ some g
    → get (place f files) p ≡ some g
unfolding place
get-place f files p g other found =
    rw get-put rw other (ensure_from-Extends (size f.path + 1) (dir f.path) files p g found)

get-place_self : (f : File) (files : GoMap File) → get (place f files) f.path ≡ some f
unfolding place
get-place_self f files = get-put_self _ f.path f

place-Owns :
    (all : List FileSpec) (seen : GoMap Bool) (files : GoMap File) (e : FileSpec) (p : String)
    (mode : ℕ)
    → IsIn e all
    → parse_mode e.mode 0o644 ≡ ok mode
    → Owns all seen files
    → Owns all (put seen p true) (place (entry_file p mode e) files)
place-Owns all seen files e p mode among read owns q marked = elim (Bool-cases (p == q)) [
  | inl same ↦
      let there = (eq_iff p q).0 same in
      (
        e,
        mode,
        among,
        read,
        subst (λ x. get (place (entry_file p mode e) files) x ≡ some (entry_file x mode e)) there
            (get-place_self (entry_file p mode e) files),
      )
  | inr other ↦
      let old = owns q (rw (get_or-put, other) at marked) in
      (old.0, old.1, old.2, old.3, get-place (entry_file p mode e) files q _ other old.4)
]

place_entries-cons :
    (e : FileSpec) (entries : List FileSpec) (seen : GoMap Bool) (files : GoMap File) (p : String)
    (mode : ℕ)
    → normalize_path e.path "/" ≡ ok p
    → parse_mode e.mode 0o644 ≡ ok mode
    → place_entries (e ∷ entries) seen files
      ≡ place_entries entries (put seen p true) (place (entry_file p mode e) files)
unfolding place_entries
place_entries-cons e entries seen files p mode path read =
    rw (path, place_entries) rw (read, place_entries) refl

now_marked : (seen : GoMap Bool) (p : String) → get_or (put seen p true) p false ≡ true
now_marked seen p = rw get_or-put rw eq_refl refl

still_marked :
    (seen : GoMap Bool) (p q : String)
    → get_or seen q false ≡ true
    → get_or (put seen p true) q false ≡ true
still_marked seen p q h = rw get_or-put rw h (ground arith)

-- What the loop over the entries comes to.
pub record IsPlaced (all entries : List FileSpec) (seen : GoMap Bool) (r : GoMap File × GoMap Bool)
    : Type 0 where
  pub filed : IsFiled r.0
  pub owns : Owns all r.1 r.0
  pub grown : (p : String) → get_or seen p false ≡ true → get_or r.1 p false ≡ true
  pub marked :
      All
        (λ e. (p : String) × (normalize_path e.path "/" ≡ ok p) × (get_or r.1 p false ≡ true))
        entries

pub place_entries-IsPlaced :
    (all entries : List FileSpec) (seen : GoMap Bool) (files : GoMap File)
    → ((e : FileSpec) → IsIn e entries → IsIn e all)
    → All IsValid entries
    → IsFiled files
    → Owns all seen files
    → (r : GoMap File × GoMap Bool) × (place_entries entries seen files ≡ ok r)
      × IsPlaced all entries seen r
unfolding place_entries
place_entries-IsPlaced all [] seen files sub valid filed owns =
    ((files, seen), refl, record { filed = filed; owns = owns; grown = λ p h. h; marked = tt })
place_entries-IsPlaced all (e ∷ entries) seen files sub ((named, mode, read), valid) filed owns =
    let path = normalize_path-IsCanonical e.path "/" (unfold is_rooted in refl) named in
    let f = entry_file path.0 mode e in
    let rest =
      place_entries-IsPlaced all entries (put seen path.0 true) (place f files)
        (λ a h. sub a (inr h)) valid (place-IsFiled f files filed)
        (place-Owns all seen files e path.0 mode (sub e (inl refl)) read owns) in
    (
      rest.0,
      place_entries-cons e entries seen files path.0 mode path.1 read ∙ rest.1,
      record {
        filed = rest.2.filed;
        owns = rest.2.owns;
        grown = λ p h. rest.2.grown p (still_marked seen path.0 p h);
        marked = ((path.0, path.1, rest.2.grown path.0 (now_marked seen path.0)), rest.2.marked);
      },
    )

last_false : (a b c : Bool) → (a || b || c) ≡ false → c ≡ false
last_false a b c h = ground arith

-- A path that was seen is not one that was not.
unmarked :
    (seen : GoMap Bool) (p q : String)
    → get_or seen p false ≡ false
    → get_or seen q false ≡ true
    → (p == q) ≡ false
unmarked seen p q h k = elim (Bool-cases (p == q)) [
  | inl same ↦
      absurd
        (true_not_false (sym k ∙ ap (λ x. get_or seen x false) (sym ((eq_iff p q).0 same)) ∙ h))
  | inr other ↦ other
]
  where
    true_not_false : true ≡ false → ⊥
    true_not_false h = cc

-- The files of the package leave those of the entries alone.
pub place_packaged-Owns :
    (all : List FileSpec) (packaged : GoMap String) (seen : GoMap Bool) (files : GoMap File)
    → Owns all seen files
    → Owns all seen (place_packaged packaged seen files)
unfolding place_packaged
place_packaged-Owns all [] seen files owns = owns
place_packaged-Owns all ((name, content) ∷ packaged) seen files owns =
    let virtual = "/" +++ trim_prefix name "files/" in
    let f = root_file virtual content 0o644 "" in
    holds-if (Owns all seen)
      (not (has_prefix name "files/") || virtual == "/" || get_or seen virtual false) _ _
      (λ _. place_packaged-Owns all packaged seen files owns)
      (λ placed. place_packaged-Owns all packaged seen (place f files) λ q marked.
        let old = owns q marked in
        (
          old.0,
          old.1,
          old.2,
          old.3,
          get-place f files q _
              (unmarked seen virtual q
                (last_false (not (has_prefix name "files/")) (virtual == "/") _ placed) marked)
              old.4,
        ))
