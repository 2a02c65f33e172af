-- ===== src/System/New/Filed.antt =====
-- The files that NewState stores.
use Prim.Native.String.{◌++◌ as ◌+++◌}
use red_lab.Prelude.{
  ℕ, zero, suc, ◌+◌, String, Bool, true, false, not, ◌||◌, ◌≡◌, sym, ap, ◌∙◌, inl, inr, some, List,
  [], ◌∷◌, ◌==◌, eq_iff, Bool-cases, Option-cases, if◌then◌else◌, some_injective, holds-if,
}
use red_lab.Prelude.GoMap.{GoMap, get, get_or, get-put}
use red_lab.GoLib.Path.{dir}
use red_lab.GoLib.Strings.{size, has_prefix, trim_prefix}
use red_lab.GoLib.Time.{Time}
use red_lab.Scenario.{ScenarioSpec}
use red_lab.System.{File, User}
use red_lab.System.Files.{add_directory, root_directory, ensure_from}
use red_lab.System.Identity.{users_of}
use red_lab.System.Base.{place, store, store_all, store_homes, place_all, install_base, home_files}
use red_lab.System.New.{place_packaged}

-- Each file is stored under its own path.
abbrev pub IsFiled : GoMap File → Type 0
IsFiled files = (p : String) (f : File) → get files p ≡ some f → f.path ≡ p

pub store-IsFiled : (f : File) (files : GoMap File) → IsFiled files → IsFiled (store f files)
store-IsFiled f files h p g found = elim (Bool-cases (f.path == p)) [
  | inl e ↦
      ap (λ x. x.path) (some_injective (sym (rw (get-put, e) at found))) ∙ (eq_iff f.path p).0 e
  | inr e ↦ h p g (rw (get-put, e) at found)
]

add_directory-IsFiled :
    (p : String) (files : GoMap File) → IsFiled files → IsFiled (add_directory p files)
add_directory-IsFiled p files h = elim (Option-cases (get files p)) [
  | inl e ↦ rw (e, add_directory) (store-IsFiled (root_directory p) files h)
  | inr (f, e) ↦ rw (e, add_directory) h
]

ensure_from-IsFiled :
    (rounds : ℕ) (current : String) (files : GoMap File)
    → IsFiled files
    → IsFiled (ensure_from rounds current files)
unfolding ensure_from
ensure_from-IsFiled zero current files h = h
ensure_from-IsFiled (suc rounds) current files h = pick (current == "." || current == "/") (
    ensure_from-IsFiled rounds (dir current) (add_directory current files)
      (add_directory-IsFiled current files h))
  where
    pick :
        (b : Bool)
        → IsFiled (ensure_from rounds (dir current) (add_directory current files))
        → IsFiled
            (if b then files else ensure_from rounds (dir current) (add_directory current files))
    pick true k = h
    pick false k = k

pub place-IsFiled : (f : File) (files : GoMap File) → IsFiled files → IsFiled (place f files)
unfolding place
place-IsFiled f files h =
    store-IsFiled f _ (ensure_from-IsFiled (size f.path + 1) (dir f.path) files h)

store_all-IsFiled :
    (fs : List File) (files : GoMap File) → IsFiled files → IsFiled (store_all fs files)
unfolding store_all
store_all-IsFiled [] files h = h
store_all-IsFiled (f ∷ fs) files h = store_all-IsFiled fs (store f files) (store-IsFiled f files h)

place_all-IsFiled :
    (fs : List File) (files : GoMap File) → IsFiled files → IsFiled (place_all fs files)
unfolding place_all
place_all-IsFiled [] files h = h
place_all-IsFiled (f ∷ fs) files h = place_all-IsFiled fs (place f files) (place-IsFiled f files h)

store_homes-IsFiled :
    (users : GoMap User) (list : List User) (files : GoMap File)
    → IsFiled files
    → IsFiled (store_homes users list files)
unfolding store_homes
store_homes-IsFiled users [] files h = h
store_homes-IsFiled users (u ∷ list) files h =
    store_homes-IsFiled users list _ (store_all-IsFiled (home_files users u.name) files h)

pub install_base-IsFiled :
    (format_time : Time → String → String) (spec : ScenarioSpec) (now : Time) (users : GoMap User)
    (files : GoMap File)
    → IsFiled files
    → IsFiled (install_base format_time spec now users files)
unfolding install_base
install_base-IsFiled format_time spec now users files h = place_all-IsFiled _ _ (
    store_homes-IsFiled users (users_of users) _
      (store_all-IsFiled _ _ (store_all-IsFiled _ _ (store_all-IsFiled _ _ h))))

pub place_packaged-IsFiled :
    (packaged : GoMap String) (seen : GoMap Bool) (files : GoMap File)
    → IsFiled files
    → IsFiled (place_packaged packaged seen files)
unfolding place_packaged
place_packaged-IsFiled [] seen files h = h
place_packaged-IsFiled ((name, content) ∷ packaged) seen files h =
    holds-if IsFiled
      (not (has_prefix name "files/")
        || "/" +++ trim_prefix name "files/" == "/"
        || get_or seen ("/" +++ trim_prefix name "files/") false)
      _ _ (λ _. place_packaged-IsFiled packaged seen files h)
      (λ _. place_packaged-IsFiled packaged seen _ (place-IsFiled _ files h))
