-- ===== src/System/Directories.antt =====
-- `MakeDirAll`, `Chmod` and `ParseMode` of internal/system/state.go.
pub mod Entries
use Prim.Native.Nat.{◌*◌, ◌^◌}
use Prim.Native.String.{◌++◌ as ◌+++◌}
use red_lab.Prelude.{
  ℕ, zero, suc, ◌+◌, ◌-◌, leb, ltb, Char, code, String, Bool, true, false, not, ◌&&◌, ◌||◌, ◌≡◌,
  refl, sym, ap, ◌∙◌, Option, none, some, List, [], ◌∷◌, ◌==◌, Option-cases, inl, inr,
  if◌then◌else◌,
}
use red_lab.Prelude.GoMap.{get, put}
use red_lab.GoLib.Strings.{has_prefix, trim_prefix}
use red_lab.GoLib.Path.{dir, split}
use red_lab.System.{
  File, Machine, Error, Result, ok, err, no_such_file, permission_denied, file_exists,
  not_a_directory, not_permitted, bad_mode,
}
use red_lab.System.Paths.{normalize_path}
use red_lab.System.Permissions.{can_write, file_at}
use red_lab.System.Files.{Outcome, with_path, new_file}

-- The loop of MakeDirAll; `current` is the path of the parts before.
unfoldable pub make_parts : Machine → String → String → List String → Outcome
make_parts m user current [] = (m, none)
make_parts m user current (part ∷ parts) =
    let p = current +++ "/" +++ part in
    elim (get m.files p) [
      | some existing ↦
          let rest = make_parts m user p parts in
          if not existing.directory then (m, some not_a_directory) else rest
      | none ↦
          let made = record m { files = put m.files p (new_file m p user 0o755 true) } in
          let rest = make_parts made user p parts in
          if not (can_write m (file_at m (dir p)) user) then (m, some permission_denied) else rest
    ]

unfoldable pub make_dir_all : Machine → String → String → Outcome
make_dir_all m filename user = with_path m filename λ p. elim (get m.files p) [
  | some existing ↦ if existing.directory then (m, none) else (m, some file_exists)
  | none ↦ make_parts m user "" (split (trim_prefix p "/"))
]

-- `strconv.ParseUint(value, 8, 32)` behind the digits that are read, which are worth `n`. A text
-- without digits, a character that is no octal digit and a number beyond 32 bits are refused.
unfoldable pub octal_from : ℕ → String → Option ℕ
octal_from n String.[] = some n
octal_from n (String.◌∷◌ c s) =
    let m = 8 * n + (code c - b'0') in
    let rest = octal_from m s in
    if leb b'0' (code c) && leb (code c) b'7' && ltb m (2 ^ 32) then rest else none

abbrev pub octal : String → Option ℕ
octal s = if s == "" then none else octal_from 0 s

unfoldable pub parse_mode : String → ℕ → Result ℕ
parse_mode value fallback =
    if value == ""
    then ok fallback
    else elim (octal (trim_prefix value "0o")) [ none ↦ err bad_mode | some mode ↦ ok mode ]

unfoldable pub chmod : Machine → String → String → String → Outcome
chmod m filename mode user = with_path m filename λ p. elim (get m.files p) [
  | none ↦ (m, some no_such_file)
  | some file ↦
      if not (user == "root") && not (file.owner == user)
      then (m, some not_permitted)
      else elim (parse_mode mode file.mode) [
        | err e ↦ (m, some e)
        | ok parsed ↦ (record m { files = put m.files p (record file { mode = parsed }) }, none)
      ]
]
