-- ===== src/System/Permissions.antt =====
-- The permission tests of internal/system/state.go.
use Prim.Native.Nat.{bit_and}
use red_lab.Prelude.{
  ℕ, String, Bool, true, false, not, ◌||◌, none, some, List, [], ◌∷◌, ◌==◌, eqb, if◌then◌else◌,
}
use red_lab.Prelude.GoMap.{get, get_or}
use red_lab.System.{File, User, Machine}

-- A list holds a text: `for _, g := range groups { if g == group { … } }`.
unfoldable pub member : String → List String → Bool
member w [] = false
member w (v ∷ vs) = v == w || member w vs

-- `mode & bits != 0`
abbrev pub has_bits : ℕ → ℕ → Bool
has_bits mode bits = not (eqb (bit_and mode bits) 0)

-- permissionLocked, for a user who is in the user table.
unfoldable pub user_permission : User → File → String → ℕ → ℕ → ℕ → Bool
user_permission u file user owner group other =
    if file.owner == user
    then has_bits file.mode owner
    else if member file.group u.groups
    then has_bits file.mode group
    else has_bits file.mode other

unfoldable pub permission : Machine → File → String → ℕ → ℕ → ℕ → Bool
permission m file user owner group other =
    if user == "root" then true else elim (get m.users user) [
      | none ↦ false
      | some u ↦ user_permission u file user owner group other
    ]

-- The modes of the constants ModeOwnerRead to ModeOtherWrite.
unfoldable pub can_read : Machine → File → String → Bool
can_read m file user = permission m file user 0o400 0o040 0o004

unfoldable pub can_write : Machine → File → String → Bool
can_write m file user = if user == "root" then true else permission m file user 0o200 0o020 0o002

unfoldable pub primary_group : Machine → String → String
primary_group m user = elim (get m.users user) [
  | none ↦ user
  | some u ↦ elim u.groups [ [] ↦ user | g ∷ rest ↦ g ]
]

-- The zero value of `File`.
abbrev pub no_file : File
no_file = record {
  path = "";
  content = "";
  owner = "";
  group = "";
  mode = 0;
  selinux_type = "";
  directory = false;
}

-- `s.Files[p]`
abbrev pub file_at : Machine → String → File
file_at m p = get_or m.files p no_file
