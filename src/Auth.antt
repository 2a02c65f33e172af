-- ===== src/Auth.antt =====
-- internal/auth/credentials.go: the records of secrets and the file that holds them. The packages
-- bcrypt and crypto/sha256 are parameters; random codes and the file itself are not modelled.
pub mod Upgrade
use Prim.Native.String.{◌++◌ as ◌+++◌}
use red_lab.Prelude.{
  ℕ, ltb, eqb, String, Bool, true, false, not, ◌&&◌, ◌||◌, Option, none, some, List, [], ◌∷◌, ◌==◌,
  if◌then◌else◌,
}
use red_lab.Prelude.GoMap.{GoMap}
use red_lab.GoLib.Hex.{Bytes, encode, decode}
use red_lab.GoLib.Strings.{byte_size, trim_space}

pub record Record : Type 0 where
  pub algorithm : String
  pub salt : String
  pub hash : String

abbrev pub no_record : Record
no_record = record { algorithm = ""; salt = ""; hash = "" }

-- The type `File`.
pub record Credentials : Type 0 where
  pub organizer : Record
  pub link : Record
  pub teams : GoMap Record

abbrev pub bcrypt_record : String → Record
bcrypt_record hash = record { algorithm = "bcrypt"; salt = ""; hash = hash }

-- golang.org/x/crypto/bcrypt: GenerateFromPassword with the default cost, where an error is `none`
-- and the salt is the call's, CompareHashAndPassword, Cost and DefaultCost.
pub record Bcrypt : Type 0 where
  pub generate : String → Option String
  pub matches : String → String → Bool
  pub cost : String → Option ℕ
  pub default_cost : ℕ

-- The errors of `validateRecord` and `EnsureValid`.
pub data Malformed : Type 0 where
  bcrypt_hash legacy_hash legacy_salt unsupported : Malformed

pub data FileError : Type 0 where
  organizer_missing no_teams empty_team : FileError
  team_invalid : String → Malformed → FileError
  link_invalid : Malformed → FileError

abbrev pub is_legacy : String → Bool
is_legacy algorithm = algorithm == "" || algorithm == "sha256"

module _ (bcrypt : Bcrypt) (sha256 : String → Bytes) where
  -- `hash`
  unfoldable pub hash_secret : String → String → String
  hash_secret salt secret = encode (sha256 (salt +++ "\0" +++ secret))

  -- NewRecord
  unfoldable pub new_record : String → Option Record
  new_record secret =
      if secret == ""
      then none
      else elim (bcrypt.generate secret) [ none ↦ none | some hash ↦ some (bcrypt_record hash) ]

  -- Verify
  unfoldable pub verify : Record → String → Bool
  verify r secret =
      if secret == "" || r.hash == ""
      then false
      else if r.algorithm == "bcrypt"
      then bcrypt.matches r.hash secret
      else if is_legacy r.algorithm
      then not (r.salt == "") && r.hash == hash_secret r.salt secret
      else false

abbrev is_hex : String → Bool
is_hex text = elim (decode text) [ none ↦ false | some bytes ↦ true ]

module _ (bcrypt : Bcrypt) where
  -- NeedsUpgrade
  unfoldable pub needs_upgrade : Record → Bool
  needs_upgrade r =
      if not (r.algorithm == "bcrypt")
      then true
      else elim (bcrypt.cost r.hash) [ none ↦ true | some cost ↦ ltb cost bcrypt.default_cost ]

  unfoldable pub validate_record : Record → Option Malformed
  validate_record r =
      if r.algorithm == "bcrypt"
      then elim (bcrypt.cost r.hash) [ none ↦ some bcrypt_hash | some cost ↦ none ]
      else if is_legacy r.algorithm
      then (if not (eqb (byte_size r.salt) 32) || not (eqb (byte_size r.hash) 64)
          then some legacy_hash
          else if not (is_hex r.salt)
          then some legacy_salt
          else if not (is_hex r.hash)
          then some legacy_hash
          else none)
      else some unsupported

  -- The loop over the teams.
  unfoldable pub validate_teams : GoMap Record → Option FileError
  validate_teams [] = none
  validate_teams ((team, r) ∷ teams) =
      let rest = validate_teams teams in
      if trim_space team == ""
      then some empty_team
      else elim (validate_record r) [ some m ↦ some (team_invalid team m) | none ↦ rest ]

  -- EnsureValid
  unfoldable pub ensure_valid : Credentials → Option FileError
  ensure_valid file = elim (validate_record file.organizer) [
    | some m ↦ some organizer_missing
    | none ↦ elim file.teams [
      | [] ↦ some no_teams
      | _ ∷ _ ↦ elim (validate_teams file.teams) [
        | some e ↦ some e
        | none ↦
            if file.link.hash == ""
            then none
            else elim (validate_record file.link) [ none ↦ none | some m ↦ some (link_invalid m) ]
      ]
    ]
  ]
