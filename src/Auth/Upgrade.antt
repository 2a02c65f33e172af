-- ===== src/Auth/Upgrade.antt =====
-- The record of a secret that has just been made: what login relies on when it replaces a record.
use red_lab.Prelude.{
  String, true, false, ◌≡◌, Option, none, some, ◌==◌, arith, Option-cases, Bool-cases, inl, inr,
}
use red_lab.GoLib.Hex.{Bytes}
use red_lab.Auth.{Record, bcrypt_record, Bcrypt, new_record, verify, needs_upgrade}

-- What bcrypt documents: a hash that it makes is not empty, has the default cost and matches the
-- password that it was made from.
pub record IsBcrypt (bcrypt : Bcrypt) : Type 0 where
  pub hash_present :
      (secret hash : String) → bcrypt.generate secret ≡ some hash → (hash == "") ≡ false
  pub generated_cost :
      (secret hash : String)
      → bcrypt.generate secret ≡ some hash
      → bcrypt.cost hash ≡ some bcrypt.default_cost
  pub generated_matches :
      (secret hash : String)
      → bcrypt.generate secret ≡ some hash
      → bcrypt.matches hash secret ≡ true

module _ (bcrypt : Bcrypt) (is : IsBcrypt bcrypt) (sha256 : String → Bytes) where
  made :
      (secret hash : String)
      → (secret == "") ≡ false
      → bcrypt.generate secret ≡ some hash
      → (verify bcrypt sha256 (bcrypt_record hash) secret ≡ true)
        × (needs_upgrade bcrypt (bcrypt_record hash) ≡ false)
  unfolding verify needs_upgrade
  made secret hash e g = (
    rw (e, is.hash_present secret hash g) (is.generated_matches secret hash g),
    rw (is.generated_cost secret hash g) (ground arith),
  )

  -- A new record verifies its secret and needs no upgrade.
  pub new_record-verify :
      (secret : String) (r : Record)
      → new_record bcrypt sha256 secret ≡ some r
      → (verify bcrypt sha256 r secret ≡ true) × (needs_upgrade bcrypt r ≡ false)
  unfolding new_record
  new_record-verify secret r h = elim (Bool-cases (secret == "")) [
    | inl e ↦ elim (absent (rw e at h)) [ ]
    | inr e ↦ elim (Option-cases (bcrypt.generate secret)) [
      | inl g ↦ elim (absent (rw (e, g) at h)) [ ]
      | inr (hash, g) ↦ rw (← same hash (rw (e, g) at h)) (made secret hash e g)
    ]
  ]
    where
      absent : ◌≡◌ {A = Option Record} none (some r) → ⊥
      absent n = cc

      same :
          (hash : String)
          → ◌≡◌ {A = Option Record} (some (bcrypt_record hash)) (some r)
          → bcrypt_record hash ≡ r
      same hash k = cc
