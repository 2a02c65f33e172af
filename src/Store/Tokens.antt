-- ===== src/Store/Tokens.antt =====
-- The refresh tokens of internal/store/store.go. A token's hash is the key of its row.
use red_lab.Prelude.{
  ℕ, eqb, String, Bool, true, false, not, ◌||◌, Option, none, some, if◌then◌else◌,
}
use red_lab.Prelude.GoMap.{GoMap, get, put}
use red_lab.GoLib.Time.{Time, before}

pub record TokenRow : Type 0 where
  pub owner : String
  pub issued_at : Time
  pub expires_at : Time
  pub used_at : Option Time

abbrev pub TokenTable : Type 0
TokenTable = GoMap TokenRow

-- SaveRefreshToken: the table afterwards and whether the row is in. A key that is there is an error.
unfoldable pub save_token : TokenTable → String → String → Time → Time → TokenTable × Bool
save_token rows hash owner issued expires = elim (get rows hash) [
  | some row ↦ (rows, false)
  | none ↦ (
    put rows hash
        (record { owner = owner; issued_at = issued; expires_at = expires; used_at = none }),
    true,
  )
]

-- Which calls of the database are answered: Begin, QueryRow, Exec with RowsAffected, and Commit.
pub record Answers : Type 0 where
  pub began : Bool
  pub queried : Bool
  pub updated : Bool
  pub committed : Bool

abbrev pub all_answered : Answers
all_answered = record { began = true; queried = true; updated = true; committed = true }

-- An error, `false` without an error, and the owner.
pub data Rotation : Type 0 where
  failed refused : Rotation
  rotated : String → Rotation

-- `UPDATE … SET used_at=? WHERE token_hash=? AND used_at IS NULL`, with the number of rows.
unfoldable pub set_used : TokenTable → String → Time → TokenTable × ℕ
set_used rows hash now = elim (get rows hash) [
  | none ↦ (rows, 0)
  | some row ↦ elim row.used_at [
    | some t ↦ (rows, 0)
    | none ↦ (put rows hash (record row { used_at = some now }), 1)
  ]
]

-- From the UPDATE on: what is not committed is rolled back.
unfoldable pub use_token : TokenTable → String → TokenRow → Time → Answers → TokenTable × Rotation
use_token rows hash row now a =
    let u = set_used rows hash now in
    if not a.updated
    then (rows, failed)
    else if not (eqb u.1 1)
    then (rows, refused)
    else if not a.committed
    then (rows, failed)
    else (u.0, rotated row.owner)

abbrev pub is_used : TokenRow → Bool
is_used row = elim row.used_at [ none ↦ false | some t ↦ true ]

-- RotateRefreshToken
unfoldable pub rotate_token : TokenTable → String → Time → Answers → TokenTable × Rotation
rotate_token rows hash now a =
    if not a.began || not a.queried then (rows, failed) else elim (get rows hash) [
      | none ↦ (rows, refused)
      | some row ↦
          if is_used row || not (before now row.expires_at)
          then (rows, refused)
          else use_token rows hash row now a
    ]
