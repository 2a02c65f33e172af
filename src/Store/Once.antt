-- ===== src/Store/Once.antt =====
-- A refresh token is rotated once.
use red_lab.Prelude.{
  ℕ, ◌+◌, ◌≤◌, String, Bool, true, false, not, ◌&&◌, ◌||◌, ◌≡◌, refl, sym, ◌∙◌, Option, none, some,
  List, [], ◌∷◌, ◌==◌, eq_iff, arith, if◌then◌else◌, and_true, Option-cases, Bool-cases, inl, inr,
  ◌⊎◌,
}
use red_lab.Prelude.GoMap.{get, put, get-put, get-put_self}
use red_lab.GoLib.Time.{Time, before}
use red_lab.Store.Tokens.{
  TokenRow, TokenTable, Answers, Rotation, failed, refused, rotated, save_token, set_used,
  use_token, rotate_token, is_used, all_answered,
}

-- What the server does with the table.
pub data Call : Type 0 where
  save : String → String → Time → Time → Call
  rotate : String → Time → Answers → Call

abbrev pub after : TokenTable → Call → TokenTable
after rows (save hash owner issued expires) = (save_token rows hash owner issued expires).0
after rows (rotate hash now a) = (rotate_token rows hash now a).0

abbrev pub is_rotated : Rotation → Bool
is_rotated failed = false
is_rotated refused = false
is_rotated (rotated owner) = true

-- Whether a call rotates the token.
abbrev pub rotates : String → TokenTable → Call → Bool
rotates h rows (save hash owner issued expires) = false
rotates h rows (rotate hash now a) = hash == h && is_rotated (rotate_token rows hash now a).1

-- How often the token is rotated.
unfoldable pub rotations : String → TokenTable → List Call → ℕ
rotations h rows [] = 0
rotations h rows (c ∷ calls) =
    (if rotates h rows c then 1 else 0) + rotations h (after rows c) calls

-- A rotation changes nothing and gives no owner, or it marks a token that was not used.
Outcome : TokenTable → String → Time → TokenTable × Rotation → Type 0
Outcome rows hash now o =
    ((o.0 ≡ rows) × (is_rotated o.1 ≡ false))
    ⊎ ((row : TokenRow) × (get rows hash ≡ some row)
        × (is_used row ≡ false)
        × (o.0 ≡ put rows hash (record row { used_at = some now })))

Outcome-if :
    (rows : TokenTable) (hash : String) (now : Time) (b : Bool) (x y : TokenTable × Rotation)
    → Outcome rows hash now x
    → Outcome rows hash now y
    → Outcome rows hash now (if b then x else y)
Outcome-if rows hash now true x y h k = h
Outcome-if rows hash now false x y h k = k

refused-Outcome :
    (rows : TokenTable) (hash : String) (now : Time) → Outcome rows hash now (rows, refused)
unfolding Outcome
refused-Outcome rows hash now = inl (refl, refl)

failed-Outcome :
    (rows : TokenTable) (hash : String) (now : Time) → Outcome rows hash now (rows, failed)
unfolding Outcome
failed-Outcome rows hash now = inl (refl, refl)

set_used-unused :
    (rows : TokenTable) (hash : String) (row : TokenRow) (now : Time)
    → get rows hash ≡ some row
    → row.used_at ≡ none
    → set_used rows hash now ≡ (put rows hash (record row { used_at = some now }), 1)
unfolding set_used
set_used-unused rows hash row now h e = rw (h, set_used) rw e refl

set_used-used :
    (rows : TokenTable) (hash : String) (row : TokenRow) (now t : Time)
    → get rows hash ≡ some row
    → row.used_at ≡ some t
    → set_used rows hash now ≡ (rows, 0)
unfolding set_used
set_used-used rows hash row now t h e = rw (h, set_used) rw e refl

use_token-Outcome :
    (rows : TokenTable) (hash : String) (row : TokenRow) (now : Time) (a : Answers)
    → get rows hash ≡ some row
    → Outcome rows hash now (use_token rows hash row now a)
unfolding use_token
use_token-Outcome rows hash row now a h = marked row.used_at refl
  where
    done :
        row.used_at ≡ none
        → Outcome rows hash now
            (put rows hash (record row { used_at = some now }), rotated row.owner)
    done e = unfold Outcome in inr (row, h, rw e refl, refl)

    marked :
        (u : Option Time) → row.used_at ≡ u → Outcome rows hash now (use_token rows hash row now a)
    marked none e = rw (set_used-unused rows hash row now h e) (
        Outcome-if rows hash now (not a.updated) _ _ (failed-Outcome rows hash now)
          (Outcome-if rows hash now (not a.committed) _ _ (failed-Outcome rows hash now) (done e)))
    marked (some t) e = rw (set_used-used rows hash row now t h e) (
        Outcome-if rows hash now (not a.updated) _ _ (failed-Outcome rows hash now)
          (refused-Outcome rows hash now))

rotate_token-Outcome :
    (rows : TokenTable) (hash : String) (now : Time) (a : Answers)
    → Outcome rows hash now (rotate_token rows hash now a)
unfolding rotate_token
rotate_token-Outcome rows hash now a =
    Outcome-if rows hash now (not a.began || not a.queried) _ _ (failed-Outcome rows hash now)
      (elim (Option-cases (get rows hash)) [
        | inl e ↦ rw e (refused-Outcome rows hash now)
        | inr (row, e) ↦ rw e (
            Outcome-if rows hash now (is_used row || not (before now row.expires_at)) _ _
              (refused-Outcome rows hash now) (use_token-Outcome rows hash row now a e))
      ])

-- The token is in the table, and it is used.
Used : String → TokenTable → Type 0
Used h rows = (row : TokenRow) × (get rows h ≡ some row) × (is_used row ≡ true)

clash : {A : Type 0} → false ≡ true → A
clash h = elim (absurd h) [ ]
  where
    absurd : false ≡ true → ⊥
    absurd k = cc

put-Used :
    (h hash : String) (rows : TokenTable) (row : TokenRow) (b : Bool)
    → (hash == h) ≡ b
    → (b ≡ true → is_used row ≡ true)
    → Used h rows ⊎ (b ≡ true)
    → Used h (put rows hash row)
unfolding Used
put-Used h hash rows row true e u k = (row, get-put rows hash h row ∙ rw e refl, u refl)
put-Used h hash rows row false e u (inl (r, g, v)) = (r, get-put rows hash h row ∙ rw e g, v)
put-Used h hash rows row false e u (inr k) = clash k

save-Used :
    (h hash owner : String) (issued expires : Time) (rows : TokenTable)
    → Used h rows
    → Used h (save_token rows hash owner issued expires).0
unfolding save_token
save-Used h hash owner issued expires rows used = elim (Option-cases (get rows hash)) [
  | inr (row, e) ↦ rw (e, save_token) used
  | inl e ↦
      rw (e, save_token)
        (unfold Used in
          (used.0, get-put rows hash h _ ∙ grind (arith, eq_iff hash h, used.1), used.2))
]

rotate-Used :
    (h hash : String) (rows : TokenTable) (now : Time) (o : TokenTable × Rotation)
    → Outcome rows hash now o
    → Used h rows
    → Used h o.0
unfolding Outcome
rotate-Used h hash rows now o (inl (same, none_out)) used = rw same used
rotate-Used h hash rows now o (inr (row, g, unused, e)) used =
    rw e (put-Used h hash rows _ (hash == h) refl (λ _. refl) (inl used))

after-Used : (h : String) (rows : TokenTable) (c : Call) → Used h rows → Used h (after rows c)
after-Used h rows (save hash owner issued expires) used =
    save-Used h hash owner issued expires rows used
after-Used h rows (rotate hash now a) used =
    rotate-Used h hash rows now _ (rotate_token-Outcome rows hash now a) used

rotates-cases :
    (h hash : String) (rows : TokenTable) (now : Time) (o : TokenTable × Rotation)
    → (hash == h) ≡ true
    → Outcome rows hash now o
    → is_rotated o.1 ≡ true
    → Used h o.0 × (Used h rows → ⊥)
unfolding Outcome Used
rotates-cases h hash rows now o e (inl (same, none_out)) r = clash (sym none_out ∙ r)
rotates-cases h hash rows now o e (inr (row, g, unused, p)) r = (
  rw p (put-Used h hash rows _ true e (λ _. refl) (inr refl)),
  λ (r, f, used). different r f used ((eq_iff hash h).0 e),
)
  where
    different : (r : TokenRow) → get rows h ≡ some r → is_used r ≡ true → hash ≡ h → ⊥
    different r f used same = cc

rotates-Used :
    (h : String) (rows : TokenTable) (c : Call)
    → rotates h rows c ≡ true
    → Used h (after rows c) × (Used h rows → ⊥)
rotates-Used h rows (save hash owner issued expires) r = clash r
rotates-Used h rows (rotate hash now a) r =
    let both = and_true (hash == h) _ r in
    rotates-cases h hash rows now _ both.0 (rotate_token-Outcome rows hash now a) both.1

rotations-Used :
    (h : String) (rows : TokenTable) (calls : List Call) → Used h rows → rotations h rows calls ≡ 0
unfolding rotations
rotations-Used h rows [] used = refl
rotations-Used h rows (c ∷ calls) used = elim (Bool-cases (rotates h rows c)) [
  | inl e ↦ elim ((rotates-Used h rows c e).1 used) [ ]
  | inr e ↦ rw e (omega (arith, rotations-Used h (after rows c) calls (after-Used h rows c used)))
]

-- Whatever calls are made, in whatever order, at whatever times and with whatever answers of the
-- database, a refresh token is rotated at most once.
pub rotations-le_one :
    (h : String) (rows : TokenTable) (calls : List Call) → rotations h rows calls ≤ 1
unfolding rotations
rotations-le_one h rows [] = omega arith
rotations-le_one h rows (c ∷ calls) = elim (Bool-cases (rotates h rows c)) [
  | inl e ↦ rw e (omega (arith, rotations-Used h (after rows c) calls (rotates-Used h rows c e).0))
  | inr e ↦ rw e (omega (arith, rotations-le_one h (after rows c) calls))
]

rotate_token-unused :
    (rows : TokenTable) (hash : String) (now : Time) (row : TokenRow)
    → get rows hash ≡ some row
    → row.used_at ≡ none
    → before now row.expires_at ≡ true
    → (rotate_token rows hash now all_answered).1 ≡ rotated row.owner
unfolding rotate_token use_token
rotate_token-unused rows hash now row h e early =
    rw h rw (set_used-unused rows hash row now h e) rw early rw e refl

-- A token that is saved under a new hash and has not expired is rotated to its owner, if the
-- database answers every call.
pub rotate_token-save_token :
    (rows : TokenTable) (hash owner : String) (issued expires now : Time)
    → get rows hash ≡ none
    → before now expires ≡ true
    → let saved = (save_token rows hash owner issued expires).0 in
      (rotate_token saved hash now all_answered).1 ≡ rotated owner
unfolding save_token
rotate_token-save_token rows hash owner issued expires now new early =
    rw (new, save_token) (rotate_token-unused _ hash now _ (get-put_self rows hash _) refl early)
