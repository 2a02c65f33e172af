-- ===== src/Server/Login/Again.antt =====
-- A secret that was accepted is accepted again, whether its record was replaced or not.
use red_lab.Prelude.{
  String, Bool, true, false, ◌≡◌, refl, Option, none, some, ◌==◌, ap, Option-cases, Bool-cases, inl,
  inr, if◌then◌else◌,
}
use red_lab.Prelude.GoMap.{get, put, get-put_self}
use red_lab.GoLib.Hex.{Bytes}
use red_lab.Auth.{Record, Credentials, Bcrypt, new_record, verify, needs_upgrade}
use red_lab.Auth.Upgrade.{IsBcrypt, new_record-verify}
use red_lab.Server.Login.{
  Secrets, Login, errored, refused, accepted, find_record, replace_record, upgrade, check_record,
  verify_credential,
}

-- A kind that has a record still has one behind its replacement: the new one.
find_record-replace_record :
    (c : Credentials) (kind team : String) (q r : Record)
    → find_record c kind team ≡ some (some q)
    → find_record (replace_record c kind team r) kind team ≡ some (some r)
unfolding find_record replace_record
find_record-replace_record c kind team q r h =
    by_kind (kind == "organizer") (kind == "link") (kind == "team") h
  where
    unknown : ◌≡◌ {A = Option (Option Record)} none (some (some q)) → ⊥
    unknown h = cc

    by_kind :
        (a b d : Bool)
        → (if a
            then some (some c.organizer)
            else if b
            then some (some c.link)
            else if d
            then some (get c.teams team)
            else none)
          ≡ some (some q)
        → let c2 =
            (if a
              then record c { organizer = r }
              else if b
              then record c { link = r }
              else if d
              then record c { teams = put c.teams team r }
              else c) in
          (if a
            then some (some c2.organizer)
            else if b
            then some (some c2.link)
            else if d
            then some (get c2.teams team)
            else none)
          ≡ some (some r)
    by_kind true b d h = refl
    by_kind false true d h = refl
    by_kind false false true h =
        ap {B = Option (Option Record)} (λ o. some o) (get-put_self c.teams team r)
    by_kind false false false h = elim (unknown h) [ ]

-- The credentials of a server whose file was read.
abbrev opened : Credentials → Secrets
opened c = record { credentials = c; failed = false }

clash_refused : refused ≡ accepted → ⊥
clash_refused h = cc

clash_errored : errored ≡ accepted → ⊥
clash_errored h = cc

module _ (bcrypt : Bcrypt) (is : IsBcrypt bcrypt) (sha256 : String → Bytes) where
  -- The outcome does not accept, or its credentials accept again and stay.
  IsAgain : String → String → String → Secrets × Login → Type 0
  IsAgain kind team secret o =
      o.1 ≡ accepted
      → (later : Bool)
      → verify_credential bcrypt sha256 o.0 kind team secret later ≡ (o.0, accepted)

  refused-IsAgain :
      (kind team secret : String) (s : Secrets) → IsAgain kind team secret (s, refused)
  unfolding IsAgain
  refused-IsAgain kind team secret s h = elim (clash_refused h) [ ]

  errored-IsAgain :
      (kind team secret : String) (s : Secrets) → IsAgain kind team secret (s, errored)
  unfolding IsAgain
  errored-IsAgain kind team secret s h = elim (clash_errored h) [ ]

  current-IsAgain :
      (c : Credentials) (kind team secret : String) (r : Record)
      → find_record c kind team ≡ some (some r)
      → verify bcrypt sha256 r secret ≡ true
      → needs_upgrade bcrypt r ≡ false
      → IsAgain kind team secret (opened c, accepted)
  unfolding IsAgain verify_credential check_record
  current-IsAgain c kind team secret r g v n h later = rw g rw (v, n) refl

  saved-IsAgain :
      (c : Credentials) (kind team secret : String) (q r : Record) (saved : Bool)
      → find_record c kind team ≡ some (some q)
      → new_record bcrypt sha256 secret ≡ some r
      → IsAgain kind team secret
          (if saved then (opened (replace_record c kind team r), accepted) else (opened c, errored))
  saved-IsAgain c kind team secret q r true g e =
      let v = new_record-verify bcrypt is sha256 secret r e in
      current-IsAgain _ kind team secret r (find_record-replace_record c kind team q r g) v.0 v.1
  saved-IsAgain c kind team secret q r false g e = errored-IsAgain kind team secret (opened c)

  upgrade-IsAgain :
      (c : Credentials) (kind team secret : String) (saved : Bool) (q : Record)
      → find_record c kind team ≡ some (some q)
      → IsAgain kind team secret (upgrade bcrypt sha256 (opened c) kind team secret saved)
  unfolding upgrade
  upgrade-IsAgain c kind team secret saved q g =
      elim (Option-cases (new_record bcrypt sha256 secret)) [
        | inl e ↦ rw (e, upgrade) (errored-IsAgain kind team secret (opened c))
        | inr (r, e) ↦ rw (e, upgrade) (saved-IsAgain c kind team secret q r saved g e)
      ]

  check_record-IsAgain :
      (c : Credentials) (kind team secret : String) (saved : Bool) (r : Record)
      → find_record c kind team ≡ some (some r)
      → IsAgain kind team secret (check_record bcrypt sha256 (opened c) kind team secret saved r)
  unfolding check_record
  check_record-IsAgain c kind team secret saved r g =
      elim (Bool-cases (verify bcrypt sha256 r secret)) [
        | inr v ↦ rw v (refused-IsAgain kind team secret (opened c))
        | inl v ↦ elim (Bool-cases (needs_upgrade bcrypt r)) [
          | inr n ↦ rw (v, n) (current-IsAgain c kind team secret r g v n)
          | inl n ↦ rw (v, n) (upgrade-IsAgain c kind team secret saved r g)
        ]
      ]

  found-IsAgain :
      (c : Credentials) (kind team secret : String) (saved : Bool) (o : Option (Option Record))
      → find_record c kind team ≡ o
      → IsAgain kind team secret (verify_credential bcrypt sha256 (opened c) kind team secret saved)
  unfolding verify_credential
  found-IsAgain c kind team secret saved none g = rw g (errored-IsAgain kind team secret (opened c))
  found-IsAgain c kind team secret saved (some none) g =
      rw g (refused-IsAgain kind team secret (opened c))
  found-IsAgain c kind team secret saved (some (some r)) g =
      rw g (check_record-IsAgain c kind team secret saved r g)

  verify_credential-IsAgain :
      (c : Credentials) (failed : Bool) (kind team secret : String) (saved : Bool)
      → let s : Secrets = record { credentials = c; failed = failed } in
        IsAgain kind team secret (verify_credential bcrypt sha256 s kind team secret saved)
  verify_credential-IsAgain c true kind team secret saved =
      unfold verify_credential in
      errored-IsAgain kind team secret (record { credentials = c; failed = true })
  verify_credential-IsAgain c false kind team secret saved =
      found-IsAgain c kind team secret saved _ refl

  -- Where bcrypt keeps to its documentation, a secret that was accepted is accepted by every later
  -- call on the credentials that this call leaves, its record replaced or not, whether the file can
  -- then be written or not, and the later call changes nothing.
  pub verify_credential-verify_credential :
      (s : Secrets) (kind team secret : String) (saved later : Bool)
      → (verify_credential bcrypt sha256 s kind team secret saved).1 ≡ accepted
      → let after = (verify_credential bcrypt sha256 s kind team secret saved).0 in
        verify_credential bcrypt sha256 after kind team secret later ≡ (after, accepted)
  unfolding IsAgain
  verify_credential-verify_credential s kind team secret saved later a =
      verify_credential-IsAgain s.credentials s.failed kind team secret saved a later
