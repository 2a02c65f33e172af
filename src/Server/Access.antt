-- ===== src/Server/Access.antt =====
-- The tokens of internal/server/server.go: access tokens are signed and refresh tokens are kept. The
-- packages base64, hmac, json and sha256 are parameters; the clock, the random bytes and whether the
-- database answers are arguments.
pub mod Signed
use Prim.Native.String.{◌++◌ as ◌+++◌}
use red_lab.Prelude.{
  ℕ, ◌+◌, ◌*◌, ◌/◌, ltb, eqb, String, Bool, true, false, not, ◌&&◌, ◌||◌, Option, none, some, List,
  [], ◌∷◌, ◌==◌, length, if◌then◌else◌,
}
use red_lab.Prelude.GoMap.{GoMap, get, put, remove, get_or}
use red_lab.Prelude.Int.{ℤ, sub_ℕ, ltb_ℤ}
use red_lab.GoLib.Hex.{Bytes, encode}
use red_lab.GoLib.Split.{split_dots, count_dots}
use red_lab.GoLib.Strings.{trim_prefix}
use red_lab.GoLib.Time.{Time, second, is_zero}
use red_lab.Store.Tokens.{
  TokenTable, Answers, Rotation, failed, refused, rotated, save_token, rotate_token,
}

-- `accessClaims`
pub record Claims : Type 0 where
  pub owner : String
  pub expiry : ℤ

-- base64.RawURLEncoding, hmac with sha256, json.Marshal and json.Unmarshal at the claims, and
-- sha256.Sum256.
pub record Codec : Type 0 where
  pub base64 : Bytes → String
  pub from_base64 : String → Option Bytes
  pub bytes : String → Bytes
  pub hmac : Bytes → String → Bytes
  pub marshal : Claims → Bytes
  pub unmarshal : Bytes → Option Claims
  pub sha256 : String → Bytes

-- The fields of the server that the tokens use; `stored` is the table of a store, if there is one.
pub record Access : Type 0 where
  pub tokens : GoMap String
  pub token_expiry : GoMap Time
  pub refresh_tokens : GoMap String
  pub stored : Option TokenTable
  pub signing_key : Bytes
  pub security_failed : Bool

-- t.Unix()
abbrev pub unix : Time → ℤ
unix t = sub_ℕ (t / second) 62135596800

abbrev pub half_hour : ℕ
half_hour = 30 * 60 * second

abbrev pub thirty_days : ℕ
thirty_days = 30 * 24 * 60 * 60 * second

unfoldable pub equal_bytes : Bytes → Bytes → Bool
equal_bytes [] [] = true
equal_bytes [] (b ∷ bs) = false
equal_bytes (a ∷ rest) [] = false
equal_bytes (a ∷ rest) (b ∷ bs) = eqb a b && equal_bytes rest bs

module _ (codec : Codec) where
  unfoldable pub sign_access : Bytes → String → Time → String
  sign_access key owner expires =
      let header = codec.base64 (codec.bytes "{\"alg\":\"HS256\",\"typ\":\"RLAT\"}") in
      let payload =
        codec.base64 (codec.marshal (record { owner = owner; expiry = unix expires })) in
      let signature = codec.base64 (codec.hmac key (header +++ ("." +++ payload))) in
      header +++ ("." +++ (payload +++ ("." +++ signature)))

  -- The claims of a signed token, if they have an owner and are not over.
  unfoldable pub valid_claims : String → Time → Option String
  valid_claims payload now = elim (codec.from_base64 payload) [
    | none ↦ none
    | some bytes ↦ elim (codec.unmarshal bytes) [
      | none ↦ none
      | some claims ↦
          if claims.owner == "" || not (ltb_ℤ (unix now) claims.expiry)
          then none
          else some claims.owner
    ]
  ]

  unfoldable pub verify_parts : Bytes → List String → Time → Option String
  verify_parts key (header ∷ payload ∷ signature ∷ []) now =
      if ltb (length key) 32 then none else elim (codec.from_base64 signature) [
        | none ↦ none
        | some expected ↦
            if not (equal_bytes expected (codec.hmac key (header +++ ("." +++ payload))))
            then none
            else valid_claims payload now
      ]
  verify_parts key _ now = none

  unfoldable pub verify_access : Bytes → String → Time → Option String
  verify_access key token now = verify_parts key (split_dots token) now

  -- The tokens in the map; one that is over is deleted.
  unfoldable pub kept_owner : Access → String → Time → Access × String
  kept_owner a token now = elim (get a.tokens token) [
    | none ↦ (a, "")
    | some owner ↦
        let expiry = get_or a.token_expiry token 0 in
        if not (is_zero expiry) && ltb expiry now
        then (
          record a { tokens = remove a.tokens token; token_expiry = remove a.token_expiry token },
          "",
        )
        else (a, owner)
  ]

  unfoldable pub token_owner : Access → String → Time → Access × String
  token_owner a token now =
      if token == "" then (a, "") else elim (verify_access a.signing_key token now) [
        | some owner ↦ (a, owner)
        | none ↦ if eqb (count_dots token) 2 then (a, "") else kept_owner a token now
      ]

  unfoldable pub authorize : Access → String → String → Time → Access × Bool
  authorize a authorization team now =
      let token = trim_prefix authorization "Bearer " in
      let o = token_owner a token now in
      if token == ""
      then (a, false)
      else (o.0, not (o.1 == "") && (o.1 == team || o.1 == "organizer"))

  unfoldable pub is_organizer : Access → String → Time → Access × Bool
  is_organizer a authorization now =
      let o = token_owner a (trim_prefix authorization "Bearer ") now in (o.0, o.1 == "organizer")

  unfoldable pub hash_token : String → String
  hash_token token = encode (codec.sha256 token)

  -- The maps behind an access token that was issued.
  unfoldable pub with_access : Access → String → String → Time → Access
  with_access a access owner expires = record a {
    tokens = put a.tokens access owner;
    token_expiry = put a.token_expiry access expires;
  }

  -- issueTokens, with the 32 random bytes, if they were drawn, and whether the database answers.
  unfoldable pub issue_tokens :
      Access → String → Time → Option Bytes → Bool → Access × Option (String × String)
  issue_tokens a owner now random answered =
      if a.security_failed || ltb (length a.signing_key) 32 then (a, none) else elim random [
        | none ↦ (a, none)
        | some drawn ↦
            let expires = now + half_hour in
            let access = sign_access a.signing_key owner expires in
            let refresh = encode drawn in
            let issued = with_access a access owner expires in
            elim a.stored [
              | none ↦ (
                record issued { refresh_tokens = put a.refresh_tokens (hash_token refresh) owner },
                some (access, refresh),
              )
              | some rows ↦
                  let saved = save_token rows (hash_token refresh) owner now (now + thirty_days) in
                  if not (answered && saved.1)
                  then (a, none)
                  else (record issued { stored = some saved.0 }, some (access, refresh))
            ]
      ]

  -- The refresh token is taken from the map or from the table.
  unfoldable pub take_refresh : Access → String → Time → Answers → Access × Rotation
  take_refresh a hash now answers = elim a.stored [
    | some rows ↦
        let r = rotate_token rows hash now answers in (record a { stored = some r.0 }, r.1)
    | none ↦ elim (get a.refresh_tokens hash) [
      | none ↦ (a, refused)
      | some owner ↦ (record a { refresh_tokens = remove a.refresh_tokens hash }, rotated owner)
    ]
  ]

  -- refresh, from the request's token on, with the status of the answer.
  unfoldable pub refresh :
      Access → String → Time → Answers → Option Bytes → Bool → Access × ℕ × Option (String × String)
  refresh a token now answers random answered =
      if token == ""
      then (a, 400, none)
      else let t = take_refresh a (hash_token token) now answers in
        elim t.1 [
          | failed ↦ (t.0, 500, none)
          | refused ↦ (t.0, 401, none)
          | rotated owner ↦
              let issued = issue_tokens t.0 owner now random answered in
              elim issued.1 [
                | none ↦ (issued.0, 500, none)
                | some both ↦ (issued.0, 200, some both)
              ]
        ]
