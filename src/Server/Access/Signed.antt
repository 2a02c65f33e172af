-- ===== src/Server/Access/Signed.antt =====
-- An access token that the server has signed lets its owner in until it is over, and nobody else
-- but the organizer.
use Prim.Native.String.{◌++◌ as ◌+++◌}
use text.Mathlib.TextLemmas.{cons-append, nil-append}
use red_lab.Prelude.{
  ℕ, ◌≤◌, ltb, eqb, eq_iff, suc, ◌+◌, Char, String, Bool, true, false, not, ◌&&◌, ◌||◌, Option,
  none, some, [], ◌∷◌, ◌==◌, ◌≡◌, refl, ap, ◌∙◌, length, All, if◌then◌else◌, arith, Bool-cases, inl,
  inr,
}
use red_lab.Prelude.Int.{ltb_ℤ}
use red_lab.GoLib.Hex.{Bytes, IsByte}
use red_lab.GoLib.Split.{split_dots, count_dots, split_dots-last, split_dots-part}
use red_lab.GoLib.Strings.{size, has_prefix, trim_prefix}
use red_lab.GoLib.Strings.Laws.{Lacks}
use red_lab.GoLib.Time.{Time}
use red_lab.Server.Access.{
  Claims, Codec, Access, unix, equal_bytes, sign_access, valid_claims, verify_parts, verify_access,
  kept_owner, token_owner, authorize,
}

-- What the packages document: they work on bytes, base64 is read back and has none of the dots that
-- part a token, and the JSON of the claims is read back.
pub record IsCodec (codec : Codec) (claims : Claims) : Type 0 where
  pub bytes_bytes : (text : String) → All IsByte (codec.bytes text)
  pub hmac_bytes : (key : Bytes) (message : String) → All IsByte (codec.hmac key message)
  pub marshal_bytes : All IsByte (codec.marshal claims)
  pub from_base64_base64 : (b : Bytes) → All IsByte b → codec.from_base64 (codec.base64 b) ≡ some b
  pub base64_lacks : (b : Bytes) → All IsByte b → Lacks b'.' (codec.base64 b)
  pub unmarshal_marshal : codec.unmarshal (codec.marshal claims) ≡ some claims

equal_bytes_refl : (b : Bytes) → equal_bytes b b ≡ true
unfolding equal_bytes
equal_bytes_refl [] = refl
equal_bytes_refl (n ∷ b) = ground (arith, equal_bytes_refl b)

has_prefix-append : (p t : String) → has_prefix (p +++ t) p ≡ true
unfolding has_prefix
has_prefix-append String.[] t = refl
has_prefix-append (String.◌∷◌ c p) t = rw cons-append ground (arith, has_prefix-append p t)

trim_prefix-append : (p t : String) → trim_prefix (p +++ t) p ≡ t
unfolding trim_prefix
trim_prefix-append String.[] t = rw nil-append refl
trim_prefix-append (String.◌∷◌ c p) t =
    rw cons-append rw (← cons-append c p t) rw has_prefix-append (trim_prefix-append p t)

count_dots-last : (w : String) → Lacks b'.' w → count_dots w ≡ 0
unfolding count_dots
count_dots-last String.[] h = refl
count_dots-last (String.◌∷◌ c w) h = rw h.0 (omega (arith, count_dots-last w h.1))

count_dots-part : (w t : String) → Lacks b'.' w → count_dots (w +++ ("." +++ t)) ≡ 1 + count_dots t
unfolding count_dots
count_dots-part String.[] t h = rw nil-append rw (cons-append "." "" t) rw nil-append refl
count_dots-part (String.◌∷◌ c w) t h =
    rw cons-append (rw h.0 (omega (arith, count_dots-part w t h.1)))

cons_present : (c : Char) (t : String) → (String.◌∷◌ c t == "") ≡ false
cons_present c t = elim (Bool-cases (String.◌∷◌ c t == "")) [
  | inr e ↦ e
  | inl e ↦ absurd (longer (ap size ((eq_iff (String.◌∷◌ c t) "").0 e)))
]
  where
    longer : suc (size t) ≡ 0 → ⊥
    longer e = omega arith

dotted_present : (w t : String) → ((w +++ ("." +++ t)) == "") ≡ false
dotted_present String.[] t = rw nil-append rw (cons-append "." "" t) (cons_present "." ("" +++ t))
dotted_present (String.◌∷◌ c w) t = rw cons-append (cons_present c (w +++ ("." +++ t)))

-- Three parts between dots.
split_dots-three :
    (h p s : String)
    → Lacks b'.' h
    → Lacks b'.' p
    → Lacks b'.' s
    → split_dots (h +++ ("." +++ (p +++ ("." +++ s)))) ≡ h ∷ p ∷ s ∷ []
split_dots-three h p s a b c =
    split_dots-part h _ a
    ∙ ap (λ l. h ∷ l) (split_dots-part p s b ∙ ap (λ l. p ∷ l) (split_dots-last s c))

count_dots-three :
    (h p s : String)
    → Lacks b'.' h
    → Lacks b'.' p
    → Lacks b'.' s
    → count_dots (h +++ ("." +++ (p +++ ("." +++ s)))) ≡ 2
count_dots-three h p s a b c =
    omega
      (arith, count_dots-part h (p +++ ("." +++ s)) a, count_dots-part p s b, count_dots-last s c)

abbrev pub claims_of : String → Time → Claims
claims_of owner expires = record { owner = owner; expiry = unix expires }

module _ (codec : Codec) (owner : String) (expires : Time)
    (is : IsCodec codec (claims_of owner expires)) where
  valid_claims-marshal :
      (now : Time)
      → valid_claims codec (codec.base64 (codec.marshal (claims_of owner expires))) now
        ≡ (if owner == "" || not (ltb_ℤ (unix now) (unix expires)) then none else some owner)
  unfolding valid_claims
  valid_claims-marshal now =
      rw
        (
          is.from_base64_base64 (codec.marshal (claims_of owner expires)) is.marshal_bytes,
          valid_claims,
        )
        rw is.unmarshal_marshal refl

  verify_parts-hmac :
      (key : Bytes) (header payload : String) (now : Time)
      → 32 ≤ length key
      → let signature = codec.base64 (codec.hmac key (header +++ ("." +++ payload))) in
        verify_parts codec key (header ∷ payload ∷ signature ∷ []) now
        ≡ valid_claims codec payload now
  unfolding verify_parts
  verify_parts-hmac key header payload now long =
      rw (not_short (length key) long) rw
        (is.from_base64_base64 _ (is.hmac_bytes key (header +++ ("." +++ payload)))) rw
        equal_bytes_refl refl
    where
      not_short : (n : ℕ) → 32 ≤ n → ltb n 32 ≡ false
      not_short n h = ground arith

  -- A signed token gives its owner until it is over.
  verify_access-sign_access :
      (key : Bytes) (now : Time)
      → 32 ≤ length key
      → verify_access codec key (sign_access codec key owner expires) now
        ≡ (if owner == "" || not (ltb_ℤ (unix now) (unix expires)) then none else some owner)
  unfolding verify_access sign_access
  verify_access-sign_access key now long =
      rw
        (split_dots-three _ _ _ (is.base64_lacks _ (is.bytes_bytes _))
          (is.base64_lacks _ is.marshal_bytes) (is.base64_lacks _ (is.hmac_bytes _ _)))
        (verify_parts-hmac key _ _ now long ∙ valid_claims-marshal now)

  abbrev owner_or_none : Option String → String
  owner_or_none none = ""
  owner_or_none (some owner) = owner

  -- The maps say nothing of a token of three parts.
  token_owner-three :
      (a : Access) (token : String) (now : Time)
      → (token == "") ≡ false
      → count_dots token ≡ 2
      → token_owner codec a token now
        ≡ (a, owner_or_none (verify_access codec a.signing_key token now))
  unfolding token_owner
  token_owner-three a token now present three =
      rw present (by_claims (verify_access codec a.signing_key token now))
    where
      by_claims :
          (o : Option String)
          → (elim o [
            | some owner ↦ (a, owner)
            | none ↦ if eqb (count_dots token) 2 then (a, "") else kept_owner codec a token now
          ])
            ≡ (a, owner_or_none o)
      by_claims none = rw three refl
      by_claims (some owner) = refl

  signed_present : (key : Bytes) → (sign_access codec key owner expires == "") ≡ false
  unfolding sign_access
  signed_present key = dotted_present _ _

  signed_dots : (key : Bytes) → count_dots (sign_access codec key owner expires) ≡ 2
  unfolding sign_access
  signed_dots key =
      count_dots-three _ _ _ (is.base64_lacks _ (is.bytes_bytes _))
        (is.base64_lacks _ is.marshal_bytes) (is.base64_lacks _ (is.hmac_bytes _ _))

  token_owner-sign_access :
      (a : Access) (now : Time)
      → 32 ≤ length a.signing_key
      → (owner == "") ≡ false
      → token_owner codec a (sign_access codec a.signing_key owner expires) now
        ≡ (a, if ltb_ℤ (unix now) (unix expires) then owner else "")
  token_owner-sign_access a now long named =
      token_owner-three a _ now (signed_present a.signing_key) (signed_dots a.signing_key)
      ∙ ap (λ o. (a, owner_or_none o)) (verify_access-sign_access a.signing_key now long)
      ∙ rw named (by_time (ltb_ℤ (unix now) (unix expires)))
    where
      by_time :
          (b : Bool)
          → ◌≡◌ {A = Access × String}
              (a, owner_or_none (if not b then none else some owner))
              (a, if b then owner else "")
      by_time true = refl
      by_time false = refl

  -- With a key of 32 bytes at least, and with packages that keep to their documentation, the token
  -- that is signed for an owner lets into a team until its second of expiry if the team is the
  -- owner's or the owner is the organizer, and never else; the maps of tokens stay as they are.
  pub authorize-sign_access :
      (a : Access) (team : String) (now : Time)
      → 32 ≤ length a.signing_key
      → (owner == "") ≡ false
      → authorize codec a ("Bearer " +++ sign_access codec a.signing_key owner expires) team now
        ≡ (a, ltb_ℤ (unix now) (unix expires) && (owner == team || owner == "organizer"))
  unfolding authorize
  authorize-sign_access a team now long named =
      rw (trim_prefix-append "Bearer " (sign_access codec a.signing_key owner expires)) rw
        (signed_present a.signing_key, token_owner-sign_access a now long named)
        (by_time (ltb_ℤ (unix now) (unix expires)))
    where
      by_time :
          (b : Bool)
          → let o = if b then owner else "" in
            ◌≡◌ {A = Access × Bool}
              (a, not (o == "") && (o == team || o == "organizer"))
              (a, b && (owner == team || owner == "organizer"))
      by_time true = rw named refl
      by_time false = refl
