-- ===== src/Evidence/Manifest.antt =====
-- `SignManifest` and `VerifyManifest` of internal/evidence/chain.go. Ed25519 and encoding/json are
-- parameters, with the laws that crypto/ed25519 documents.
use red_lab.Prelude.{
  String, Bool, true, not, ◌||◌, ◌≡◌, Option, none, some, length, All, eqb, arith, if◌then◌else◌,
  inl, inr, Option-cases, ◌↔◌,
}
use red_lab.Prelude.GoMap.{GoMap}
use red_lab.GoLib.Hex.{Bytes, IsByte, encode, decode, decode-encode}

pub record Manifest : Type 0 where
  pub event_id : String
  pub scenario_id : String
  pub team_id : String
  pub session_id : String
  pub scenario_digest : String
  pub files : GoMap String
  pub chain_head : String

pub record Signature : Type 0 where
  pub public_key : String
  pub signature : String

-- crypto/ed25519, and json.Marshal at a manifest.
pub record Ed25519 : Type 1 where
  pub PrivateKey : Type 0
  pub public : PrivateKey → Bytes
  pub sign : PrivateKey → Bytes → Bytes
  pub valid : Bytes → Bytes → Bytes → Bool
  pub marshal : Manifest → Option Bytes

-- What the package documents: the sizes of keys and signatures, and that a signature is valid.
pub record IsEd25519 (x : Ed25519) : Type 0 where
  pub public_bytes : (k : x.PrivateKey) → All IsByte (x.public k)
  pub public_size : (k : x.PrivateKey) → length (x.public k) ≡ 32
  pub sign_bytes : (k : x.PrivateKey) (message : Bytes) → All IsByte (x.sign k message)
  pub sign_size : (k : x.PrivateKey) (message : Bytes) → length (x.sign k message) ≡ 64
  pub valid_sign :
      (k : x.PrivateKey) (message : Bytes) → x.valid (x.public k) message (x.sign k message) ≡ true

pub data ManifestError : Type 0 where
  bad_hex bad_size bad_json bad_signature : ManifestError

module _ (x : Ed25519) where
  unfoldable pub sign_manifest : Manifest → x.PrivateKey → Option Signature
  sign_manifest manifest key = elim (x.marshal manifest) [
    | none ↦ none
    | some message ↦
        some
          (record { public_key = encode (x.public key); signature = encode (x.sign key message) })
  ]

  -- `VerifyManifest` once both texts are decoded.
  unfoldable pub verify_decoded : Manifest → Bytes → Bytes → Option ManifestError
  verify_decoded manifest public signature =
      if not (eqb (length public) 32) || not (eqb (length signature) 64)
      then some bad_size
      else elim (x.marshal manifest) [
        | none ↦ some bad_json
        | some message ↦ if x.valid public message signature then none else some bad_signature
      ]

  unfoldable pub verify_manifest : Manifest → Signature → Option ManifestError
  verify_manifest manifest s = elim (decode s.public_key) [
    | none ↦ some bad_hex
    | some public ↦ elim (decode s.signature) [
      | none ↦ some bad_hex
      | some signature ↦ verify_decoded manifest public signature
    ]
  ]

  -- What `SignManifest` returns, `VerifyManifest` accepts for the same manifest.
  pub verify_manifest-sign_manifest :
      (laws : IsEd25519 x) (manifest : Manifest) (key : x.PrivateKey) (s : Signature)
      → sign_manifest manifest key ≡ some s
      → verify_manifest manifest s ≡ none
  unfolding sign_manifest verify_manifest verify_decoded
  verify_manifest-sign_manifest laws manifest key s h = elim (Option-cases (x.marshal manifest)) [
    | inl e ↦ ground (arith, e)
    | inr (message, e) ↦ ground (
      arith,
      decode-encode (x.public key) (laws.public_bytes key),
      decode-encode (x.sign key message) (laws.sign_bytes key message),
      laws.public_size key,
      laws.sign_size key message,
      laws.valid_sign key message,
    )
  ]

  -- Both texts decode, to a key of 32 and a signature of 64 bytes, and the signature is valid for the
  -- manifest's JSON under the key.
  pub record IsAccepted (manifest : Manifest) (s : Signature) : Type 0 where
    pub key : Bytes
    pub signature : Bytes
    pub message : Bytes
    pub key_text : decode s.public_key ≡ some key
    pub signature_text : decode s.signature ≡ some signature
    pub key_size : length key ≡ 32
    pub signature_size : length signature ≡ 64
    pub json : x.marshal manifest ≡ some message
    pub valid : x.valid key message signature ≡ true

  IsAccepted-decoded :
      (manifest : Manifest) (s : Signature) (key signature : Bytes)
      → decode s.public_key ≡ some key
      → decode s.signature ≡ some signature
      → verify_decoded manifest key signature ≡ none
      → IsAccepted manifest s
  unfolding verify_decoded
  IsAccepted-decoded manifest s key signature k g h = elim (Option-cases (x.marshal manifest)) [
    | inl e ↦ absurd (ground arith)
    | inr (message, e) ↦ record {
      key = key;
      signature = signature;
      message = message;
      key_text = k;
      signature_text = g;
      key_size = ground arith;
      signature_size = ground arith;
      json = e;
      valid = ground arith;
    }
  ]

  -- `VerifyManifest` accepts exactly the signatures whose texts decode to a key of 32 and a
  -- signature of 64 bytes, where the signature is valid for the manifest's JSON under the key.
  verify_manifest_iff :
      (manifest : Manifest) (s : Signature)
      → (verify_manifest manifest s ≡ none) ↔ IsAccepted manifest s
  unfolding verify_manifest
  verify_manifest_iff manifest s = (accept, accepted)
    where
      accept : verify_manifest manifest s ≡ none → IsAccepted manifest s
      accept h = elim (Option-cases (decode s.public_key)) [
        | inl e ↦ absurd (ground arith)
        | inr (key, k) ↦ elim (Option-cases (decode s.signature)) [
          | inl e ↦ absurd (ground arith)
          | inr (signature, g) ↦ IsAccepted-decoded manifest s key signature k g (ground arith)
        ]
      ]

      accepted : IsAccepted manifest s → verify_manifest manifest s ≡ none
      accepted a = unfold verify_decoded in ground arith
