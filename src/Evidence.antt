-- ===== src/Evidence.antt =====
-- internal/evidence/chain.go: the hash chain of a session's events, the signature of a bundle's
-- manifest and the redaction of secrets.
pub mod Chain
pub mod Sealed
mod Examples
pub mod Manifest
pub mod Redact
pub mod Append
pub mod Tamper
use native.Mathlib.Decide.{ℕ_discrete}
use red_lab.Prelude.{ℕ, ◌≡◌, ◌≢◌, String, List, ◌==◌, eq_iff, Bool-cases, inl, inr}
use red_lab.Prelude.Int.{ℤ, ℤ-discrete}

-- A point of time, `time.Time`, in nanoseconds.
abbrev pub Time : Type 0
Time = ℕ

-- The fields of an event that its hash covers: the anonymous struct that `Append` and `Verify`
-- marshal. An `Event` has its hash beside them.
pub record Payload : Type 0 where
  pub session_id : String
  pub sequence : ℕ
  pub timestamp : Time
  pub virtual_timestamp : Time
  pub kind : String
  pub actor : String
  pub command : String
  pub exit_code : ℤ
  pub mutations : List String
  pub previous_hash : String

pub record Event : Type 0 where
  pub payload : Payload
  pub open payload use *
  pub hash : String

pub String-discrete : Discrete String
String-discrete s t = elim (Bool-cases (s == t)) [
  | inl e ↦ yes ((eq_iff s t).0 e)
  | inr e ↦ no (λ p. cc (e, (eq_iff s t).1 p))
]

pub Payload-discrete : Discrete Payload
Payload-discrete = hlevel (ℕ_discrete, String-discrete, ℤ-discrete)

-- hex(sha256(previous ++ json(payload))), the digest of an event behind the hash `previous`.
abbrev pub Digest : Type 0
Digest = String → Payload → String
