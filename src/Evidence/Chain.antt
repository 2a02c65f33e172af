-- ===== src/Evidence/Chain.antt =====
-- The type `Chain` of internal/evidence/chain.go and its methods. The digest is a parameter:
-- encoding/json and crypto/sha256 stand for it. A method that locks runs in one step.
use red_lab.Prelude.{
  ℕ, suc, ◌+◌, String, not, ◌||◌, Option, none, some, List, [], ◌∷◌, ◌++◌, ◌==◌, eqb, length,
  if◌then◌else◌,
}
use red_lab.Evidence.{Event, Digest}

pub record Chain : Type 0 where
  pub events : List Event
  pub previous : String

-- The zero value, `Chain{}`.
abbrev pub empty : Chain
empty = record { events = []; previous = "" }

-- The two errors of `Verify`, each with the place that the message names.
pub data VerifyError : Type 0 where
  sequence_mismatch hash_mismatch : ℕ → VerifyError

-- `c.previous` after the loop of `Restore`.
unfoldable pub last_hash : String → List Event → String
last_hash previous [] = previous
last_hash previous (e ∷ es) = last_hash e.hash es

module _ (digest : Digest) where
  -- The event that `Append` stores and returns: the caller's, with the sequence number, the
  -- predecessor and the hash set. `len(c.Events)` is below 2^63, so the number does not wrap.
  unfoldable pub seal : Chain → Event → Event
  seal c e =
      let q = record e.payload { sequence = length c.events + 1; previous_hash = c.previous } in
      record e { payload = q; hash = digest q.previous_hash q }

  unfoldable pub append : Chain → Event → Chain × Event
  append c e =
      let sealed = seal c e in
      (record { events = c.events ++ sealed ∷ []; previous = sealed.hash }, sealed)

  -- The loop of `verifyUnlockedWithHashes` from the index `i` on.
  unfoldable pub verify_from : String → ℕ → List Event → Option VerifyError
  verify_from previous i [] = none
  verify_from previous i (e ∷ es) =
      let rest = verify_from e.hash (suc i) es in
      if not (eqb e.sequence (suc i)) || not (e.previous_hash == previous)
      then some (sequence_mismatch (suc i))
      else if not (digest previous e.payload == e.hash)
      then some (hash_mismatch (suc i))
      else rest

  unfoldable pub verify : Chain → Option VerifyError
  verify c = verify_from "" 0 c.events

  unfoldable pub restore : List Event → Chain × Option VerifyError
  restore events =
      let c : Chain = record { events = events; previous = last_hash "" events } in (c, verify c)

unfoldable pub snapshot : Chain → List Event
snapshot c = c.events
