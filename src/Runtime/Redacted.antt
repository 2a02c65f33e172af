-- ===== src/Runtime/Redacted.antt =====
-- `redactedEventsLocked` of internal/runtime/session.go: the events that leave the server, in a
-- report or in a bundle.
pub mod Exported
use red_lab.Prelude.{List, [], ◌∷◌, String}
use red_lab.Evidence.{Event, Digest}
use red_lab.Evidence.Chain.{Chain, empty, append, snapshot}
use red_lab.Evidence.Redact.{redact}
use red_lab.Runtime.{Session}

-- The copy of an event that the loop appends: the command redacted, both hashes cleared.
unfoldable pub redact_event : List String → Event → Event
redact_event secrets e = record {
  payload = record e.payload { command = redact e.command secrets; previous_hash = "" };
  hash = "";
}

module _ (digest : Digest) where
  -- The loop, from the chain on that it has made.
  unfoldable pub append_redacted : List String → Chain → List Event → Chain
  append_redacted secrets c [] = c
  append_redacted secrets c (e ∷ es) =
      append_redacted secrets (append digest c (redact_event secrets e)).0 es

  unfoldable pub redacted_events : Session → List Event
  redacted_events s = snapshot (append_redacted s.secrets empty (snapshot s.chain))
