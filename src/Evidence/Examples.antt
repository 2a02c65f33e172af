-- ===== src/Evidence/Examples.antt =====
-- The theorems of this component at concrete inputs, with a small digest and a small signature
-- scheme for the parameters.
use Prim.Native.String.{◌++◌ as ◌+++◌}
use mathlib.Core.List.{Memᴰ}
use red_lab.Prelude.{
  ℕ, zero, suc, String, ◌≡◌, refl, ◌↔◌, ◌⊎◌, false, none, some, List, [], ◌∷◌, length, eqb, arith,
}
use red_lab.Prelude.Int.{pos}
use red_lab.GoLib.Strings.{contains}
use red_lab.GoLib.Hex.{Bytes, digit, encode}
use red_lab.Evidence.{Event, Digest}
use red_lab.Evidence.Chain.{Chain, empty, sequence_mismatch, verify_from, verify, restore, snapshot}
use red_lab.Evidence.Sealed.{IsSealed, Failure, verify_iff, verify-Failure}
use red_lab.Evidence.Append.{append_all, append_all-verify, restore-snapshot}
use red_lab.Evidence.Tamper.{Collision, head_binds_events}
use red_lab.Evidence.Manifest.{
  Manifest, Signature, Ed25519, IsEd25519, sign_manifest, verify_manifest,
  verify_manifest-sign_manifest,
}
use red_lab.Evidence.Redact.{redact}
use red_lab.Evidence.Redact.Hides.{redact_hides}

abbrev joined : Digest
joined previous p = previous +++ p.command

abbrev ran : String → Event
ran command = record {
  payload = record {
    session_id = "session-1";
    sequence = 0;
    timestamp = 5;
    virtual_timestamp = 5;
    kind = "command";
    actor = "trainee";
    command = command;
    exit_code = pos 0;
    mutations = [];
    previous_hash = "";
  };
  hash = "";
}

abbrev two_lines : List Event
two_lines = ran "ls" ∷ ran "pwd" ∷ []

restore-snapshot_example :
    restore joined (snapshot (append_all joined empty two_lines))
    ≡ (append_all joined empty two_lines, none)
restore-snapshot_example = restore-snapshot joined two_lines

verify_iff_example :
    (verify joined (append_all joined empty two_lines) ≡ none)
    ↔ IsSealed joined "" 0 (append_all joined empty two_lines).events
verify_iff_example = verify_iff joined (append_all joined empty two_lines)

-- An event that was never given a number.
abbrev raw : Chain
raw = record { events = ran "ls" ∷ []; previous = "" }

raw_fails : verify joined raw ≡ some (sequence_mismatch 1)
unfolding verify verify_from
raw_fails = refl

verify-Failure_example : Failure joined "" 0 raw.events (sequence_mismatch 1)
verify-Failure_example = verify-Failure joined raw (sequence_mismatch 1) raw_fails

head_binds_events_example :
    ((append_all joined empty two_lines).events ≡ (append_all joined empty two_lines).events)
    ⊎ Collision joined
head_binds_events_example =
    head_binds_events joined (append_all joined empty two_lines) (append_all joined empty two_lines)
      (append_all-verify joined two_lines) (append_all-verify joined two_lines) refl refl

redact_hides_example : contains (redact "pw=hunter2" ("" ∷ "hunter2" ∷ [])) "hunter2" ≡ false
redact_hides_example =
    redact_hides "h" "unter2" (ground arith) (ground arith) "pw=hunter2" ("" ∷ "hunter2" ∷ [])
      (Memᴰ.tail (Memᴰ.head refl))

abbrev zeros : ℕ → Bytes
zeros zero = []
zeros (suc n) = 0 ∷ zeros n

abbrev toy : Ed25519
toy = record {
  PrivateKey = ℕ;
  public = λ k. zeros 32;
  sign = λ k message. zeros 64;
  valid = λ public message signature. eqb (length signature) 64;
  marshal = λ m. some (1 ∷ 2 ∷ []);
}

toy-IsEd25519 : IsEd25519 toy
toy-IsEd25519 = record {
  public_bytes = λ k. omega arith;
  public_size = λ k. refl;
  sign_bytes = λ k message. omega arith;
  sign_size = λ k message. refl;
  valid_sign = λ k message. refl;
}

abbrev manifest : Manifest
manifest = record {
  event_id = "event";
  scenario_id = "broken-httpd";
  team_id = "red";
  session_id = "session-1";
  scenario_digest = "";
  files = [];
  chain_head = "";
}

abbrev signed : Signature
signed = record {
  public_key = "0000000000000000000000000000000000000000000000000000000000000000";
  signature =
      "00000000000000000000000000000000000000000000000000000000000000000000000000000000000000000000000000000000000000000000000000000000";
}

signs : sign_manifest toy manifest 7 ≡ some signed
unfolding sign_manifest encode digit
signs = refl

verify_manifest-sign_manifest_example : verify_manifest toy manifest signed ≡ none
verify_manifest-sign_manifest_example =
    verify_manifest-sign_manifest toy toy-IsEd25519 manifest 7 signed signs
