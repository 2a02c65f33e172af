-- ===== src/Runtime/Redacted/Exported.antt =====
-- What is in the events that leave the server.
use mathlib.Core.List.{Memᴰ, append-nil}
use red_lab.Prelude.{
  Char, code, String, ◌≡◌, sym, refl, ap, ◌∙◌, false, none, List, [], ◌∷◌, ◌++◌, map, All,
  All-concat,
}
use red_lab.GoLib.Strings.{contains}
use red_lab.GoLib.Strings.Laws.{Lacks}
use red_lab.Evidence.{Event, Payload, Digest}
use red_lab.Evidence.Chain.{Chain, empty, append, seal, restore, snapshot, verify}
use red_lab.Evidence.Append.{IsWhole, empty-IsWhole, append-IsWhole}
use red_lab.Evidence.Sealed.{IsSealed-verify_from}
use red_lab.Evidence.Redact.Hides.{redact_hides}
use red_lab.Runtime.{Session}
use red_lab.Runtime.Redacted.{redact_event, append_redacted, redacted_events}

-- An event without its command and its place in the chain.
abbrev pub outcome : Event → Payload
outcome e = record e.payload { sequence = 0; command = ""; previous_hash = "" }

-- The events `out` stand for the events `es`, and do not tell the password: `Restore` accepts them,
-- and there is one for each of `es`, which differs at most in its command and its place in the
-- chain.
pub record IsExport (digest : Digest) (password : String) (es out : List Event) : Type 0 where
  pub accepted : (restore digest out).1 ≡ none
  pub outcomes : map outcome out ≡ map outcome es
  pub hidden : All (λ e. contains e.command password ≡ false) out

module _ {ℓ κ} {A : Type ℓ} {B : Type κ} (f : A → B) where
  map-concat :
      (list : List A) (last : A) (rest : List B)
      → map f (list ++ last ∷ []) ++ rest ≡ map f list ++ f last ∷ rest
  map-concat [] last rest = refl
  map-concat (first ∷ list) last rest = ap (λ t. f first ∷ t) (map-concat list last rest)

module _ (digest : Digest) (a : Char) (u : String) (unmarked : Lacks b'[' (String.◌∷◌ a u))
    (foreign : Lacks (code a) "[REDACTED]") where
  abbrev password : String
  password = String.◌∷◌ a u

  abbrev Hidden : Event → Type 0
  Hidden e = contains e.command password ≡ false

  -- What the loop has made when it is done.
  record IsFinished (c : Chain) (es : List Event) (out : Chain) : Type 0 where
    whole : IsWhole digest out
    outcomes : map outcome out.events ≡ map outcome c.events ++ map outcome es
    hidden : All Hidden out.events

  append_redacted-IsFinished :
      (secrets : List String) (c : Chain) (es : List Event)
      → Memᴰ password secrets
      → IsWhole digest c
      → All Hidden c.events
      → IsFinished c es (append_redacted digest secrets c es)
  unfolding append_redacted
  append_redacted-IsFinished secrets c [] m w h = record {
    whole = w;
    outcomes = sym (append-nil _);
    hidden = h;
  }
  append_redacted-IsFinished secrets c (e ∷ es) m w h =
      let rest =
        append_redacted-IsFinished secrets (append digest c (redact_event secrets e)).0 es m
          (append-IsWhole digest c _ w)
          (unfold append in
            unfold seal in
            unfold redact_event in
            All-concat _ c.events _ h (redact_hides a u unmarked foreign e.command secrets m)) in
      record {
        whole = rest.whole;
        outcomes =
            rest.outcomes
            ∙ (unfold append in
                unfold seal in
                unfold redact_event in map-concat outcome c.events _ (map outcome es));
        hidden = rest.hidden;
      }

  -- The events that leave the server are accepted by `Restore`, and stand for the session's one for
  -- one: they differ at most in their commands and their places in the chain. None of their commands
  -- has a password of the session's secrets in it, if the password has no `[` and its first
  -- character is none of the characters of the marker `[REDACTED]`.
  pub redacted_events-IsExport :
      (s : Session)
      → Memᴰ password s.secrets
      → IsExport digest password s.chain.events (redacted_events digest s)
  unfolding redacted_events restore snapshot verify
  redacted_events-IsExport s m =
      let done =
        append_redacted-IsFinished s.secrets empty s.chain.events m (empty-IsWhole digest) tt in
      record {
        accepted = IsSealed-verify_from digest "" 0 _ done.whole.sealed;
        outcomes = done.outcomes;
        hidden = done.hidden;
      }
