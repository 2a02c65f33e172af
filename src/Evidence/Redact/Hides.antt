-- ===== src/Evidence/Redact/Hides.antt =====
-- What a redacted text cannot contain.
use mathlib.Core.List.{Memᴰ}
use mathlib.Core.Path.{subst}
use red_lab.Prelude.{
  Char, code, String, Bool, true, false, ◌≡◌, List, [], ◌∷◌, ◌==◌, eq_iff, Bool-cases, inl, inr,
  if◌then◌else◌,
}
use red_lab.GoLib.Strings.{contains, replace_all}
use red_lab.GoLib.Strings.Laws.{Lacks, contains-replace_all, contains-replace_all_self}
use red_lab.Evidence.Redact.{redact}

-- One round of the loop.
abbrev once : String → String → String
once text s = if s == "" then text else replace_all text s "[REDACTED]"

module _ (e : Char) (u : String) (unmarked : Lacks b'[' (String.◌∷◌ e u))
    (foreign : Lacks (code e) "[REDACTED]") where
  abbrev secret : String
  secret = String.◌∷◌ e u

  redact_keeps :
      (text : String) (secrets : List String)
      → contains text secret ≡ false
      → contains (redact text secrets) secret ≡ false
  unfolding redact
  redact_keeps text [] h = h
  redact_keeps text (s ∷ secrets) h = redact_keeps (once text s) secrets (one (s == ""))
    where
      one :
          (b : Bool) → contains (if b then text else replace_all text s "[REDACTED]") secret ≡ false
      one true = h
      one false = contains-replace_all "[" "REDACTED]" e u unmarked foreign text s h

  once_hides : (text : String) → contains (once text secret) secret ≡ false
  once_hides text = elim (Bool-cases (secret == "")) [
    | inl b ↦ cc ((eq_iff secret "").0 b)
    | inr b ↦ rw b (contains-replace_all_self "[" "REDACTED]" e u unmarked foreign text)
  ]

  -- No secret on the list occurs in the redacted text, if it has no `[` and its first character is
  -- none of the characters of the marker `[REDACTED]`.
  pub redact_hides :
      (text : String) (secrets : List String)
      → Memᴰ secret secrets
      → contains (redact text secrets) secret ≡ false
  unfolding redact
  redact_hides text [] m = elim m [ ]
  redact_hides text (s ∷ secrets) (Memᴰ.head p) =
      redact_keeps (once text s) secrets
        (subst (λ t. contains (once text t) secret ≡ false) p (once_hides text))
  redact_hides text (s ∷ secrets) (Memᴰ.tail m) = redact_hides (once text s) secrets m
