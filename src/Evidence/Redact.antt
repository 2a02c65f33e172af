-- ===== src/Evidence/Redact.antt =====
-- `Redact` of internal/evidence/chain.go.
pub mod Hides
use red_lab.Prelude.{String, List, [], ◌∷◌, ◌==◌, if◌then◌else◌}
use red_lab.GoLib.Strings.{replace_all}

unfoldable pub redact : String → List String → String
redact text [] = text
redact text (secret ∷ secrets) =
    redact (if secret == "" then text else replace_all text secret "[REDACTED]") secrets
