-- ===== src/Server/Limits.antt =====
-- `allowRequest` of internal/server/server.go: how many requests an address may make in a minute.
pub mod Keys
pub mod Minute
pub mod Reopen
pub mod Table
use Prim.Native.String.{◌++◌ as ◌+++◌}
use red_lab.Prelude.{
  ℕ, suc, ◌+◌, ◌*◌, ltb, leb, eqb, code, String, Bool, true, false, not, ◌&&◌, ◌||◌, Option, none,
  some, List, [], ◌∷◌, ◌==◌, length, if◌then◌else◌,
}
use red_lab.Prelude.GoMap.{GoMap, get, put, get_or}
use red_lab.Prelude.Int.{ℤ, pos, ltb_ℤ}
use red_lab.GoLib.Strings.{has_prefix}
use red_lab.GoLib.Time.{Time, sub, second, is_zero}

-- `rateWindow`
pub record Window : Type 0 where
  pub started : Time
  pub count : ℕ

abbrev pub minute : ℕ
minute = 60 * second

-- `now.Sub(started) >= time.Minute`
abbrev pub is_over : Time → Time → Bool
is_over now started = not (ltb_ℤ (sub now started) (pos minute))

-- The part of an address before its last colon, if there is one.
unfoldable pub before_colon : String → Option String
before_colon String.[] = none
before_colon (String.◌∷◌ c s) = elim (before_colon s) [
  | some before ↦ some (String.◌∷◌ c before)
  | none ↦ if eqb (code c) b':' then some String.[] else none
]

-- `key[:index]`, for an index above 0.
unfoldable pub host_of : String → String
host_of address = elim (before_colon address) [
  | none ↦ address
  | some before ↦ if before == "" then address else before
]

-- The key of a request and its limit.
unfoldable pub key_and_limit : String → String → String × ℕ
key_and_limit address path =
    if has_prefix path "/api/v1/auth/"
    then (host_of address +++ "|auth", 20)
    else (host_of address +++ "|general", 120)

-- The loop that deletes the windows that are over.
unfoldable pub sweep : Time → GoMap Window → GoMap Window
sweep now [] = []
sweep now ((k, w) ∷ rate) =
    let rest = sweep now rate in if is_over now w.started then rest else (k, w) ∷ rest

abbrev pub fresh : Time → Window
fresh now = record { started = now; count = 0 }

-- The window of a key that is in the table, started anew if it is over.
unfoldable pub current : Time → Window → Window
current now w = if is_zero w.started || is_over now w.started then fresh now else w

-- `window.Count++` and what follows it.
abbrev pub count_in : GoMap Window → String → ℕ → Window → GoMap Window × Bool
count_in rate key limit w =
    (put rate key (record w { count = suc w.count }), leb (suc w.count) limit)

-- What follows the loop. The window of a key that is missing is the zero value, so it is started.
unfoldable pub allow_swept : GoMap Window → String → ℕ → Time → GoMap Window × Bool
allow_swept rate key limit now = elim (get rate key) [
  | none ↦ if leb 4096 (length rate) then (rate, false) else count_in rate key limit (fresh now)
  | some w ↦ count_in rate key limit (current now w)
]

-- The table afterwards, and whether the request is allowed.
unfoldable pub allow_key : GoMap Window → String → ℕ → Time → GoMap Window × Bool
allow_key rate key limit now =
    allow_swept (if ltb 1024 (length rate) then sweep now rate else rate) key limit now

unfoldable pub allow_request : GoMap Window → String → String → Time → GoMap Window × Bool
allow_request rate address path now =
    let k = key_and_limit address path in allow_key rate k.0 k.1 now
