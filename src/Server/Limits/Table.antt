-- ===== src/Server/Limits/Table.antt =====
-- How many addresses the table of `allowRequest` holds.
use red_lab.Prelude.{
  ℕ, suc, ◌≤◌, ltb, String, Bool, true, false, [], ◌∷◌, length, arith, if◌then◌else◌, Option-cases,
  inl, inr,
}
use red_lab.Prelude.GoMap.{GoMap, get, length-put, length-put_present}
use red_lab.GoLib.Time.{Time}
use red_lab.Server.Limits.{Window, sweep, current, allow_swept, allow_key, allow_request}

pub length-sweep : (now : Time) (rate : GoMap Window) → length (sweep now rate) ≤ length rate
unfolding sweep
length-sweep now [] = omega arith
length-sweep now ((k, w) ∷ rate) = ground (arith, length-sweep now rate)

allow_swept-bound :
    (rate : GoMap Window) (key : String) (limit : ℕ) (now : Time)
    → length rate ≤ 4096
    → length (allow_swept rate key limit now).0 ≤ 4096
unfolding allow_swept
allow_swept-bound rate key limit now h = elim (Option-cases (get rate key)) [
  | inl e ↦
      rw (e, allow_swept)
        (ground (arith, length-put rate key (record { started = now; count = 1 })))
  | inr (w, e) ↦
      rw (e, allow_swept)
        (omega (
          arith,
          length-put_present rate key (record (current now w) { count = suc (current now w).count })
              w e,
        ))
]

allow_key-bound :
    (rate : GoMap Window) (key : String) (limit : ℕ) (now : Time)
    → length rate ≤ 4096
    → length (allow_key rate key limit now).0 ≤ 4096
unfolding allow_key
allow_key-bound rate key limit now h =
    allow_swept-bound _ key limit now (either (ltb 1024 (length rate)))
  where
    either : (b : Bool) → length (if b then sweep now rate else rate) ≤ 4096
    either true = omega (arith, length-sweep now rate)
    either false = h

-- A table of no more than 4096 addresses has no more after any request.
pub allow_request-bound :
    (rate : GoMap Window) (address path : String) (now : Time)
    → length rate ≤ 4096
    → length (allow_request rate address path now).0 ≤ 4096
unfolding allow_request
allow_request-bound rate address path now h = allow_key-bound rate _ _ now h
