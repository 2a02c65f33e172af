-- ===== src/Server/Limits/Reopen.antt =====
-- An address whose minute is over may make requests again.
use red_lab.Prelude.{
  ℕ, suc, ◌≤◌, ◌<◌, ltb, leb, String, Bool, true, false, ◌||◌, Option, none, some, [], ◌∷◌, ◌==◌,
  eq_iff, length, arith, if◌then◌else◌, ◌≡◌, ap, ◌∙◌, Bool-cases, inl, inr,
}
use red_lab.Prelude.GoMap.{GoMap, get}
use red_lab.GoLib.Time.{Time, is_zero}
use red_lab.Server.Limits.Table.{length-sweep}
use red_lab.Server.Limits.Keys.{Request, key_of, limit_of, limit_positive}
use red_lab.Server.Limits.{
  Window, is_over, sweep, fresh, current, count_in, allow_swept, allow_key, allow_request,
}

-- The keys of a table are different.
abbrev pub IsTable : GoMap Window → Type 0
IsTable [] = Unit
IsTable ((k, w) ∷ rate) = (get rate k ≡ none) × IsTable rate

sweep-none :
    (now : Time) (rate : GoMap Window) (key : String)
    → get rate key ≡ none
    → get (sweep now rate) key ≡ none
unfolding sweep get
sweep-none now [] key h = h
sweep-none now ((k, v) ∷ rate) key h = ground (arith, sweep-none now rate key)

-- A window that is over is gone behind the sweep, and the table is shorter.
sweep-gone :
    (now : Time) (rate : GoMap Window) (key : String) (w : Window)
    → IsTable rate
    → is_over now w.started ≡ true
    → get rate key ≡ some w
    → (get (sweep now rate) key ≡ none) × (length (sweep now rate) < length rate)
unfolding sweep get
sweep-gone now [] key w t o h = ground arith
sweep-gone now ((k, v) ∷ rate) key w t o h = elim (Bool-cases (k == key)) [
  | inl e ↦ rw (gone e) (
    sweep-none now rate key (rw ((eq_iff k key).0 e) at t.0),
    omega (arith, length-sweep now rate),
  )
  | inr e ↦ other (is_over now v.started) e (sweep-gone now rate key w t.1 o (rw e at h))
]
  where
    same : ◌≡◌ {A = Option Window} (some v) (some w) → v ≡ w
    same h = cc

    gone : (k == key) ≡ true → is_over now v.started ≡ true
    gone e = ap (λ u. is_over now u.started) (same (rw e at h)) ∙ o

    other :
        (b : Bool)
        → (k == key) ≡ false
        → (get (sweep now rate) key ≡ none) × (length (sweep now rate) < length rate)
        → (get (if b then sweep now rate else (k, v) ∷ sweep now rate) key ≡ none)
          × (length (if b then sweep now rate else (k, v) ∷ sweep now rate) < suc (length rate))
    other true e h = (h.0, omega (arith, h.1))
    other false e h = (rw e h.0, omega (arith, h.1))

-- A new address in a table with room, and one whose window is over, are allowed a request.
allow_swept-new :
    (rate : GoMap Window) (key : String) (limit : ℕ) (now : Time)
    → get rate key ≡ none
    → length rate < 4096
    → 1 ≤ limit
    → (allow_swept rate key limit now).1 ≡ true
unfolding allow_swept get
allow_swept-new rate key limit now h n l =
    rw (h, allow_swept) (room (leb 4096 (length rate)) (ground arith))
  where
    room :
        (b : Bool)
        → b ≡ false
        → (if b then (rate, false) else count_in rate key limit (fresh now)).1 ≡ true
    room true e = cc
    room false e = ground arith

allow_swept-over :
    (rate : GoMap Window) (key : String) (limit : ℕ) (now : Time) (w : Window)
    → get rate key ≡ some w
    → is_over now w.started ≡ true
    → 1 ≤ limit
    → (allow_swept rate key limit now).1 ≡ true
unfolding allow_swept get current
allow_swept-over rate key limit now w h o l =
    rw (h, allow_swept) (anew (is_zero w.started) (is_over now w.started) o)
  where
    anew : (z b : Bool) → b ≡ true → leb (suc (if z || b then fresh now else w).count) limit ≡ true
    anew true b e = ground arith
    anew false true e = ground arith
    anew false false e = cc

-- An address whose minute is over is allowed a request again.
pub allow_request-reopens :
    (rate : GoMap Window) (q : Request) (w : Window)
    → IsTable rate
    → length rate ≤ 4096
    → get rate (key_of q) ≡ some w
    → is_over q.now w.started ≡ true
    → (allow_request rate q.address q.path q.now).1 ≡ true
unfolding allow_request allow_key
allow_request-reopens rate q w t n h o = reopened (ltb 1024 (length rate))
  where
    reopened :
        (b : Bool)
        → (allow_swept (if b then sweep q.now rate else rate) (key_of q) (limit_of q) q.now).1
          ≡ true
    reopened true =
        let g = sweep-gone q.now rate (key_of q) w t o h in
        allow_swept-new _ (key_of q) (limit_of q) q.now g.0 (omega (arith, g.1)) (limit_positive q)
    reopened false = allow_swept-over rate (key_of q) (limit_of q) q.now w h o (limit_positive q)
