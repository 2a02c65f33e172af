-- ===== src/Server/Limits/Minute.antt =====
-- What `allowRequest` allows within a minute.
use red_lab.Prelude.{
  ℕ, suc, ◌+◌, ◌-◌, ◌≤◌, ltb, leb, String, Bool, true, false, ◌&&◌, Option, some, List, [], All,
  ◌∷◌, ◌==◌, eq_iff, length, arith, if◌then◌else◌, ◌≡◌, refl, ap, ◌∙◌, Option-cases, Bool-cases,
  inl, inr,
}
use red_lab.Prelude.GoMap.{GoMap, get, put, get-put, get-put_self}
use red_lab.GoLib.Time.{Time, is_zero}
use red_lab.Server.Limits.Keys.{Request, key_of, limit_of, key_limit}
use red_lab.Server.Limits.{
  Window, is_over, sweep, fresh, current, count_in, allow_swept, allow_key, allow_request,
}

-- How many of the requests with a key are allowed, one after the other.
unfoldable pub allowed_for : String → GoMap Window → List Request → ℕ
allowed_for key rate [] = 0
allowed_for key rate (r ∷ requests) =
    let o = allow_request rate r.address r.path r.now in
    (if key_of r == key && o.1 then 1 else 0) + allowed_for key o.0 requests

sweep-keeps :
    (now : Time) (rate : GoMap Window) (key : String) (w : Window)
    → is_over now w.started ≡ false
    → get rate key ≡ some w
    → get (sweep now rate) key ≡ some w
unfolding sweep get
sweep-keeps now [] key w o h = h
sweep-keeps now ((k, v) ∷ rate) key w o h = elim (Bool-cases (k == key)) [
  | inl e ↦ rw (ap (λ u. is_over now u.started) (same (rw e at h)) ∙ o) (rw (e, get) (rw e at h))
  | inr e ↦ other (is_over now v.started) e (sweep-keeps now rate key w o (rw e at h))
]
  where
    same : ◌≡◌ {A = Option Window} (some v) (some w) → v ≡ w
    same h = cc

    other :
        (b : Bool)
        → (k == key) ≡ false
        → get (sweep now rate) key ≡ some w
        → get (if b then sweep now rate else (k, v) ∷ sweep now rate) key ≡ some w
    other true e h = h
    other false e h = rw e h

current-open :
    (now : Time) (w : Window)
    → is_zero w.started ≡ false
    → is_over now w.started ≡ false
    → current now w ≡ w
unfolding current
current-open now w z o = rw (z, o) refl

-- A window that is not over stays through the sweep.
kept_window :
    (b : Bool) (rate : GoMap Window) (key : String) (now : Time) (w : Window)
    → is_over now w.started ≡ false
    → get rate key ≡ some w
    → get (if b then sweep now rate else rate) key ≡ some w
kept_window true rate key now w o h = sweep-keeps now rate key w o h
kept_window false rate key now w o h = h

allow_swept-same :
    (rate : GoMap Window) (key : String) (limit : ℕ) (now : Time) (w : Window)
    → current now w ≡ w
    → get rate key ≡ some w
    → (get (allow_swept rate key limit now).0 key ≡ some (record w { count = suc w.count }))
      × ((allow_swept rate key limit now).1 ≡ leb (suc w.count) limit)
unfolding allow_swept get
allow_swept-same rate key limit now w c h =
    rw (h, allow_swept) (rw c (get-put_self rate key (record w { count = suc w.count }), refl))

-- A request with the key counts in the window.
allow_key-same :
    (rate : GoMap Window) (key : String) (limit : ℕ) (now : Time) (w : Window)
    → is_zero w.started ≡ false
    → is_over now w.started ≡ false
    → get rate key ≡ some w
    → (get (allow_key rate key limit now).0 key ≡ some (record w { count = suc w.count }))
      × ((allow_key rate key limit now).1 ≡ leb (suc w.count) limit)
unfolding allow_key
allow_key-same rate key limit now w z o h =
    allow_swept-same _ key limit now w (current-open now w z o)
      (kept_window (ltb 1024 (length rate)) rate key now w o h)

get-put_other :
    (rate : GoMap Window) (k key : String) (w : Window) (o : Option Window)
    → (k == key) ≡ false
    → get rate key ≡ o
    → get (put rate k w) key ≡ o
get-put_other rate k key w o n h = rw (get-put, n) h

allow_swept-other :
    (rate : GoMap Window) (key k : String) (limit : ℕ) (now : Time) (w : Window)
    → (k == key) ≡ false
    → get rate key ≡ some w
    → get (allow_swept rate k limit now).0 key ≡ some w
unfolding allow_swept get
allow_swept-other rate key k limit now w n h = elim (Option-cases (get rate k)) [
  | inl e ↦ rw (e, allow_swept) (new (leb 4096 (length rate)))
  | inr (v, e) ↦ rw (e, allow_swept) (get-put_other rate k key _ _ n h)
]
  where
    new :
        (b : Bool)
        → get (if b then (rate, false) else count_in rate k limit (fresh now)).0 key ≡ some w
    new true = h
    new false = get-put_other rate k key (record { started = now; count = 1 }) (some w) n h

-- A request with another key leaves the window alone.
allow_key-other :
    (rate : GoMap Window) (key k : String) (limit : ℕ) (now : Time) (w : Window)
    → (k == key) ≡ false
    → is_over now w.started ≡ false
    → get rate key ≡ some w
    → get (allow_key rate k limit now).0 key ≡ some w
unfolding allow_key
allow_key-other rate key k limit now w n o h =
    allow_swept-other _ key k limit now w n
      (kept_window (ltb 1024 (length rate)) rate key now w o h)

-- The two facts for a request.
request-same :
    (r q : Request) (rate : GoMap Window) (w : Window)
    → key_of r ≡ key_of q
    → is_zero w.started ≡ false
    → is_over r.now w.started ≡ false
    → get rate (key_of q) ≡ some w
    → (get (allow_request rate r.address r.path r.now).0 (key_of q)
        ≡ some (record w { count = suc w.count }))
      × ((allow_request rate r.address r.path r.now).1 ≡ leb (suc w.count) (limit_of q))
unfolding allow_request
request-same r q rate w e z o h =
    rw (e, key_limit r q e) (allow_key-same rate (key_of q) (limit_of q) r.now w z o h)

request-other :
    (r q : Request) (rate : GoMap Window) (w : Window)
    → (key_of r == key_of q) ≡ false
    → is_over r.now w.started ≡ false
    → get rate (key_of q) ≡ some w
    → get (allow_request rate r.address r.path r.now).0 (key_of q) ≡ some w
unfolding allow_request
request-other r q rate w n o h =
    allow_key-other rate (key_of q) (key_of r) (limit_of r) r.now w n o h

-- A request takes one of what is left, unless it is refused.
one_counted : (c l n : ℕ) → n ≤ l - suc c → (if leb (suc c) l then 1 else 0) + n ≤ l - c
one_counted c l n h = ground arith

-- The requests come before the window is over.
abbrev pub Within : Window → List Request → Type 0
Within w = All (λ r. is_over r.now w.started ≡ false)

-- In a window that has started, no more of an address's requests are allowed than are left of the
-- limit, whatever requests of other addresses come in between and whatever is swept away.
pub allowed_for-bound :
    (requests : List Request) (rate : GoMap Window) (q : Request) (w : Window)
    → get rate (key_of q) ≡ some w
    → is_zero w.started ≡ false
    → Within w requests
    → allowed_for (key_of q) rate requests ≤ limit_of q - w.count
unfolding allowed_for
allowed_for-bound [] rate q w h z within = omega arith
allowed_for-bound (r ∷ requests) rate q w h z within = elim (Bool-cases (key_of r == key_of q)) [
  | inl e ↦
      let o = request-same r q rate w ((eq_iff (key_of r) (key_of q)).0 e) z within.0 h in
      rw (e, o.1)
        (one_counted w.count (limit_of q) _
          (allowed_for-bound requests _ q (record w { count = suc w.count }) o.0 z within.1))
  | inr e ↦ rw e (
      omega (
        arith,
        allowed_for-bound requests _ q w (request-other r q rate w e within.0 h) z within.1,
      ))
]
