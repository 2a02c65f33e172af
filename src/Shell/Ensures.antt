-- ===== src/Shell/Ensures.antt =====
-- Postconditions of the parser's results: what holds of the value, where there is one.
use red_lab.Prelude.{◌≡◌, refl, Bool, true, false, if◌then◌else◌}
use red_lab.Shell.{Result, ok, err, ◌>>=◌}

abbrev pub Ensures {ℓ κ} : {A : Type ℓ} → (A → Type κ) → Result A → Type κ
Ensures P (ok a) = P a
Ensures P (err e) = Unit

module _ {ℓ κ μ} {A : Type ℓ} {B : Type κ} where
  pub Ensures-bind :
      (P : A → Type μ) (Q : B → Type μ) (m : Result A) (f : A → Result B)
      → Ensures P m
      → ((a : A) → P a → Ensures Q (f a))
      → Ensures Q (m >>= f)
  Ensures-bind P Q (ok a) f h k = k a h
  Ensures-bind P Q (err e) f h k = tt

-- Each branch may use its test.
pub Ensures-if {ℓ κ} :
    {A : Type ℓ} (P : A → Type κ) (b : Bool) (m n : Result A)
    → (b ≡ true → Ensures P m)
    → (b ≡ false → Ensures P n)
    → Ensures P (if b then m else n)
Ensures-if P true m n h k = h refl
Ensures-if P false m n h k = k refl

pub Ensures-ok {ℓ κ} :
    {A : Type ℓ} (P : A → Type κ) (r : Result A) (a : A) → Ensures P r → r ≡ ok a → P a
Ensures-ok P r a h e = rw e at h
