-- ===== src/Bundle/Holds.antt =====
-- What a result of the bundle's functions satisfies, if there is one.
use red_lab.Prelude.{Bool, true, false, ◌⊎◌, inl, inr, ◌≡◌, refl, if◌then◌else◌}
use red_lab.Bundle.{BundleError}

-- What a result satisfies, if there is one.
unfoldable pub Holds : {A : Type 0} → (A → Type 0) → BundleError ⊎ A → Type 0
Holds P (inl error) = Unit
Holds P (inr a) = P a

module _ {A : Type 0} (P : A → Type 0) where
  pub Holds-inl : (error : BundleError) → Holds P (inl error)
  unfolding Holds
  Holds-inl error = tt

  pub Holds-inr : (a : A) → P a → Holds P (inr a)
  unfolding Holds
  Holds-inr a h = h

  pub Holds-if :
      (b : Bool) (error : BundleError) (x : BundleError ⊎ A)
      → (b ≡ false → Holds P x)
      → Holds P (if b then inl error else x)
  Holds-if true error x h = Holds-inl error
  Holds-if false error x h = h refl

  pub Holds-map :
      (Q : A → Type 0) (o : BundleError ⊎ A) → ((a : A) → P a → Q a) → Holds P o → Holds Q o
  unfolding Holds
  Holds-map Q (inl error) f h = tt
  Holds-map Q (inr a) f h = f a h

  pub holds_inr : (o : BundleError ⊎ A) (a : A) → o ≡ inr a → Holds P o → P a
  holds_inr o a e h = unfold Holds in (rw e at h)
