-- ===== src/Evidence/Sealed.antt =====
-- What `Verify` checks, as a predicate on the events, and the place that its error names.
use red_lab.Prelude.{
  ℕ, suc, ◌+◌, String, ◌≡◌, refl, sym, ap, ◌∙◌, ◌↔◌, ◌⊎◌, inl, inr, Bool-cases, Option, none, some,
  List, [], ◌∷◌, ◌++◌, ◌==◌, eqb, eq_iff, eqb_iff, length, arith,
}
use mathlib.Core.Path.{subst, subst₂}
use red_lab.Evidence.{Event, Digest}
use red_lab.Evidence.Chain.{
  Chain, VerifyError, sequence_mismatch, hash_mismatch, last_hash, verify_from, verify,
}

module _ (digest : Digest) where
  -- An event at index `i` behind the hash `previous`: its number, its predecessor and its hash fit.
  abbrev pub Fits : String → ℕ → Event → Type 0
  Fits previous i e =
      (e.sequence ≡ suc i) × (e.previous_hash ≡ previous) × (digest previous e.payload ≡ e.hash)

  abbrev pub IsSealed : String → ℕ → List Event → Type 0
  IsSealed previous i [] = Unit
  IsSealed previous i (e ∷ es) = Fits previous i e × IsSealed e.hash (suc i) es

  pub IsSealed-verify_from :
      (previous : String) (i : ℕ) (es : List Event)
      → IsSealed previous i es
      → verify_from digest previous i es ≡ none
  unfolding verify_from
  IsSealed-verify_from previous i [] h = refl
  IsSealed-verify_from previous i (e ∷ es) h = ground (
    arith,
    eq_iff e.previous_hash previous,
    eq_iff (digest previous e.payload) e.hash,
    IsSealed-verify_from e.hash (suc i) es h.1,
  )

  -- How the loop runs on: it stops at the first event that does not fit, with that event's place.
  abbrev pub StopsAt : String → ℕ → Event → VerifyError → Type 0
  StopsAt previous i e (sequence_mismatch n) =
      (n ≡ suc i) × (¬ ((e.sequence ≡ suc i) × (e.previous_hash ≡ previous)))
  StopsAt previous i e (hash_mismatch n) =
      (n ≡ suc i)
      × (e.sequence ≡ suc i)
      × (e.previous_hash ≡ previous)
      × (¬ (digest previous e.payload ≡ e.hash))

  verify_from-step :
      (previous : String) (i : ℕ) (e : Event) (es : List Event)
      → (Fits previous i e
          × (verify_from digest previous i (e ∷ es) ≡ verify_from digest e.hash (suc i) es))
        ⊎ ((x : VerifyError) × (verify_from digest previous i (e ∷ es) ≡ some x)
            × StopsAt previous i e x)
  unfolding verify_from
  verify_from-step previous i e es = elim (Bool-cases (eqb e.sequence (suc i))) [
    | inl s ↦ elim (Bool-cases (e.previous_hash == previous)) [
      | inl p ↦ elim (Bool-cases (digest previous e.payload == e.hash)) [
        | inl h ↦ inl (((eqb_iff _ _).0 s, (eq_iff _ _).0 p, (eq_iff _ _).0 h), rw (s, p, h))
        | inr h ↦ inr (
          hash_mismatch (suc i),
          rw (s, p, h),
          (refl, (eqb_iff _ _).0 s, (eq_iff _ _).0 p, λ q. cc (h, (eq_iff _ _).1 q)),
        )
      ]
      | inr p ↦ inr (sequence_mismatch (suc i), rw (s, p), (refl, λ q. cc (p, (eq_iff _ _).1 q.1)))
    ]
    | inr s ↦ inr (sequence_mismatch (suc i), rw s, (refl, λ q. cc (s, (eqb_iff _ _).1 q.0)))
  ]

  -- Where the loop fails: the events before the place fit, and the one at the place does not.
  pub record Failure (previous : String) (i : ℕ) (es : List Event) (x : VerifyError) : Type 0 where
    pub good : List Event
    pub bad : Event
    pub rest : List Event
    pub split : es ≡ good ++ bad ∷ rest
    pub sealed : IsSealed previous i good
    pub stops : StopsAt (last_hash previous good) (i + length good) bad x

  verify_from-Failure :
      (previous : String) (i : ℕ) (es : List Event) (x : VerifyError)
      → verify_from digest previous i es ≡ some x
      → Failure previous i es x
  verify_from-Failure previous i [] x h = none_some (unfold verify_from in h)
    where
      none_some : ◌≡◌ {A = Option VerifyError} none (some x) → Failure previous i [] x
      none_some h = cc
  verify_from-Failure previous i (e ∷ es) x h =
      pick (verify_from-step previous i e es) (verify_from-Failure e.hash (suc i) es x)
    where
      extend : Fits previous i e → Failure e.hash (suc i) es x → Failure previous i (e ∷ es) x
      extend fit f = record {
        good = e ∷ f.good;
        bad = f.bad;
        rest = f.rest;
        split = ap (λ l. e ∷ l) f.split;
        sealed = (fit, f.sealed);
        stops =
            unfold last_hash in
            subst (λ n. StopsAt (last_hash e.hash f.good) n f.bad x) (omega arith) f.stops;
      }

      first : (y : VerifyError) → y ≡ x → StopsAt previous i e y → Failure previous i (e ∷ es) x
      first y p s = record {
        good = [];
        bad = e;
        rest = es;
        split = refl;
        sealed = tt;
        stops =
            unfold last_hash in
            subst₂ (λ n z. StopsAt previous n e z) (let q : i ≡ i + 0 = omega arith in q) p s;
      }

      pick :
          (Fits previous i e
              × (verify_from digest previous i (e ∷ es) ≡ verify_from digest e.hash (suc i) es))
            ⊎ ((y : VerifyError) × (verify_from digest previous i (e ∷ es) ≡ some y)
                × StopsAt previous i e y)
          → (verify_from digest e.hash (suc i) es ≡ some x → Failure e.hash (suc i) es x)
          → Failure previous i (e ∷ es) x
      pick (inl (fit, same)) ih = extend fit (ih (sym same ∙ h))
      pick (inr (y, stop, s)) ih = first y (cc (stop, h)) s

  verify_from-IsSealed :
      (previous : String) (i : ℕ) (es : List Event)
      → verify_from digest previous i es ≡ none
      → IsSealed previous i es
  verify_from-IsSealed previous i [] h = tt
  verify_from-IsSealed previous i (e ∷ es) h = elim (verify_from-step previous i e es) [
    | inl (fit, same) ↦ (fit, verify_from-IsSealed e.hash (suc i) es (sym same ∙ h))
    | inr (x, stop, _) ↦ cc (stop, h)
  ]

  -- `Verify` accepts a chain exactly if its events are numbered from 1 on, each names the hash of the
  -- event before it (the first names the empty text), and each has the digest of its fields.
  pub verify_iff : (c : Chain) → (verify digest c ≡ none) ↔ IsSealed "" 0 c.events
  unfolding verify
  verify_iff c = (verify_from-IsSealed "" 0 c.events, IsSealed-verify_from "" 0 c.events)

  -- If `Verify` returns an error, the events before the place that the error names are sealed, and
  -- the event at the place is not: its number or predecessor does not fit for the one error, and for
  -- the other these fit and its hash is not the digest.
  pub verify-Failure :
      (c : Chain) (x : VerifyError) → verify digest c ≡ some x → Failure "" 0 c.events x
  unfolding verify
  verify-Failure c x h = verify_from-Failure "" 0 c.events x h
