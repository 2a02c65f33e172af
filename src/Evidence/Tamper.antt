-- ===== src/Evidence/Tamper.antt =====
-- What a chain's last hash says about its events.
use red_lab.Prelude.{
  ℕ, suc, String, ◌≡◌, refl, sym, ◌∙◌, ◌⊎◌, inl, inr, none, List, [], ◌∷◌, length, arith,
}
use red_lab.Evidence.{Payload, Event, Digest, String-discrete, Payload-discrete}
use red_lab.Evidence.Chain.{Chain, last_hash, verify}
use red_lab.Evidence.Sealed.{IsSealed, verify_iff}

module _ (digest : Digest) where
  -- Two different inputs of the digest with one hash: for SHA-256, a collision.
  pub record Collision : Type 0 where
    pub previous : String
    pub previous' : String
    pub payload : Payload
    pub payload' : Payload
    pub differ : ¬ ((previous ≡ previous') × (payload ≡ payload'))
    pub same : digest previous payload ≡ digest previous' payload'

  -- The events before a hash are fixed by it, or else there is a collision.
  bound :
      (p q : String) (i : ℕ) (es fs : List Event)
      → IsSealed digest p i es
      → IsSealed digest q i fs
      → length es ≡ length fs
      → last_hash p es ≡ last_hash q fs
      → ((p ≡ q) × (es ≡ fs)) ⊎ Collision
  bound p q i [] [] s t l h = inl (unfold last_hash in h, refl)
  bound p q i [] (f ∷ fs) s t l h = absurd (omega arith)
  bound p q i (e ∷ es) [] s t l h = absurd (omega arith)
  bound p q i (e ∷ es) (f ∷ fs) s t l h =
      step (bound e.hash f.hash (suc i) es fs s.1 t.1 (omega arith) (unfold last_hash in h))
    where
      equal :
          p ≡ q → e.payload ≡ f.payload → e.hash ≡ f.hash → es ≡ fs → (p ≡ q) × (e ∷ es ≡ f ∷ fs)
      equal a b c d = (a, cc (event_path b c, d))
        where
          event_path : e.payload ≡ f.payload → e.hash ≡ f.hash → e ≡ f
          event_path b c = λ j. record { payload = b j; hash = c j }

      decide :
          e.hash ≡ f.hash
          → es ≡ fs
          → Dec (p ≡ q)
          → Dec (e.payload ≡ f.payload)
          → ((p ≡ q) × (e ∷ es ≡ f ∷ fs)) ⊎ Collision
      decide c d (yes a) (yes b) = inl (equal a b c d)
      decide c d (no a) b = inr (record {
        previous = p;
        previous' = q;
        payload = e.payload;
        payload' = f.payload;
        differ = λ r. a r.0;
        same = s.0.2 ∙ (c ∙ sym t.0.2);
      })
      decide c d (yes a) (no b) = inr (record {
        previous = p;
        previous' = q;
        payload = e.payload;
        payload' = f.payload;
        differ = λ r. b r.1;
        same = s.0.2 ∙ (c ∙ sym t.0.2);
      })

      step : ((e.hash ≡ f.hash) × (es ≡ fs)) ⊎ Collision → ((p ≡ q) × (e ∷ es ≡ f ∷ fs)) ⊎ Collision
      step (inl (c, d)) = decide c d (String-discrete p q) (Payload-discrete e.payload f.payload)
      step (inr x) = inr x

  -- Two chains that verify, with as many events and the same last hash, have the same events, or a
  -- collision of the digest is at hand.
  pub head_binds_events :
      (c d : Chain)
      → verify digest c ≡ none
      → verify digest d ≡ none
      → length c.events ≡ length d.events
      → last_hash "" c.events ≡ last_hash "" d.events
      → (c.events ≡ d.events) ⊎ Collision
  head_binds_events c d v w l h =
      elim (bound "" "" 0 c.events d.events ((verify_iff digest c).0 v) ((verify_iff digest d).0 w)
        l h) [ inl r ↦ inl r.1 | inr x ↦ inr x ]
