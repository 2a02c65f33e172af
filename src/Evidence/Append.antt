-- ===== src/Evidence/Append.antt =====
-- Chains that are built by `Append` verify, and `Restore` gives them back.
use red_lab.Prelude.{
  ℕ, suc, ◌+◌, String, ◌≡◌, refl, sym, ap, none, List, [], ◌∷◌, ◌++◌, length, arith,
}
use red_lab.Evidence.{Event, Digest}
use red_lab.Evidence.Chain.{Chain, empty, last_hash, seal, append, verify, restore, snapshot}
use red_lab.Evidence.Sealed.{Fits, IsSealed, verify_iff}

last_hash-concat :
    (previous : String) (es : List Event) (e : Event) → last_hash previous (es ++ e ∷ []) ≡ e.hash
unfolding last_hash
last_hash-concat previous [] e = refl
last_hash-concat previous (x ∷ es) e = last_hash-concat x.hash es e

module _ (digest : Digest) where
  IsSealed-concat :
      (previous : String) (i n : ℕ) (es : List Event) (e : Event)
      → IsSealed digest previous i es
      → i + length es ≡ n
      → Fits digest (last_hash previous es) n e
      → IsSealed digest previous i (es ++ e ∷ [])
  unfolding last_hash
  IsSealed-concat previous i n [] e h k f = (rw (let q : i ≡ n = omega arith in q) f, tt)
  IsSealed-concat previous i n (x ∷ es) e h k f =
      (h.0, IsSealed-concat x.hash (suc i) n es e h.1 (omega arith) f)

  -- What holds of a chain between two calls: its events are sealed, and the field that `Append`
  -- reads is the last event's hash.
  pub record IsWhole (c : Chain) : Type 0 where
    pub head : c.previous ≡ last_hash "" c.events
    pub sealed : IsSealed digest "" 0 c.events

  pub empty-IsWhole : IsWhole empty
  unfolding last_hash
  empty-IsWhole = record { head = refl; sealed = tt }

  -- `Append` keeps a whole chain whole, whatever the event that it is given.
  pub append-IsWhole : (c : Chain) (e : Event) → IsWhole c → IsWhole (append digest c e).0
  unfolding append
  append-IsWhole c e w = record {
    head = sym (last_hash-concat "" c.events (seal digest c e));
    sealed =
        unfold seal in
        IsSealed-concat "" 0 (length c.events) c.events _ w.sealed (omega arith)
          (omega arith, w.head, ap (λ h. digest h (seal digest c e).payload) (sym w.head));
  }

  abbrev pub append_all : Chain → List Event → Chain
  append_all c [] = c
  append_all c (e ∷ es) = append_all (append digest c e).0 es

  append_all-IsWhole : (c : Chain) (es : List Event) → IsWhole c → IsWhole (append_all c es)
  append_all-IsWhole c [] w = w
  append_all-IsWhole c (e ∷ es) w =
      append_all-IsWhole (append digest c e).0 es (append-IsWhole c e w)

  -- A chain to which any events were appended, from the empty chain on, verifies.
  pub append_all-verify : (es : List Event) → verify digest (append_all empty es) ≡ none
  append_all-verify es = (verify_iff digest _).1 (append_all-IsWhole empty es empty-IsWhole).sealed

  -- `Restore` of a snapshot of a chain to which any events were appended, from the empty chain on,
  -- reports no error and gives the chain back.
  pub restore-snapshot :
      (es : List Event)
      → restore digest (snapshot (append_all empty es)) ≡ (append_all empty es, none)
  unfolding restore snapshot
  restore-snapshot es =
      let w = append_all-IsWhole empty es empty-IsWhole in
      rw (← w.head) (ap (λ r. (append_all empty es, r)) (append_all-verify es))
