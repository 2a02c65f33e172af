-- ===== src/Runtime/Lab/Hints.antt =====
-- What a hint costs.
use red_lab.Prelude.{
  String, Bool, true, false, ◌≡◌, refl, ap, none, some, List, [], ◌∷◌, ◌==◌, Bool-cases, inl, inr,
}
use red_lab.Prelude.GoMap.{get_or, put, get-put_self}
use red_lab.Prelude.Int.{◌+ℤ◌, ltb_ℤ, wrap64}
use red_lab.GoLib.Time.{sub}
use red_lab.Scenario.{HintSpec}
use red_lab.Runtime.{Session}
use red_lab.Runtime.Lab.{use_hint}

-- The session with the hint used and paid.
abbrev paid : Session → HintSpec → Session
paid s hint = record s {
  hints = put s.hints hint.id true;
  hint_cost = wrap64 (s.hint_cost +ℤ hint.cost);
}

module _ (s : Session) (hint : HintSpec) (hints : List HintSpec) (id : String) where
  use_other : (hint.id == id) ≡ false → use_hint s (hint ∷ hints) id ≡ use_hint s hints id
  unfolding use_hint
  use_other e = rw e refl

  use_used :
      (hint.id == id) ≡ true
      → get_or s.hints hint.id false ≡ true
      → (use_hint s (hint ∷ hints) id).0 ≡ s
  unfolding use_hint
  use_used e u = rw (e, u) refl

  use_locked :
      (hint.id == id) ≡ true
      → get_or s.hints hint.id false ≡ false
      → ltb_ℤ (sub s.state.clock s.started) hint.unlock_after ≡ true
      → (use_hint s (hint ∷ hints) id).0 ≡ s
  unfolding use_hint
  use_locked e u l = rw (e, u, l) refl

  use_new :
      (hint.id == id) ≡ true
      → get_or s.hints hint.id false ≡ false
      → ltb_ℤ (sub s.state.clock s.started) hint.unlock_after ≡ false
      → (use_hint s (hint ∷ hints) id).0 ≡ paid s hint
  unfolding use_hint
  use_new e u l = rw (e, u, l) refl

paid_used : (s : Session) (hint : HintSpec) → get_or (paid s hint).hints hint.id false ≡ true
paid_used s hint =
    ap (λ o. elim o as (λ x. Bool) [ none ↦ false | some v ↦ v ])
      (get-put_self s.hints hint.id true)

-- A hint that a session has asked for once costs nothing the second time, and a refusal leaves
-- nothing behind: asking again at once gives the same session.
use_hint-use_hint :
    (s : Session) (hints : List HintSpec) (id : String)
    → (use_hint (use_hint s hints id).0 hints id).0 ≡ (use_hint s hints id).0
use_hint-use_hint s [] id = unfold use_hint in refl
use_hint-use_hint s (hint ∷ hints) id = elim (Bool-cases (hint.id == id)) [
  | inr e ↦
      rw (use_other s hint hints id e, use_other (use_hint s hints id).0 hint hints id e)
        (use_hint-use_hint s hints id)
  | inl e ↦ elim (Bool-cases (get_or s.hints hint.id false)) [
    | inl u ↦ rw (use_used s hint hints id e u) (use_used s hint hints id e u)
    | inr u ↦ elim (Bool-cases (ltb_ℤ (sub s.state.clock s.started) hint.unlock_after)) [
      | inl l ↦ rw (use_locked s hint hints id e u l) (use_locked s hint hints id e u l)
      | inr l ↦
          rw (use_new s hint hints id e u l)
            (use_used (paid s hint) hint hints id e (paid_used s hint))
    ]
  ]
]
