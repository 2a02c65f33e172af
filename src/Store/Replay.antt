-- ===== src/Store/Replay.antt =====
-- What a session's chain is after it was saved and loaded: SaveEvidence for every event, as
-- persistSession of internal/server/server.go does, and LoadEvents.
use red_lab.Prelude.{
  ℕ, suc, ◌+◌, ◌≤◌, ◌<◌, eqb, String, Bool, true, false, not, ◌≡◌, refl, sym, ap, ◌∙◌, none, List,
  [], ◌∷◌, ◌++◌, eq_iff, arith, if◌then◌else◌, length, All, All-concat,
}
use mathlib.Core.List.{append_assoc, append-nil}
use red_lab.Evidence.{Event, Digest}
use red_lab.Evidence.Chain.{verify_from}
use red_lab.Store.Events.{
  delete_where, of_session, same_key, save_evidence, insert_ordered, order_by_sequence, load_events,
}

-- The loop of persistSession over the events.
unfoldable pub save_events : List Event → List Event → List Event
save_events rows [] = rows
save_events rows (e ∷ events) = save_events (save_evidence rows e) events

-- The events of a session.
abbrev pub select : String → List Event → List Event
select id rows = delete_where (λ e. not (of_session id e)) rows

abbrev pub has_number : ℕ → Event → Bool
has_number q e = eqb q e.sequence

-- The events belong to the session and are numbered from `suc i` on.
abbrev pub AreNumbered : String → ℕ → List Event → Type 0
AreNumbered id i [] = Unit
AreNumbered id i (e ∷ events) =
    (e.session_id ≡ id) × (e.sequence ≡ suc i) × AreNumbered id (suc i) events

abbrev pub IsIn : ℕ → ℕ → Event → Type 0
IsIn i n e = (i < e.sequence) × (e.sequence ≤ n)

delete_where-append :
    (test : Event → Bool) (xs ys : List Event)
    → delete_where test (xs ++ ys) ≡ delete_where test xs ++ delete_where test ys
unfolding delete_where
delete_where-append test [] ys = refl
delete_where-append test (x ∷ xs) ys = ground (arith, delete_where-append test xs ys)

select-others :
    (id : String) (e : Event) (rows : List Event)
    → e.session_id ≡ id
    → select id (delete_where (same_key e) rows)
      ≡ delete_where (has_number e.sequence) (select id rows)
unfolding delete_where
select-others id e [] same = refl
select-others id e (x ∷ rows) same =
    ground (
      arith,
      eq_iff x.session_id id,
      eq_iff e.session_id x.session_id,
      select-others id e rows same,
    )

select-own : (id : String) (e : Event) → e.session_id ≡ id → select id (e ∷ []) ≡ e ∷ []
unfolding delete_where
select-own id e same = ground (arith, (eq_iff e.session_id id).1 same)

select-save_evidence :
    (id : String) (rows : List Event) (e : Event)
    → e.session_id ≡ id
    → select id (save_evidence rows e)
      ≡ delete_where (has_number e.sequence) (select id rows) ++ e ∷ []
unfolding save_evidence
select-save_evidence id rows e same =
    delete_where-append _ (delete_where (same_key e) rows) (e ∷ [])
    ∙ ap (λ kept. kept ++ select id (e ∷ [])) (select-others id e rows same)
    ∙ ap (λ kept. delete_where (has_number e.sequence) (select id rows) ++ kept)
        (select-own id e same)

delete_where-none :
    (i : ℕ) (events : List Event)
    → All (λ e. e.sequence ≤ i) events
    → delete_where (has_number (suc i)) events ≡ events
unfolding delete_where
delete_where-none i [] every = refl
delete_where-none i (e ∷ events) (one, every) = ground (arith, delete_where-none i events every)

All-if :
    (i n : ℕ) (e : Event) (kept : List Event) (b : Bool)
    → eqb (suc i) e.sequence ≡ b
    → IsIn i n e
    → All (IsIn (suc i) n) kept
    → All (IsIn (suc i) n) (if b then kept else e ∷ kept)
All-if i n e kept true h one every = every
All-if i n e kept false h one every = ((ground (arith, one.0), one.1), every)

All-suc :
    (i : ℕ) (events : List Event)
    → All (λ e. e.sequence ≤ i) events
    → All (λ e. e.sequence ≤ suc i) events
All-suc i [] every = tt
All-suc i (e ∷ events) (one, every) = (omega arith, All-suc i events every)

delete_where-IsIn :
    (i n : ℕ) (events : List Event)
    → All (IsIn i n) events
    → All (IsIn (suc i) n) (delete_where (has_number (suc i)) events)
unfolding delete_where
delete_where-IsIn i n [] every = tt
delete_where-IsIn i n (e ∷ events) (one, every) =
    All-if i n e _ (eqb (suc i) e.sequence) refl one (delete_where-IsIn i n events every)

All-IsIn_empty : (i n : ℕ) (events : List Event) → n ≤ i → All (IsIn i n) events → events ≡ []
All-IsIn_empty i n [] h every = refl
All-IsIn_empty i n (e ∷ events) h (one, every) = ground (arith, one.0, one.1)

order-numbered :
    (id : String) (i : ℕ) (events : List Event)
    → AreNumbered id i events
    → order_by_sequence events ≡ events
unfolding order_by_sequence
order-numbered id i [] are = refl
order-numbered id i (e ∷ []) are = unfold insert_ordered in refl
order-numbered id i (e ∷ f ∷ events) (s, q, are) =
    rw (order-numbered id (suc i) (f ∷ events) are) (unfold insert_ordered in ground arith)

shift : (i n : ℕ) → suc i + n ≡ i + suc n
shift i n = omega arith

-- What saving the event that follows `done` leaves of the session's rows.
select-next :
    (id : String) (i : ℕ) (rows pre done : List Event) (e : Event)
    → select id rows ≡ pre ++ done
    → All (λ d. d.sequence ≤ i) done
    → e.session_id ≡ id
    → e.sequence ≡ suc i
    → select id (save_evidence rows e) ≡ delete_where (has_number (suc i)) pre ++ (done ++ e ∷ [])
select-next id i rows pre done e kept saved same q =
    select-save_evidence id rows e same
    ∙ ap (λ n. delete_where (has_number n) (select id rows) ++ e ∷ []) q
    ∙ ap (λ s. delete_where (has_number (suc i)) s ++ e ∷ []) kept
    ∙ ap (λ s. s ++ e ∷ []) (delete_where-append _ pre done)
    ∙ ap (λ s. (delete_where (has_number (suc i)) pre ++ s) ++ e ∷ [])
        (delete_where-none i done saved)
    ∙ append_assoc (delete_where (has_number (suc i)) pre) done (e ∷ [])

-- The rows of the session are `pre` and then `done`: saving what follows takes the place of `pre`.
select-save_events :
    (id : String) (i : ℕ) (rows pre done events : List Event)
    → select id rows ≡ pre ++ done
    → All (IsIn i (i + length events)) pre
    → All (λ e. e.sequence ≤ i) done
    → AreNumbered id i events
    → select id (save_events rows events) ≡ done ++ events
unfolding save_events
select-save_events id i rows pre done [] kept old saved are =
    kept
    ∙ ap (λ s. s ++ done) (All-IsIn_empty i (i + 0) pre (omega arith) old)
    ∙ sym (append-nil done)
select-save_events id i rows pre done (e ∷ events) kept old saved (same, q, are) =
    select-save_events id (suc i) (save_evidence rows e) (delete_where (has_number (suc i)) pre)
      (done ++ e ∷ []) events (select-next id i rows pre done e kept saved same q)
      (delete_where-IsIn i (suc i + length events) pre (rw (shift i (length events)) old))
      (All-concat _ done e (All-suc i done saved) (omega (arith, q))) are
    ∙ append_assoc done (e ∷ []) events

verify_from-AreNumbered :
    (digest : Digest) (id previous : String) (i : ℕ) (events : List Event)
    → verify_from digest previous i events ≡ none
    → All (λ e. e.session_id ≡ id) events
    → AreNumbered id i events
unfolding verify_from
verify_from-AreNumbered digest id previous i [] ok every = tt
verify_from-AreNumbered digest id previous i (e ∷ events) ok (one, every) = (
  one,
  ground (arith, ok),
  verify_from-AreNumbered digest id e.hash (suc i) events (ground (arith, ok)) every,
)

-- The rows that the session has are older versions of events of the chain.
abbrev pub IsOlder : String → ℕ → List Event → Type 0
IsOlder id n rows = All (IsIn 0 n) (select id rows)

-- A chain that verifies, of events of one session, is loaded as it was saved, into a table in which
-- the session has no rows but with the numbers of the chain, other sessions' rows among them.
pub load_events-save_events :
    (digest : Digest) (id : String) (rows events : List Event)
    → verify_from digest "" 0 events ≡ none
    → All (λ e. e.session_id ≡ id) events
    → IsOlder id (length events) rows
    → load_events (save_events rows events) id ≡ events
unfolding load_events
load_events-save_events digest id rows events ok own older =
    ap order_by_sequence (
      select-save_events id 0 rows (select id rows) [] events (sym (append-nil _))
        (rw (left_zero (length events)) older) tt are)
    ∙ order-numbered id 0 events are
  where
    are : AreNumbered id 0 events
    are = verify_from-AreNumbered digest id "" 0 events ok own

    left_zero : (n : ℕ) → 0 + n ≡ n
    left_zero n = omega arith
