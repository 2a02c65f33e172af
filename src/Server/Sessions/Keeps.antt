-- ===== src/Server/Sessions/Keeps.antt =====
-- What each request on sessions keeps: one session for a team, and no more sessions and restarts than
-- the event allows.
use Prim.Native.String.{◌++◌ as ◌+++◌}
use red_lab.Prelude.{
  ℕ, String, Bool, true, false, not, ◌&&◌, Option, none, some, ◌==◌, ◌≡◌, sym, ap, ◌∙◌, arith,
  length, if◌then◌else◌, Option-cases, Bool-cases, some_injective, none_not_some, inl, inr,
}
use red_lab.Prelude.GoMap.{GoMap, get, put, get_or, get_or-put, length-put, length-put_present}
use red_lab.Prelude.Int.{ℤ, pos, ltb_ℤ, ◌+ℤ◌, +ℤ_parts}
use red_lab.GoLib.Strings.{take}
use red_lab.GoLib.Hex.{Bytes}
use red_lab.GoLib.Time.{Time}
use red_lab.Scenario.Event.{SessionsSpec}
use red_lab.Scenario.Package.{Package}
use red_lab.System.{State}
use red_lab.System.Reset.{reset}
use red_lab.Runtime.{Session}
use red_lab.Runtime.Lab.{restart}
use red_lab.Runtime.Start.{new_session, started_session}
use red_lab.Server.Sessions.{
  Labs, Settings, Luck, session_for_team, is_full, is_spent, enter, store_session, make_session,
  create_session, touch_activity, restart_session, package_for_team, event_status, is_open,
  deterministic_seed,
}
use red_lab.Server.Sessions.Teams.{
  OnePerTeam, session_for_team-none, put-OnePerTeam, replace-OnePerTeam,
}

pub record IsWell (spec : SessionsSpec) (sessions : GoMap Session) (restarts : GoMap ℤ)
    : Type 0 where
  pub one_each : OnePerTeam sessions
  pub not_above :
      ltb_ℤ (pos 0) spec.max_concurrent ≡ true
      → ltb_ℤ spec.max_concurrent (pos (length sessions)) ≡ false
  pub not_oftener :
      (id : String)
      → ltb_ℤ (pos 0) spec.max_restarts ≡ true
      → ltb_ℤ spec.max_restarts (get_or restarts id (pos 0)) ≡ false

made_team :
    (new_state : Package → Time → Option State) (keyed : Bool) (id team : String) (pkg : Package)
    (seed : Time) (s : Session)
    → new_session new_state keyed id team pkg seed ≡ some s
    → s.team_id ≡ team
unfolding new_session
made_team new_state keyed id team pkg seed s h = elim (Option-cases (new_state pkg seed)) [
  | inl e ↦ elim (none_not_some (rw (e, new_session) at h)) [ ]
  | inr (state, e) ↦ made keyed state (rw (e, new_session) at h)
]
  where
    made :
        (b : Bool) (state : State)
        → (if b then some (started_session id team pkg seed state) else none) ≡ some s
        → s.team_id ≡ team
    made true state k = ap (λ u. u.team_id) (sym (some_injective k))
    made false state k = elim (none_not_some k) [ ]

-- The server that a request leaves is well.
unfoldable pub KeepsWell : {A : Type 0} → SessionsSpec → Labs × A → Type 0
KeepsWell spec o = IsWell spec o.0.sessions o.0.restarts

KeepsWell-if :
    {A : Type 0} (spec : SessionsSpec) (b : Bool) (x y : Labs × A)
    → KeepsWell spec x
    → KeepsWell spec y
    → KeepsWell spec (if b then x else y)
KeepsWell-if spec true x y h k = h
KeepsWell-if spec false x y h k = k

left_alone :
    {A : Type 0} (spec : SessionsSpec) (labs : Labs) (answer : A)
    → IsWell spec labs.sessions labs.restarts
    → KeepsWell spec (labs, answer)
unfolding KeepsWell
left_alone spec labs answer well = well

-- The store's tables are no part of what holds.
store_session-KeepsWell :
    (spec : SessionsSpec) (labs : Labs) (s : Session) (scenario_id : String) (seed now : Time)
    (luck : Luck)
    → IsWell spec labs.sessions labs.restarts
    → KeepsWell spec (store_session labs s scenario_id seed now luck)
unfolding store_session KeepsWell
store_session-KeepsWell spec labs s scenario_id seed now luck well =
    elim (Option-cases labs.stored) [
      | inl e ↦ rw (e, store_session) well
      | inr ((rows, meta), e) ↦
          rw (e, store_session)
            (KeepsWell-if spec (not luck.session_saved) _ _ well
              (KeepsWell-if spec (not luck.meta_saved) _ _ well well))
    ]

enter-IsWell :
    (spec : SessionsSpec) (labs : Labs) (s : Session) (now : Time)
    → session_for_team labs.sessions s.team_id ≡ none
    → is_full spec (length labs.sessions) ≡ false
    → IsWell spec labs.sessions labs.restarts
    → IsWell spec (enter labs s now).sessions (enter labs s now).restarts
enter-IsWell spec labs s now new room well = record {
  one_each =
      put-OnePerTeam labs.sessions s.id s (session_for_team-none labs.sessions s.team_id new)
        well.one_each;
  not_above = λ h. ground (arith, room, length-put labs.sessions s.id s);
  not_oftener = well.not_oftener;
}

pub touch_activity-KeepsWell :
    (spec : SessionsSpec) (labs : Labs) (id : String) (now : Time)
    → IsWell spec labs.sessions labs.restarts
    → KeepsWell spec (touch_activity spec labs id now)
unfolding touch_activity
touch_activity-KeepsWell spec labs id now well = elim (Option-cases (get labs.activity id)) [
  | inl e ↦ rw (e, touch_activity) (left_alone spec _ true well)
  | inr (previous, e) ↦
      rw (e, touch_activity)
        (KeepsWell-if spec _ _ _ (left_alone spec labs false well) (left_alone spec _ true well))
]

one_more :
    (count most : ℤ)
    → ltb_ℤ (pos 0) most ≡ true
    → (ltb_ℤ (pos 0) most && not (ltb_ℤ count most)) ≡ false
    → ltb_ℤ most (count +ℤ pos 1) ≡ false
one_more count most limited left = ground (arith, +ℤ_parts count (pos 1))

counted_not_oftener :
    (spec : SessionsSpec) (restarts : GoMap ℤ) (id : String)
    → is_spent spec (get_or restarts id (pos 0)) ≡ false
    → ((j : String)
        → ltb_ℤ (pos 0) spec.max_restarts ≡ true
        → ltb_ℤ spec.max_restarts (get_or restarts j (pos 0)) ≡ false)
    → (j : String) → ltb_ℤ (pos 0) spec.max_restarts ≡ true
    → ltb_ℤ spec.max_restarts
        (get_or (put restarts id (get_or restarts id (pos 0) +ℤ pos 1)) j (pos 0))
      ≡ false
counted_not_oftener spec restarts id left kept j limited =
    ap (λ c. ltb_ℤ spec.max_restarts c) (get_or-put restarts id j _ (pos 0)) ∙ pick (id == j)
  where
    pick :
        (b : Bool)
        → ltb_ℤ spec.max_restarts
            (if b then get_or restarts id (pos 0) +ℤ pos 1 else get_or restarts j (pos 0))
          ≡ false
    pick true = one_more (get_or restarts id (pos 0)) spec.max_restarts limited left
    pick false = kept j limited

counted-IsWell :
    (spec : SessionsSpec) (labs : Labs) (id : String)
    → is_spent spec (get_or labs.restarts id (pos 0)) ≡ false
    → IsWell spec labs.sessions labs.restarts
    → IsWell spec labs.sessions (put labs.restarts id (get_or labs.restarts id (pos 0) +ℤ pos 1))
counted-IsWell spec labs id left well = record {
  one_each = well.one_each;
  not_above = well.not_above;
  not_oftener = counted_not_oftener spec labs.restarts id left well.not_oftener;
}

restarted_team : (s t : Session) → restart s ≡ some t → t.team_id ≡ s.team_id
unfolding restart
restarted_team s t h = elim (Option-cases (reset s.state)) [
  | inl e ↦ elim (none_not_some (rw (e, restart) at h)) [ ]
  | inr (state, e) ↦ ap (λ u. u.team_id) (sym (some_injective (rw (e, restart) at h)))
]

-- A session that is there is replaced.
replaced-IsWell :
    (spec : SessionsSpec) (sessions : GoMap Session) (restarts : GoMap ℤ) (id : String)
    (s t : Session)
    → get sessions id ≡ some s
    → t.team_id ≡ s.team_id
    → IsWell spec sessions restarts
    → IsWell spec (put sessions id t) restarts
replaced-IsWell spec sessions restarts id s t h same well = record {
  one_each = replace-OnePerTeam sessions id s t h same well.one_each;
  not_above = λ limited. rw (length-put_present sessions id t s h) (well.not_above limited);
  not_oftener = well.not_oftener;
}

pub restart_session-KeepsWell :
    (spec : SessionsSpec) (labs : Labs) (id : String) (persisted : Bool)
    → IsWell spec labs.sessions labs.restarts
    → KeepsWell spec (restart_session spec labs id persisted)
unfolding restart_session
restart_session-KeepsWell spec labs id persisted well = elim (Option-cases (get labs.sessions id)) [
  | inl e ↦ rw (e, restart_session) (left_alone spec labs 404 well)
  | inr (s, e) ↦
      rw (e, restart_session)
        (KeepsWell-if spec s.submitted _ _ (left_alone spec labs 409 well) (
          KeepsWell-if spec (not spec.allow_restart) _ _ (left_alone spec labs 403 well)
            (unspent s e)))
]
  where
    unspent :
        (s : Session)
        → get labs.sessions id ≡ some s
        → KeepsWell {A = ℕ} spec (
            if is_spent spec (get_or labs.restarts id (pos 0))
            then (labs, 403)
            else elim (restart s) [
              | none ↦ (
                record labs {
                  restarts = put labs.restarts id (get_or labs.restarts id (pos 0) +ℤ pos 1);
                },
                500,
              )
              | some t ↦ (
                record labs {
                  sessions = put labs.sessions id t;
                  restarts = put labs.restarts id (get_or labs.restarts id (pos 0) +ℤ pos 1);
                },
                if persisted then 200 else 500,
              )
            ])
    unspent s h = elim (Bool-cases (is_spent spec (get_or labs.restarts id (pos 0)))) [
      | inl e ↦ rw e (left_alone spec labs 403 well)
      | inr left ↦ rw left (elim (Option-cases (restart s)) [
        | inl e ↦ rw e (left_alone spec _ 500 (counted-IsWell spec labs id left well))
        | inr (t, e) ↦ rw e (
            left_alone spec _ _ (
              replaced-IsWell spec labs.sessions _ id s t h (restarted_team s t e)
                (counted-IsWell spec labs id left well)))
      ])
    ]

module _ (sha256 : String → Bytes) (new_state : Package → Time → Option State)
    (settings : Settings) where
  make_session-KeepsWell :
      (labs : Labs) (team : String) (now : Time) (luck : Luck) (pkg : Package)
      → session_for_team labs.sessions team ≡ none
      → is_full settings.spec (length labs.sessions) ≡ false
      → IsWell settings.spec labs.sessions labs.restarts
      → KeepsWell settings.spec (make_session sha256 new_state settings labs team now luck pkg)
  unfolding make_session
  make_session-KeepsWell labs team now luck pkg new room well = elim (Option-cases luck.random_id) [
    | inl e ↦ rw (e, make_session) (left_alone settings.spec labs 500 well)
    | inr (random, e) ↦ rw (e, make_session) (made random)
  ]
    where
      made :
          (random : String)
          → KeepsWell {A = ℕ} settings.spec
              (elim (new_session new_state luck.keyed
                ("session-" +++ take 32 random)
                team
                pkg
                (deterministic_seed sha256 settings.event_id team pkg.scenario.metadata.id)) [
                  | none ↦ (labs, 500)
                  | some s ↦
                      store_session
                        (enter labs s now)
                        s
                        pkg.scenario.metadata.id
                        (deterministic_seed sha256 settings.event_id team pkg.scenario.metadata.id)
                        now
                        luck
                ])
      made random =
          elim (Option-cases (
            new_session new_state luck.keyed ("session-" +++ take 32 random) team pkg
              (deterministic_seed sha256 settings.event_id team pkg.scenario.metadata.id))) [
                | inl e ↦ rw e (left_alone settings.spec labs 500 well)
                | inr (s, e) ↦ rw e (
                    store_session-KeepsWell settings.spec _ s _ _ now luck (
                      enter-IsWell settings.spec labs s now
                        (rw (made_team new_state luck.keyed _ team pkg _ s e) new) room well))
              ]

  pub create_session-KeepsWell :
      (labs : Labs) (team : String) (manual_close : Bool) (now : Time) (luck : Luck)
      → IsWell settings.spec labs.sessions labs.restarts
      → KeepsWell settings.spec
          (create_session sha256 new_state settings labs team manual_close now luck)
  unfolding create_session
  create_session-KeepsWell labs team manual_close now luck well =
      elim (Bool-cases (is_open (event_status settings.schedule manual_close now))) [
        | inr e ↦ rw e (left_alone settings.spec labs 403 well)
        | inl opened ↦ rw opened (elim (Option-cases (session_for_team labs.sessions team)) [
          | inr (s, e) ↦ rw e (left_alone settings.spec labs 200 well)
          | inl new ↦ rw new (elim (Bool-cases (is_full settings.spec (length labs.sessions))) [
            | inl e ↦ rw e (left_alone settings.spec labs 503 well)
            | inr room ↦ rw room (elim (Option-cases (package_for_team sha256 settings team)) [
              | inl e ↦ rw e (left_alone settings.spec labs 503 well)
              | inr (pkg, e) ↦ rw e (make_session-KeepsWell labs team now luck pkg new room well)
            ])
          ])
        ])
      ]
