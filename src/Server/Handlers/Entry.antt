-- ===== src/Server/Handlers/Entry.antt =====
-- The handlers teamLogin and linkLogin of internal/server/server.go, with the authorize of the
-- requests that follow.
use Prim.Native.String.{◌++◌ as ◌+++◌}
use red_lab.Prelude.{
  ℕ, ◌≤◌, ltb, ◌+◌, String, Bool, true, false, not, if◌then◌else◌, ◌&&◌, ◌||◌, Option, none, some,
  ◌==◌, ◌≡◌, refl, ap, sym, ◌∙◌, length, arith, Bool-cases, inl, inr, Option-cases, some_injective,
  none_not_some,
}
use red_lab.Prelude.Int.{ltb_ℤ}
use red_lab.GoLib.Hex.{Bytes, encode}
use red_lab.GoLib.Time.{Time}
use red_lab.Auth.{Bcrypt}
use red_lab.Store.Tokens.{save_token}
use red_lab.Server.Access.{
  Codec, Access, unix, half_hour, thirty_days, with_access, sign_access, hash_token, issue_tokens,
  authorize,
}
use red_lab.Server.Access.Signed.{IsCodec, claims_of, authorize-sign_access}
use red_lab.Server.Login.{Secrets, Login, errored, refused, accepted, verify_credential}
use red_lab.Server.Handlers.{
  LoginRequest, Gate, Draw, Answer, give_tokens, issue_team_tokens, team_login, enter_by_link,
  link_login,
}

module _ (codec : Codec) where
  -- The state and the access token behind tokens that were issued with the key.
  record IsIssued (key : Bytes) (owner : String) (now : Time) (after : Access) (access : String)
      : Type 0 where
    long : 32 ≤ length key
    same_key : after.signing_key ≡ key
    signed : access ≡ sign_access codec key owner (now + half_hour)

  issue_tokens-IsIssued :
      (a : Access) (owner : String) (now : Time) (random : Option Bytes) (answered : Bool)
      (tokens : String × String)
      → (issue_tokens codec a owner now random answered).1 ≡ some tokens
      → IsIssued a.signing_key owner now (issue_tokens codec a owner now random answered).0 tokens.0
  unfolding issue_tokens with_access
  issue_tokens-IsIssued a owner now random answered tokens h =
      elim (Bool-cases (a.security_failed || ltb (length a.signing_key) 32)) [
        | inl e ↦ absurd (none_not_some (rw e at h))
        | inr e ↦ elim (Option-cases random) [
          | inl d ↦ absurd (none_not_some (rw (e, d) at h))
          | inr (bytes, d) ↦ saved (long_key a.security_failed (length a.signing_key) e) e bytes d
        ]
      ]
    where
      long_key : (b : Bool) (n : ℕ) → (b || ltb n 32) ≡ false → 32 ≤ n
      long_key b n e = ground (arith, e)

      issued :
          32 ≤ length a.signing_key
          → {after : Access} {refresh : String} → after.signing_key ≡ a.signing_key
          → some (sign_access codec a.signing_key owner (now + half_hour), refresh) ≡ some tokens
          → IsIssued a.signing_key owner now after tokens.0
      issued long same h = record {
        long = long;
        same_key = same;
        signed = sym (ap (λ t. t.0) (some_injective h));
      }

      saved :
          32 ≤ length a.signing_key
          → (a.security_failed || ltb (length a.signing_key) 32) ≡ false
          → (bytes : Bytes) → random ≡ some bytes
          → IsIssued a.signing_key owner now
              (issue_tokens codec a owner now random answered).0
              tokens.0
      saved long e bytes d = elim (Option-cases a.stored) [
        | inl s ↦ rw (e, d, s) (issued long refl (rw (e, d, s) at h))
        | inr (rows, s) ↦
            let hash = hash_token codec (encode bytes) in
            elim (Bool-cases
              (not (answered && (save_token rows hash owner now (now + thirty_days)).1))) [
                | inl f ↦ absurd (none_not_some (rw (e, d, s, f) at h))
                | inr f ↦ rw (e, d, s, f) (issued long refl (rw (e, d, s, f) at h))
              ]
      ]

  module _ (bcrypt : Bcrypt) where
    give_tokens-IsIssued :
        (gate : Gate) (owner : String) (draw : Draw) (tokens : String × String)
        → (give_tokens bcrypt codec gate owner draw).1 ≡ (200, some tokens)
        → IsIssued gate.access.signing_key owner draw.now
            (give_tokens bcrypt codec gate owner draw).0.access
            tokens.0
    unfolding give_tokens
    give_tokens-IsIssued gate owner draw tokens h =
        let o = issue_tokens codec gate.access owner draw.now draw.random draw.answered in
        elim (Option-cases o.1) [
          | inl e ↦ absurd (none_not_some (rw (give_tokens, e) at (ap (λ w. w.1) h)))
          | inr (both, e) ↦
              rw (give_tokens, e)
                (issue_tokens-IsIssued gate.access owner draw.now draw.random draw.answered tokens
                  (e ∙ rw (give_tokens, e) at (ap (λ w. w.1) h)))
        ]

    issue_team_tokens-IsIssued :
        (gate : Gate) (team code : String) (draw : Draw) (tokens : String × String)
        → (issue_team_tokens bcrypt codec gate team code draw).1 ≡ (200, some tokens)
        → IsIssued gate.access.signing_key team draw.now
            (issue_team_tokens bcrypt codec gate team code draw).0.access
            tokens.0
    unfolding issue_team_tokens
    issue_team_tokens-IsIssued gate team code draw tokens h =
        by_login (verify_credential bcrypt codec.sha256 gate.secrets "team" team code draw.saved) h
      where
        by_login :
            (v : Secrets × Login)
            → let checked : Gate = record gate { secrets = v.0 } in
              let o : Gate × Answer = elim v.1 [
                | errored ↦ (checked, (500, none))
                | refused ↦ (checked, (401, none))
                | accepted ↦ give_tokens bcrypt codec checked team draw
              ] in
              o.1 ≡ (200, some tokens)
              → IsIssued gate.access.signing_key team draw.now o.0.access tokens.0
        by_login (s, errored) h = absurd (none_not_some (ap (λ w. w.1) h))
        by_login (s, refused) h = absurd (none_not_some (ap (λ w. w.1) h))
        by_login (s, accepted) h =
            give_tokens-IsIssued (record gate { secrets = s }) team draw tokens h

    -- What an answer with tokens tells of a request.
    record IsEntry (gate : Gate) (r : LoginRequest) (draw : Draw) (o : Gate × Answer)
        (tokens : String × String) : Type 0 where
      entry :
          o.1 ≡ (200, some tokens)
          → ((r.team_id == "") ≡ false)
            × IsIssued gate.access.signing_key r.team_id draw.now o.0.access tokens.0

    no_tokens :
        {gate after : Gate} {r : LoginRequest} {draw : Draw} {status : ℕ} {tokens : String × String}
        → IsEntry gate r draw (after, (status, none)) tokens
    no_tokens = record { entry = λ h. absurd (none_not_some (ap (λ w. w.1) h)) }

    unless :
        {gate : Gate} {r : LoginRequest} {draw : Draw} {tokens : String × String} (after : Gate)
        (status : ℕ) (b : Bool) (o : Gate × Answer)
        → (b ≡ false → IsEntry gate r draw o tokens)
        → IsEntry gate r draw (if b then (after, (status, none)) else o) tokens
    unless after status true o h = no_tokens
    unless after status false o h = h refl

    team_login-IsEntry :
        (gate : Gate) (is_post : Bool) (r : LoginRequest) (draw : Draw) (tokens : String × String)
        → IsEntry gate r draw (team_login bcrypt codec gate is_post (some r) draw) tokens
    unfolding team_login
    team_login-IsEntry gate is_post r draw tokens = unless _ _ (not is_post) _ (λ a.
        unless _ _ gate.secrets.failed _ (λ b. unless _ _ (r.team_id == "") _ (λ named. record {
          entry = λ h. (named, issue_team_tokens-IsIssued gate r.team_id r.join_code draw tokens h);
        })))

    present : (a b c : Bool) → (a || b || c) ≡ false → a ≡ false
    present true b c h = h
    present false b c h = refl

    enter_by_link-IsEntry :
        (gate : Gate) (r : LoginRequest) (draw : Draw) (tokens : String × String)
        → (r.team_id == "") ≡ false
        → IsEntry gate r draw (enter_by_link bcrypt codec gate r draw) tokens
    unfolding enter_by_link
    enter_by_link-IsEntry gate r draw tokens named =
        by_login (
          verify_credential bcrypt codec.sha256 gate.secrets "link" "" r.link_token draw.link_saved)
      where
        by_login :
            (v : Secrets × Login)
            → let checked : Gate = record gate { secrets = v.0 } in
              let o : Gate × Answer = elim v.1 [
                | errored ↦ (checked, (500, none))
                | refused ↦ (checked, (401, none))
                | accepted ↦ issue_team_tokens bcrypt codec checked r.team_id r.join_code draw
              ] in
              IsEntry gate r draw o tokens
        by_login (s, errored) = no_tokens
        by_login (s, refused) = no_tokens
        by_login (s, accepted) = record {
          entry = λ h. (
            named,
            issue_team_tokens-IsIssued (record gate { secrets = s }) r.team_id r.join_code draw
                tokens h,
          );
        }

    link_login-IsEntry :
        (gate : Gate) (is_post : Bool) (r : LoginRequest) (draw : Draw) (tokens : String × String)
        → IsEntry gate r draw (link_login bcrypt codec gate is_post (some r) draw) tokens
    unfolding link_login
    link_login-IsEntry gate is_post r draw tokens = unless _ _ (not is_post) _ (λ a.
        unless _ _ gate.secrets.failed _ (λ b.
          unless _ _ (r.team_id == "" || r.join_code == "" || r.link_token == "") _ (λ named.
            enter_by_link-IsEntry gate r draw tokens
              (present (r.team_id == "") (r.join_code == "") (r.link_token == "") named))))

    IsEntry-authorize :
        (gate : Gate) (r : LoginRequest) (draw : Draw) (o : Gate × Answer)
        (tokens : String × String) (team : String) (now : Time)
        → IsCodec codec (claims_of r.team_id (draw.now + half_hour))
        → IsEntry gate r draw o tokens
        → o.1 ≡ (200, some tokens)
        → authorize codec o.0.access ("Bearer " +++ tokens.0) team now ≡ (
          o.0.access,
          ltb_ℤ (unix now) (unix (draw.now + half_hour))
              && (r.team_id == team || r.team_id == "organizer"),
        )
    IsEntry-authorize gate r draw o tokens team now is entry h =
        let named = (entry.entry h).0 in
        let issued = (entry.entry h).1 in
        let expires = draw.now + half_hour in
        ap (λ t. authorize codec o.0.access ("Bearer " +++ t) team now)
          (issued.signed ∙ ap (λ k. sign_access codec k r.team_id expires) (sym issued.same_key))
        ∙ authorize-sign_access codec r.team_id expires is o.0.access team now
            (rw issued.same_key issued.long) named

    -- With packages that keep to their documentation, the access token of a login of a team that is
    -- answered with tokens lets into a team until half an hour after the login if the team is the one
    -- that logged in, or the login named "organizer", and never else; the state behind the login
    -- stays as it is.
    pub team_login-authorize :
        (gate : Gate) (is_post : Bool) (r : LoginRequest) (draw : Draw) (tokens : String × String)
        (team : String) (now : Time)
        → IsCodec codec (claims_of r.team_id (draw.now + half_hour))
        → (team_login bcrypt codec gate is_post (some r) draw).1 ≡ (200, some tokens)
        → let after = (team_login bcrypt codec gate is_post (some r) draw).0.access in
          authorize codec after ("Bearer " +++ tokens.0) team now ≡ (
            after,
            ltb_ℤ (unix now) (unix (draw.now + half_hour))
                && (r.team_id == team || r.team_id == "organizer"),
          )
    team_login-authorize gate is_post r draw tokens team now is h =
        IsEntry-authorize gate r draw (team_login bcrypt codec gate is_post (some r) draw) tokens
          team now is (team_login-IsEntry gate is_post r draw tokens) h

    -- The same of a login by the link of the event: with packages that keep to their documentation,
    -- its access token lets into a team until half an hour after the login if the team is the one
    -- that logged in, or the login named "organizer", and never else.
    link_login-authorize :
        (gate : Gate) (is_post : Bool) (r : LoginRequest) (draw : Draw) (tokens : String × String)
        (team : String) (now : Time)
        → IsCodec codec (claims_of r.team_id (draw.now + half_hour))
        → (link_login bcrypt codec gate is_post (some r) draw).1 ≡ (200, some tokens)
        → let after = (link_login bcrypt codec gate is_post (some r) draw).0.access in
          authorize codec after ("Bearer " +++ tokens.0) team now ≡ (
            after,
            ltb_ℤ (unix now) (unix (draw.now + half_hour))
                && (r.team_id == team || r.team_id == "organizer"),
          )
    link_login-authorize gate is_post r draw tokens team now is h =
        IsEntry-authorize gate r draw (link_login bcrypt codec gate is_post (some r) draw) tokens
          team now is (link_login-IsEntry gate is_post r draw tokens) h
