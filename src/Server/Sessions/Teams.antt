-- ===== src/Server/Sessions/Teams.antt =====
-- The teams of a table of sessions: each has one session at most.
use red_lab.Prelude.{
  String, Bool, true, false, none, some, [], ◌∷◌, ◌==◌, eq_iff, ◌≡◌, sym, ap, ◌∙◌, arith, All,
  if◌then◌else◌, Bool-cases, some_injective, none_not_some, inl, inr,
}
use red_lab.Prelude.GoMap.{GoMap, get, put}
use red_lab.Runtime.{Session}
use red_lab.Server.Sessions.{session_for_team}

-- The session belongs to another team.
abbrev pub IsOther : String → String × Session → Type 0
IsOther team row = (row.1.team_id == team) ≡ false

abbrev pub OnePerTeam : GoMap Session → Type 0
OnePerTeam [] = Unit
OnePerTeam ((id, s) ∷ sessions) = All (IsOther s.team_id) sessions × OnePerTeam sessions

different : (a b : String) → (a == b) ≡ false → (b == a) ≡ false
different a b h = ground (arith, eq_iff a b, eq_iff b a)

pub session_for_team-none :
    (sessions : GoMap Session) (team : String)
    → session_for_team sessions team ≡ none
    → All (IsOther team) sessions
unfolding session_for_team
session_for_team-none [] team h = tt
session_for_team-none ((id, s) ∷ sessions) team h = elim (Bool-cases (s.team_id == team)) [
  | inl e ↦ elim (none_not_some (sym (rw e at h))) [ ]
  | inr e ↦ (e, session_for_team-none sessions team (rw e at h))
]

put-IsOther :
    (sessions : GoMap Session) (team id : String) (s : Session)
    → (s.team_id == team) ≡ false
    → All (IsOther team) sessions
    → All (IsOther team) (put sessions id s)
unfolding put
put-IsOther [] team id s other every = (other, tt)
put-IsOther ((j, w) ∷ sessions) team id s other (one, every) =
    pick (j == id) (put-IsOther sessions team id s other every)
  where
    pick :
        (b : Bool)
        → All (IsOther team) (put sessions id s)
        → All (IsOther team) (if b then (id, s) ∷ sessions else (j, w) ∷ put sessions id s)
    pick true rest = (other, every)
    pick false rest = (one, rest)

pub put-OnePerTeam :
    (sessions : GoMap Session) (id : String) (s : Session)
    → All (IsOther s.team_id) sessions
    → OnePerTeam sessions
    → OnePerTeam (put sessions id s)
unfolding put
put-OnePerTeam [] id s others each = (tt, tt)
put-OnePerTeam ((j, w) ∷ sessions) id s (other, others) (apart, each) =
    pick (j == id) (put-OnePerTeam sessions id s others each)
  where
    pick :
        (b : Bool)
        → OnePerTeam (put sessions id s)
        → OnePerTeam (if b then (id, s) ∷ sessions else (j, w) ∷ put sessions id s)
    pick true rest = (others, each)
    pick false rest =
        (put-IsOther sessions w.team_id id s (different w.team_id s.team_id other) apart, rest)

get-IsOther :
    (sessions : GoMap Session) (team id : String) (s : Session)
    → get sessions id ≡ some s
    → All (IsOther team) sessions
    → (s.team_id == team) ≡ false
unfolding get
get-IsOther [] team id s h every = elim (none_not_some h) [ ]
get-IsOther ((j, w) ∷ sessions) team id s h (one, every) = elim (Bool-cases (j == id)) [
  | inl e ↦ rw (← some_injective (rw e at h)) one
  | inr e ↦ get-IsOther sessions team id s (rw e at h) every
]

-- A session takes the place of one of the same team.
pub replace-OnePerTeam :
    (sessions : GoMap Session) (id : String) (s t : Session)
    → get sessions id ≡ some s
    → t.team_id ≡ s.team_id
    → OnePerTeam sessions
    → OnePerTeam (put sessions id t)
unfolding get put
replace-OnePerTeam [] id s t h same each = (tt, tt)
replace-OnePerTeam ((j, w) ∷ sessions) id s t h same (apart, each) = elim (Bool-cases (j == id)) [
  | inl e ↦ rw e (rw (same ∙ ap (λ u. u.team_id) (sym (some_injective (rw e at h)))) apart, each)
  | inr e ↦ rw e (
    put-IsOther sessions w.team_id id t
        (rw same (get-IsOther sessions w.team_id id s (rw e at h) apart)) apart,
    replace-OnePerTeam sessions id s t (rw e at h) same each,
  )
]
