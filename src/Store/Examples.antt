-- ===== src/Store/Examples.antt =====
-- The theorems on the tables at concrete rows, and tests.
use red_lab.Prelude.{String, ◌≡◌, refl, ◌≤◌, arith, List, [], ◌∷◌}
use red_lab.Prelude.GoMap.{get, put}
use red_lab.Prelude.Int.{pos}
use red_lab.Evidence.{Event, Digest}
use red_lab.Evidence.Chain.{verify_from}
use red_lab.Store.Tokens.{
  save_token, rotate_token, use_token, set_used, rotated, refused, all_answered,
}
use red_lab.Store.Once.{Call, save, rotate, rotations, rotations-le_one, rotate_token-save_token}
use red_lab.Store.Events.{delete_where, load_events}
use red_lab.Store.Replay.{IsOlder, save_events, load_events-save_events}

-- Two uses of one token, with an attempt to save it again between them.
abbrev two_uses : List Call
two_uses =
    save "h" "TEAM-1" 0 90
    ∷ rotate "h" 10 all_answered
    ∷ save "h" "TEAM-2" 10 90
    ∷ rotate "h" 20 all_answered
    ∷ []

rotations-le_one_example : rotations "h" [] two_uses ≤ 1
rotations-le_one_example = rotations-le_one "h" [] two_uses

two_uses_test : rotations "h" [] two_uses ≡ 1
unfolding rotations save_token rotate_token use_token set_used get put
two_uses_test = refl

rotate_token-save_token_example :
    (rotate_token (save_token [] "h" "TEAM-1" 0 90).0 "h" 10 all_answered).1 ≡ rotated "TEAM-1"
rotate_token-save_token_example =
    rotate_token-save_token [] "h" "TEAM-1" 0 90 10 (unfold get in refl) refl

expired_test : (rotate_token (save_token [] "h" "TEAM-1" 0 90).0 "h" 90 all_answered).1 ≡ refused
unfolding save_token rotate_token get put
expired_test = refl

abbrev numbered : String → Event
numbered id = record {
  payload = record {
    session_id = id;
    sequence = 1;
    timestamp = 5;
    virtual_timestamp = 5;
    kind = "command";
    actor = "trainee";
    command = "ls";
    exit_code = pos 0;
    mutations = [];
    previous_hash = "";
  };
  hash = "seal";
}

abbrev sealing : Digest
sealing previous p = "seal"

-- Another session's row, and an older row of the session with the same number.
abbrev table : List Event
table = numbered "session-2" ∷ record (numbered "session-1") { hash = "old" } ∷ []

older : IsOlder "session-1" 1 table
unfolding delete_where
older = ((omega arith, omega arith), tt)

load_events-save_events_example :
    load_events (save_events table (numbered "session-1" ∷ [])) "session-1"
    ≡ numbered "session-1" ∷ []
unfolding verify_from
load_events-save_events_example =
    load_events-save_events sealing "session-1" table (numbered "session-1" ∷ []) refl (refl, tt)
      older
