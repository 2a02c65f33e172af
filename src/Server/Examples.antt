-- ===== src/Server/Examples.antt =====
-- The theorems on the server at concrete requests, with small packages for the parameters, and tests.
use Prim.Native.String.{◌++◌ as ◌+++◌}
use red_lab.Prelude.{
  ℕ, ◌≤◌, ◌+◌, ◌-◌, ◌/◌, ◌%◌, ◌<◌, eqb, code, String, true, false, ◌&&◌, ◌||◌, ◌==◌, Option, none,
  some, List, [], ◌∷◌, length, All, ◌≡◌, refl, arith, Bool-cases, some_injective, none_not_some,
  sym, inl, inr, if◌then◌else◌, eq_refl,
}
use red_lab.Prelude.GoMap.{GoMap, get}
use red_lab.Prelude.Int.{pos, ltb_ℤ}
use red_lab.GoLib.Hex.{Bytes, IsByte, digit, encode, decode, value, value-digit, decode-encode}
use red_lab.GoLib.Strings.Laws.{Lacks}
use red_lab.GoLib.Time.{Time}
use red_lab.Auth.{Bcrypt, hash_secret, new_record, verify, needs_upgrade}
use red_lab.Auth.Upgrade.{IsBcrypt}
use red_lab.Server.Limits.{Window, allow_request}
use red_lab.Server.Limits.Table.{allow_request-bound}
use red_lab.Server.Limits.Keys.{Request, key_of, limit_of}
use red_lab.Server.Limits.Minute.{allowed_for, allowed_for-bound}
use red_lab.Server.Limits.Reopen.{allow_request-reopens}
use red_lab.Server.Login.{Secrets, accepted, find_record, check_record, upgrade, verify_credential}
use red_lab.Server.Login.Again.{verify_credential-verify_credential}
use red_lab.Server.Access.{
  Claims, Codec, Access, unix, half_hour, with_access, sign_access, issue_tokens, authorize,
}
use red_lab.Server.Access.Signed.{IsCodec, claims_of}
use red_lab.Server.Handlers.{LoginRequest, Gate, Draw, give_tokens, issue_team_tokens, team_login}
use red_lab.Server.Handlers.Entry.{team_login-authorize}
use red_lab.Server.Sessions.{Labs, Settings, Luck}
use red_lab.Server.Sessions.Keeps.{IsWell}
use red_lab.Server.Sessions.Invariant
use red_lab.Server.Sessions.Invariant.{serve_all, serve_all-IsWell}
use red_lab.Scenario.Package.{Package}
use red_lab.System.{State}
use red_lab.Samples.{host, session}

-- One address of which a login was counted, and its next login in the same minute.
abbrev login : Request
login = record { address = "10.0.0.7:999"; path = "/api/v1/auth/login"; now = 200 }

abbrev counted : GoMap Window
counted = (key_of login, record { started = 100; count = 19 }) ∷ []

allow_request-bound_example : length (allow_request counted "10.0.0.8:1" "/" 200).0 ≤ 4096
allow_request-bound_example = allow_request-bound counted "10.0.0.8:1" "/" 200 (omega arith)

first_window : get counted (key_of login) ≡ some (record { started = 100; count = 19 })
unfolding get
first_window = rw eq_refl refl

allowed_for-bound_example :
    allowed_for (key_of login) counted (login ∷ login ∷ []) ≤ limit_of login - 19
allowed_for-bound_example =
    allowed_for-bound (login ∷ login ∷ []) counted login (record { started = 100; count = 19 })
      first_window refl (refl, (refl, tt))

abbrev later_login : Request
later_login = record { address = "10.0.0.7:999"; path = "/api/v1/auth/login"; now = 60000000100 }

allow_request-reopens_example :
    (allow_request counted later_login.address later_login.path later_login.now).1 ≡ true
allow_request-reopens_example =
    allow_request-reopens counted later_login (record { started = 100; count = 19 })
      (unfold get in (refl, tt)) (omega arith) first_window refl

-- A bcrypt that knows one password.
abbrev one_password : Bcrypt
one_password = record {
  generate = λ secret. if secret == "key" then some "$2a$10$key" else none;
  matches = λ hash secret. hash == "$2a$10$key" && secret == "key";
  cost = λ hash. some 10;
  default_cost = 10;
}

only_key :
    (secret hash : String)
    → one_password.generate secret ≡ some hash
    → ((secret == "key") ≡ true) × (hash ≡ "$2a$10$key")
only_key secret hash h = elim (Bool-cases (secret == "key")) [
  | inl e ↦ (e, sym (some_injective (rw e at h)))
  | inr e ↦ elim (none_not_some (rw e at h)) [ ]
]

one_password-IsBcrypt : IsBcrypt one_password
one_password-IsBcrypt = record {
  hash_present = λ secret hash h. rw (only_key secret hash h).1 refl;
  generated_cost = λ secret hash h. refl;
  generated_matches =
      λ secret hash h. rw ((only_key secret hash h).1, (only_key secret hash h).0) refl;
}

abbrev one_byte : String → Bytes
one_byte text = 1 ∷ []

-- The organizer's record is of the old kind.
abbrev old_secrets : Secrets
old_secrets = record {
  credentials = record {
    organizer = record { algorithm = ""; salt = "00"; hash = "01" };
    link = record { algorithm = ""; salt = ""; hash = "" };
    teams = [];
  };
  failed = false;
}

old_accepted :
    (verify_credential one_password one_byte old_secrets "organizer" "" "key" true).1 ≡ accepted
unfolding verify_credential find_record check_record verify hash_secret encode digit needs_upgrade
    upgrade new_record
old_accepted = refl

verify_credential-verify_credential_example :
    let after = (verify_credential one_password one_byte old_secrets "organizer" "" "key" true).0 in
    verify_credential one_password one_byte after "organizer" "" "key" false ≡ (after, accepted)
verify_credential-verify_credential_example =
    verify_credential-verify_credential one_password one_password-IsBcrypt one_byte old_secrets
      "organizer" "" "key" true false old_accepted

-- Hexadecimal digits have no dot.
digit_lacks : (n : ℕ) → n < 16 → eqb (code (digit n)) b'.' ≡ false
unfolding value
digit_lacks n h = ground (arith, value-digit n h)

encode-Lacks : (b : Bytes) → All IsByte b → Lacks b'.' (encode b)
unfolding encode
encode-Lacks [] h = tt
encode-Lacks (n ∷ b) (one, rest) = (
  digit_lacks (n / 16) (omega (arith, one)),
  (digit_lacks (n % 16) (omega arith), encode-Lacks b rest),
)

-- Packages that sign everything with one byte, and know one token's claims.
abbrev toy : Claims → Codec
toy claims = record {
  base64 = encode;
  from_base64 = decode;
  bytes = one_byte;
  hmac = λ key message. 7 ∷ [];
  marshal = λ c. 9 ∷ [];
  unmarshal = λ b. some claims;
  sha256 = one_byte;
}

toy-IsCodec : (claims : Claims) → IsCodec (toy claims) claims
toy-IsCodec claims = record {
  bytes_bytes = λ text. (omega arith, tt);
  hmac_bytes = λ key message. (omega arith, tt);
  marshal_bytes = (omega arith, tt);
  from_base64_base64 = decode-encode;
  base64_lacks = encode-Lacks;
  unmarshal_marshal = refl;
}

abbrev zeros : Bytes
zeros =
    0 ∷ 0 ∷ 0 ∷ 0 ∷ 0 ∷ 0 ∷ 0 ∷ 0 ∷ 0 ∷ 0 ∷ 0 ∷ 0 ∷ 0 ∷ 0 ∷ 0 ∷ 0 ∷ 0 ∷ 0 ∷ 0 ∷ 0 ∷ 0 ∷ 0 ∷ 0 ∷ 0
    ∷ 0 ∷ 0 ∷ 0 ∷ 0 ∷ 0 ∷ 0 ∷ 0 ∷ 0 ∷ []

abbrev signing : Access
signing = record {
  tokens = [];
  token_expiry = [];
  refresh_tokens = [];
  stored = none;
  signing_key = zeros;
  security_failed = false;
}

-- A server at which a link and a team are known, by records of the old kind.
abbrev gate : Gate
gate = record {
  secrets = record {
    credentials = record {
      organizer = record { algorithm = ""; salt = ""; hash = "" };
      link = record { algorithm = ""; salt = "00"; hash = "01" };
      teams = ("TEAM-1", record { algorithm = ""; salt = "00"; hash = "01" }) ∷ [];
    };
    failed = false;
  };
  access = signing;
}

abbrev request : LoginRequest
request = record { team_id = "TEAM-1"; join_code = "key"; password = ""; link_token = "key" }

abbrev draw : Draw
draw = record { now = 5; random = some zeros; link_saved = true; saved = true; answered = true }

abbrev codec : Codec
codec = toy (claims_of "TEAM-1" (5 + half_hour))

abbrev tokens : String × String
tokens = (sign_access codec zeros "TEAM-1" (5 + half_hour), encode zeros)

team_entered : (team_login one_password codec gate true (some request) draw).1 ≡ (200, some tokens)
unfolding team_login issue_team_tokens give_tokens issue_tokens with_access verify_credential
    find_record check_record verify hash_secret encode digit needs_upgrade upgrade new_record get
team_entered = refl

team_login-authorize_example :
    let after = (team_login one_password codec gate true (some request) draw).0.access in
    authorize codec after ("Bearer " +++ tokens.0) "TEAM-2" 9 ≡ (
      after,
      ltb_ℤ (unix 9) (unix (5 + half_hour)) && ("TEAM-1" == "TEAM-2" || "TEAM-1" == "organizer"),
    )
team_login-authorize_example =
    team_login-authorize codec one_password gate true request draw tokens "TEAM-2" 9
      (toy-IsCodec (claims_of "TEAM-1" (5 + half_hour))) team_entered

-- A team that gets a session, uses it and starts it again twice where once is allowed.
abbrev settings : Settings
settings = record {
  event_id = "event";
  schedule = record { timezone = "UTC"; opens_at = 0; submissions_close_at = 0 };
  spec = record {
    assignment = "random";
    allow_restart = true;
    max_restarts = pos 1;
    idle_timeout = pos 0;
    max_concurrent = pos 1;
  };
  packages =
      ("first", record { root = "/first"; files = []; scenario = session.scenario; digest = "d" })
      ∷ [];
}

abbrev no_labs : Labs
no_labs = record { sessions = []; restarts = []; activity = []; stored = some ([], []) }

abbrev lucky : Luck
lucky = record { random_id = some "00"; keyed = true; session_saved = true; meta_saved = true }

abbrev team_requests : List Invariant.Request
team_requests =
    Invariant.create "TEAM-1" false 5 lucky
    ∷ Invariant.create "TEAM-2" false 6 lucky
    ∷ Invariant.touch "session-00" 7
    ∷ Invariant.restarting "session-00" true
    ∷ Invariant.restarting "session-00" true
    ∷ []

abbrev host_state : Package → Time → Option State
host_state pkg seed = some (record { machine = host; initial = some host })

no_labs-IsWell : IsWell settings.spec no_labs.sessions no_labs.restarts
no_labs-IsWell = record {
  one_each = tt;
  not_above = λ limited. refl;
  not_oftener = λ id limited. unfold get in refl;
}

serve_all-IsWell_example :
    let after = serve_all one_byte host_state settings no_labs team_requests in
    IsWell settings.spec after.sessions after.restarts
serve_all-IsWell_example =
    serve_all-IsWell one_byte host_state settings no_labs team_requests no_labs-IsWell
