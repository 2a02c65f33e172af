-- ===== src/System/Net.antt =====
-- The methods of internal/system/state.go that read and set the simulated network and SELinux.
use Prim.Native.String.{◌++◌ as ◌+++◌}
use red_lab.Prelude.{
  ℕ, String, Bool, true, false, not, ◌&&◌, Option, none, some, ◌==◌, if◌then◌else◌,
}
use red_lab.Prelude.GoMap.{get, put, get_or}
use red_lab.Prelude.Int.{ℤ, pos}
use red_lab.GoLib.Strconv.{itoa}
use red_lab.System.{
  HttpResponse, Machine, Result, ok, err, bad_url, cannot_resolve, zone_conflict, needs_root,
  invalid_mode,
}
use red_lab.System.Permissions.{member}
use red_lab.System.Files.{Outcome}

-- What the code reads of a parsed `url.URL`.
pub record Url : Type 0 where
  pub scheme : String
  pub hostname : String
  pub port : String

unfoldable pub firewall_allowed : Machine → String → String → Bool
firewall_allowed m zone service = elim (get m.network.zones zone) [
  | none ↦ false
  | some z ↦ get_or z.services service false
]

-- AllowFirewall. `permanent` is not used.
unfoldable pub allow_firewall : Machine → String → String → String → Outcome
allow_firewall m zone service user =
    if not (user == "root") then (m, some needs_root) else elim (get m.network.zones zone) [
      | none ↦ (m, some zone_conflict)
      | some z ↦ (
        record m {
          network = record m.network {
            zones = put m.network.zones zone (record z { services = put z.services service true });
          };
        },
        none,
      )
    ]

unfoldable pub resolve : Machine → String → Option String
resolve m host = get m.network.dns.records host

unfoldable pub port_for : Url → String
port_for u = if u.port == "" then "80" else u.port

abbrev pub response : ℕ → String → HttpResponse
response status body = record { status = pos status; body = body }

-- HTTPGet after url.Parse.
unfoldable pub http_answer : Machine → String → Url → Result HttpResponse
http_answer m raw u = elim (get m.network.http raw) [
  | some r ↦ ok r
  | none ↦ elim (get m.network.dns.records u.hostname) [
    | none ↦ err cannot_resolve
    | some address ↦
        if not (get_or m.network.open_ports (address +++ ":" +++ port_for u) false)
        then ok (response 503 "Service Unavailable\n")
        else ok (response 404 "Not Found\n")
  ]
]

module _ (parse_url : String → Option Url) where
  unfoldable pub http_get : Machine → String → Result HttpResponse
  http_get m raw = elim (parse_url raw) [
    | none ↦ err bad_url
    | some u ↦ if not (u.scheme == "http") then err bad_url else http_answer m raw u
  ]

unfoldable pub set_http : Machine → String → HttpResponse → Machine
set_http m raw r = record m { network = record m.network { http = put m.network.http raw r } }

unfoldable pub set_port : Machine → String → ℤ → String → String → Machine
set_port m address port protocol state =
    let key = address +++ ":" +++ itoa port in
    let ports = put m.network.open_ports (key +++ "/" +++ protocol) (state == "open") in
    record m {
      network = record m.network {
        open_ports = if protocol == "tcp" then put ports key (state == "open") else ports;
      };
    }

unfoldable pub set_selinux : Machine → String → String → Outcome
set_selinux m mode user =
    if not (user == "root")
    then (m, some needs_root)
    else if not (mode == "enforcing") && not (mode == "permissive")
    then (m, some invalid_mode)
    else (record m { selinux = record m.selinux { mode = mode } }, none)

unfoldable pub user_in_group : Machine → String → String → Bool
user_in_group m user group = elim (get m.users user) [
  | none ↦ false
  | some u ↦ member group u.groups
]
