-- ===== src/Commands/Network.antt =====
-- The commands of internal/command/command.go on the network, SELinux and packages: hostname, host,
-- ip, ss, ping, dig, curl, firewall-cmd, getenforce, setenforce, sestatus, restorecon, rpm and dnf.
use Prim.Native.String.{◌++◌ as ◌+++◌}
use red_lab.Prelude.{
  ℕ, ◌+◌, String, Bool, false, not, ◌&&◌, ◌||◌, Option, none, some, List, [], ◌∷◌, ◌==◌,
  if◌then◌else◌,
}
use red_lab.Prelude.GoMap.{GoMap, get_or, keys}
use red_lab.Prelude.Int.{pos, ltb_ℤ}
use red_lab.GoLib.Strings.{has_prefix, trim_prefix}
use red_lab.GoLib.Lines.{split_on}
use red_lab.GoLib.Path.{last_or}
use red_lab.GoLib.Sort.{text_before, sort, sort_by}
use red_lab.GoLib.Strconv.{itoa}
use red_lab.Scenario.{InterfaceSpec}
use red_lab.System.{Machine, Package, HttpResponse, ok, err}
use red_lab.System.Files.{stat}
use red_lab.System.Net.{firewall_allowed, allow_firewall, resolve, http_get, set_selinux}
use red_lab.Runtime.{CommandResult, failed, done}
use red_lab.Commands.{Library, Context, Handler, Reader, fails, answer}

unfoldable pub run_hostname : Reader
run_hostname c args stdin = done (c.0.hostname +++ "\n") []

unfoldable pub run_host : Reader
run_host c (a ∷ []) stdin = elim (resolve c.0 a) [
  | none ↦ failed (pos 1) ("Host " +++ a +++ " not found\n")
  | some address ↦ done (a +++ " has address " +++ address +++ "\n") []
]
run_host c args stdin = failed (pos 2) "host: usage: host NAME\n"

-- PackagesSnapshot
abbrev pub package_before : Package → Package → Bool
package_before a b = text_before a.name b.name

unfoldable pub packages_of : GoMap Package → List Package
packages_of [] = []
packages_of ((name, p) ∷ packages) = p ∷ packages_of packages

unfoldable pub packages_snapshot : Machine → List Package
packages_snapshot m = sort_by package_before (packages_of m.packages)

abbrev pub full_name : Package → String
full_name p = p.name +++ "-" +++ p.version

unfoldable pub package_names : List Package → String
package_names [] = ""
package_names (p ∷ packages) = full_name p +++ "\n" +++ package_names packages

unfoldable pub query_package : String → List Package → CommandResult
query_package name [] = failed (pos 1) ("package " +++ name +++ " is not installed\n")
query_package name (p ∷ packages) =
    let rest = query_package name packages in
    if p.name == name || full_name p == name then done (full_name p +++ "\n") [] else rest

abbrev pub rpm_usage : CommandResult
rpm_usage = failed (pos 2) "rpm: supported forms are rpm -q NAME and rpm -qa\n"

unfoldable pub run_rpm : Reader
run_rpm c (a ∷ []) stdin =
    if a == "-qa" then done (package_names (packages_snapshot c.0)) [] else rpm_usage
run_rpm c (a ∷ name ∷ []) stdin =
    if a == "-q" then query_package name (packages_snapshot c.0) else rpm_usage
run_rpm c args stdin = rpm_usage

unfoldable pub installed_lines : List Package → String
installed_lines [] = ""
installed_lines (p ∷ packages) =
    p.name +++ ".x86_64 " +++ p.version +++ " @virtual\n" +++ installed_lines packages

abbrev pub dnf_usage : CommandResult
dnf_usage = failed (pos 2) "dnf: supported form is dnf list installed\n"

unfoldable pub run_dnf : Reader
run_dnf c (a ∷ b ∷ []) stdin =
    if a == "list" && b == "installed"
    then done ("Installed Packages\n" +++ installed_lines (packages_snapshot c.0)) []
    else dnf_usage
run_dnf c args stdin = dnf_usage

unfoldable pub address_lines : List String → String
address_lines [] = ""
address_lines (address ∷ addresses) = "    inet " +++ address +++ "\n" +++ address_lines addresses

-- The loop of runSS over the sorted keys.
unfoldable pub socket_lines : GoMap Bool → List String → String
socket_lines ports [] = ""
socket_lines ports (key ∷ names) =
    (elim (split_on ":" key) as (λ _. String) [
      | [] ↦ ""
      | part ∷ rest ↦ elim rest as (λ _. String) [
        | [] ↦ ""
        | next ∷ others ↦
            if get_or ports key false
            then "LISTEN 0 128 *:" +++ last_or next others +++ "\n"
            else ""
      ]
    ])
    +++ socket_lines ports names

unfoldable pub run_ss : Reader
run_ss c args stdin =
    done (socket_lines c.0.network.open_ports (sort (keys c.0.network.open_ports))) []

abbrev pub address_or_empty : Option String → String
address_or_empty none = ""
address_or_empty (some address) = address

unfoldable pub run_ping : Reader
run_ping c [] stdin = failed (pos 2) "ping: missing host\n"
run_ping c (a ∷ args) stdin =
    let host = last_or a args in
    elim (resolve c.0 host) [
      | none ↦ failed (pos 1) ("ping: unknown host " +++ host +++ "\n")
      | some address ↦
          done
            ("PING " +++ host +++ " (" +++ address +++ "): virtual response\n--- " +++ host
              +++ " ping statistics ---\n1 packets transmitted, 1 received, 0% packet loss\n")
            []
    ]

unfoldable pub run_dig : Reader
run_dig c [] stdin = failed (pos 1) "dig: missing name\n"
run_dig c (a ∷ args) stdin =
    let host = last_or a args in
    elim (resolve c.0 host) [
      | none ↦ failed (pos 1) ";; NXDOMAIN\n"
      | some address ↦
          done (";; ANSWER SECTION:\n" +++ host +++ ". 60 IN A " +++ address +++ "\n") []
    ]

-- What the loop of runFirewall over its arguments comes to: a query that is answered at once, or the
-- zone and the service.
pub data FirewallCall : Type 0 where
  query : String → String → FirewallCall
  allow : String → String → FirewallCall

unfoldable pub firewall_options : String → String → List String → FirewallCall
firewall_options zone service [] = allow zone service
firewall_options zone service (a ∷ args) =
    let z = if has_prefix a "--zone=" then trim_prefix a "--zone=" else zone in
    let s = if has_prefix a "--add-service=" then trim_prefix a "--add-service=" else service in
    let rest = firewall_options z s args in
    if has_prefix a "--query-service=" then query z (trim_prefix a "--query-service=") else rest

unfoldable pub run_getenforce : Reader
run_getenforce c args stdin = done (c.0.selinux.mode +++ "\n") []

unfoldable pub run_sestatus : Reader
run_sestatus c args stdin =
    done
      ("SELinux status:                 enabled\nSELinuxfs mount:                /sys/fs/selinux\nSELinux mode:                   "
        +++ c.0.selinux.mode +++ "\nCurrent policy name:            targeted\n")
      []

module _ (library : Library) where
  unfoldable pub interface_lines : ℕ → List InterfaceSpec → String
  interface_lines i [] = ""
  interface_lines i (interface ∷ interfaces) =
      itoa (pos (i + 1))
      +++ ": "
      +++ interface.name
      +++ ": <"
      +++ library.to_upper interface.state
      +++ "> state "
      +++ library.to_upper interface.state
      +++ "\n"
      +++ address_lines interface.addresses
      +++ interface_lines (i + 1) interfaces

  unfoldable pub run_ip : Reader
  run_ip c [] stdin = done (interface_lines 0 c.0.network.interfaces) []
  run_ip c (a ∷ args) stdin =
      if not (a == "addr") && not (a == "address")
      then failed (pos 1) "ip: unsupported object\n"
      else done (interface_lines 0 c.0.network.interfaces) []

  abbrev pub curl_result : HttpResponse → CommandResult
  curl_result r = if ltb_ℤ r.status (pos 400) then done r.body [] else record {
    exit_code = pos 22;
    stdout = r.body;
    stderr = "curl: (22) HTTP error " +++ itoa r.status +++ "\n";
    mutations = [];
  }

  unfoldable pub run_curl : Reader
  run_curl c [] stdin = failed (pos 2) "curl: no URL specified\n"
  run_curl c (a ∷ args) stdin = elim (http_get library.parse_url c.0 (last_or a args)) [
    | err e ↦ fails library (pos 6) "" e
    | ok r ↦ curl_result r
  ]

  unfoldable pub call_firewall : Context → FirewallCall → Context × CommandResult
  call_firewall c (query zone service) = (
    c,
    if firewall_allowed c.0 zone service
        then done "yes\n" []
        else record { exit_code = pos 1; stdout = "no\n"; stderr = ""; mutations = [] },
  )
  call_firewall c (allow zone service) =
      if service == ""
      then (c, failed (pos 1) "firewall-cmd: unsupported option\n")
      else answer library c.1 (allow_firewall c.0 zone service c.1.user) (pos 1) ""
          (done "success\n" ((zone +++ ":" +++ service) ∷ []))

  unfoldable pub run_firewall : Handler
  run_firewall c [] stdin = (c, failed (pos 1) "firewall-cmd: missing option\n")
  run_firewall c (a ∷ args) stdin =
      call_firewall c (firewall_options c.0.network.default_zone "" (a ∷ args))

  unfoldable pub mode_named : String → String
  mode_named text =
      let mode = library.to_lower text in
      if mode == "1" then "enforcing" else if mode == "0" then "permissive" else mode

  unfoldable pub run_setenforce : Handler
  run_setenforce c (a ∷ []) stdin =
      answer library c.1 (set_selinux c.0 (mode_named a) c.1.user) (pos 1) ""
        (done "" (("selinux:" +++ mode_named a) ∷ []))
  run_setenforce c args stdin =
      (c, failed (pos 1) "setenforce: usage: setenforce [ Enforcing | Permissive | 1 | 0 ]\n")

  unfoldable pub run_restorecon : Reader
  run_restorecon c [] stdin = done "" []
  run_restorecon c (name ∷ names) stdin = elim (stat c.0 name) [
    | err e ↦ fails library (pos 1) "" e
    | ok file ↦ run_restorecon c names stdin
  ]
