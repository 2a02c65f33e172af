-- ===== src/System/Base/Texts.antt =====
-- The texts and the types of SELinux in internal/system/basefs.go.
use Prim.Native.String.{◌++◌ as ◌+++◌}
use red_lab.Prelude.{String, ◌||◌, none, some, List, [], ◌∷◌, ◌==◌, if◌then◌else◌}
use red_lab.Prelude.GoMap.{GoMap, get_or, keys}
use red_lab.Prelude.Int.{ℤ, pos, eqb_ℤ}
use red_lab.GoLib.Strings.{has_prefix}
use red_lab.GoLib.Lines.{cut_at}
use red_lab.GoLib.Sort.{sort}
use red_lab.GoLib.Strconv.{itoa}
use red_lab.Scenario.{RhelSpec, DnsSpec, NetworkSpec}
use red_lab.System.Identity.{default_string}

abbrev pub directory_type : String → String
directory_type name =
    if name == "/tmp" || name == "/var/tmp"
    then "tmp_t"
    else if has_prefix name "/home/" || name == "/root"
    then "user_home_dir_t"
    else if has_prefix name "/var/log"
    then "var_log_t"
    else if has_prefix name "/etc"
    then "etc_t"
    else "root_t"

abbrev pub file_type : String → String
file_type name =
    if has_prefix name "/etc"
    then "etc_t"
    else if has_prefix name "/proc"
    then "proc_t"
    else if has_prefix name "/var/log"
    then "var_log_t"
    else "default_t"

unfoldable pub host_lines : GoMap String → List String → String
host_lines records [] = ""
host_lines records (name ∷ names) =
    get_or records name "" +++ "   " +++ name +++ "\n" +++ host_lines records names

unfoldable pub render_hosts : String → NetworkSpec → String
render_hosts hostname network =
    let short : String = elim (cut_at b'.' hostname) [ none ↦ hostname | some parts ↦ parts.0 ] in
    "127.0.0.1   localhost localhost.localdomain\n::1         localhost localhost.localdomain\n127.0.1.1   "
    +++ hostname
    +++ " "
    +++ short
    +++ "\n"
    +++ host_lines network.dns.records (sort (keys network.dns.records))

unfoldable pub resolv_lines : List String → String
resolv_lines [] = ""
resolv_lines (server ∷ servers) = "nameserver " +++ server +++ "\n" +++ resolv_lines servers

unfoldable pub render_resolv : DnsSpec → String
render_resolv dns = default_string (resolv_lines dns.servers) "nameserver 127.0.0.1\n"

abbrev pub render_release : String → ℤ → String
render_release profile major =
    "NAME=\"RedLab Enterprise Linux\"\nVERSION=\""
    +++ profile
    +++ " (Ootpa)\"\nID=\"rhel\"\nID_LIKE=\"fedora\"\nVERSION_ID=\""
    +++ profile
    +++ "\"\nPLATFORM_ID=\"platform:el"
    +++ itoa major
    +++ "\"\nPRETTY_NAME=\"RedLab Enterprise Linux "
    +++ profile
    +++ " (Ootpa)\"\n"

abbrev pub major_of : RhelSpec → ℤ
major_of rhel = if eqb_ℤ rhel.major (pos 0) then pos 8 else rhel.major

abbrev pub profile_of : RhelSpec → String
profile_of rhel = default_string rhel.minor_profile (itoa (major_of rhel) +++ ".10")

abbrev pub hostname_of : RhelSpec → String
hostname_of rhel = default_string rhel.hostname "localhost.localdomain"
