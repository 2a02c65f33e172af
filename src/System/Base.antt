-- ===== src/System/Base.antt =====
-- installRHELBase of internal/system/basefs.go: the files of a new machine. Go leaves open the order
-- in which it walks over the users and over the table of files; here it is the order of the map and
-- of the source. `format_time` stands for the method `Format` of package time.
pub mod Tables
pub mod Texts
use Prim.Native.String.{◌++◌ as ◌+++◌}
use red_lab.Prelude.{
  map, ℕ, ◌+◌, String, Bool, true, false, none, some, List, [], ◌∷◌, ◌==◌, if◌then◌else◌,
}
use red_lab.Prelude.GoMap.{GoMap, get, put}
use red_lab.GoLib.Strings.{size, contains}
use red_lab.GoLib.Lines.{trim_suffix}
use red_lab.GoLib.Path.{dir}
use red_lab.GoLib.Time.{Time}
use red_lab.Scenario.{ScenarioSpec, ServiceSpec}
use red_lab.System.{File, User}
use red_lab.System.Files.{ensure_from}
use red_lab.System.Identity.{user_home, render_passwd, render_group, users_of, home_file}
use red_lab.System.Base.Tables.{BaseDirectory, directories, executables}
use red_lab.System.Base.Texts.{
  directory_type, file_type, render_hosts, render_resolv, render_release, major_of, profile_of,
  hostname_of,
}

-- `File{Path: p, Content: content, Owner: "root", Group: "root", Mode: mode, SELinuxType: selinux_type}`
abbrev pub root_file : String → String → ℕ → String → File
root_file p content mode selinux_type = record {
  path = p;
  content = content;
  owner = "root";
  group = "root";
  mode = mode;
  selinux_type = selinux_type;
  directory = false;
}

abbrev pub directory_file : BaseDirectory → File
directory_file d = record {
  path = d.path;
  content = "";
  owner = d.owner;
  group = d.group;
  mode = d.mode;
  selinux_type = directory_type d.path;
  directory = true;
}

-- `s.Files[f.Path] = f`
abbrev pub store : File → GoMap File → GoMap File
store f files = put files f.path f

-- `s.ensureParents(f.Path); s.Files[f.Path] = f`
unfoldable pub place : File → GoMap File → GoMap File
place f files = store f (ensure_from (size f.path + 1) (dir f.path) files)

unfoldable pub store_all : List File → GoMap File → GoMap File
store_all [] files = files
store_all (f ∷ rest) files = store_all rest (store f files)

abbrev pub executable : String → File
executable name = root_file name "" 0o755 "bin_t"

abbrev pub unit_of : ServiceSpec → String
unit_of s = if contains s.name "." then s.name else s.name +++ ".service"

abbrev pub unit_file : ServiceSpec → File
unit_file s =
    root_file ("/usr/lib/systemd/system/" +++ unit_of s)
      ("[Unit]\nDescription="
        +++ unit_of s
        +++ "\nAfter=network.target\n\n[Service]\nType=simple\nExecStart=/usr/sbin/"
        +++ trim_suffix (unit_of s) ".service"
        +++ "\n\n[Install]\nWantedBy=multi-user.target\n")
      0o644 "systemd_unit_file_t"

-- primaryGroupLocked, of the users that there are.
abbrev pub group_of : GoMap User → String → String
group_of users name = elim (get users name) [
  | none ↦ name
  | some u ↦ elim u.groups [ [] ↦ name | group ∷ rest ↦ group ]
]

abbrev pub owned_file : GoMap User → String → String → String → ℕ → Bool → String → File
owned_file users name p content mode directory selinux_type =
    record (home_file p name content mode directory selinux_type) { group = group_of users name }

abbrev pub home_files : GoMap User → String → List File
home_files users name =
    let home = user_home name in
    owned_file users name home "" (if name == "root" then 0o700 else 0o750) true "user_home_dir_t"
    ∷ owned_file users name (home +++ "/.bash_profile")
        "# .bash_profile\nif [ -f ~/.bashrc ]; then . ~/.bashrc; fi\nPATH=$PATH:$HOME/.local/bin:$HOME/bin\n"
        0o644 false "user_home_t"
    ∷ owned_file users name (home +++ "/.bashrc")
        "# .bashrc\nif [ -f /etc/bashrc ]; then . /etc/bashrc; fi\n" 0o644 false "user_home_t"
    ∷ []

unfoldable pub store_homes : GoMap User → List User → GoMap File → GoMap File
store_homes users [] files = files
store_homes users (u ∷ rest) files =
    store_homes users rest (store_all (home_files users u.name) files)

-- An entry of the table of files.
abbrev base_file : String → String → ℕ → File
base_file name content mode = root_file name content mode (file_type name)

abbrev pub base_files : (Time → String → String) → ScenarioSpec → Time → GoMap User → List File
base_files format_time spec now users =
    let hostname = hostname_of spec.rhel in
    let profile = profile_of spec.rhel in
    base_file "/etc/almalinux-release"
      ("RedLab Enterprise Linux release " +++ profile +++ " (Ootpa)\n") 0o644
    ∷ base_file "/etc/bashrc" "# System-wide functions and aliases for the RedLab shell\n" 0o644
    ∷ base_file "/etc/fstab"
        "# Created by RedLab\n/dev/mapper/rhel-root / xfs defaults 0 0\nUUID=REDLAB-BOOT /boot xfs defaults 0 0\n"
        0o644
    ∷ base_file "/etc/group" (render_group users) 0o644
    ∷ base_file "/etc/hostname" (hostname +++ "\n") 0o644
    ∷ base_file "/etc/hosts" (render_hosts hostname spec.network) 0o644
    ∷ base_file "/etc/issue" ("RedLab Enterprise Linux " +++ profile +++ "\nKernel \\r on an \\m\n")
        0o644
    ∷ base_file "/etc/motd" "This is a deterministic RedLab RHEL-compatible training host.\n" 0o644
    ∷ base_file "/etc/os-release" (render_release profile (major_of spec.rhel)) 0o644
    ∷ base_file "/etc/passwd" (render_passwd users) 0o644
    ∷ base_file "/etc/profile"
        "# System-wide environment for the RedLab shell\nPATH=/usr/local/sbin:/usr/local/bin:/usr/sbin:/usr/bin:/sbin:/bin\n"
        0o644
    ∷ base_file "/etc/redhat-release"
        ("RedLab Enterprise Linux release " +++ profile +++ " (Ootpa)\n") 0o644
    ∷ base_file "/etc/resolv.conf" (render_resolv spec.network.dns) 0o644
    ∷ base_file "/etc/shells" "/bin/sh\n/bin/bash\n/usr/bin/sh\n/usr/bin/bash\n" 0o644
    ∷ base_file "/etc/sudoers"
        "Defaults    !visiblepw\nDefaults    always_set_home\nroot ALL=(ALL) ALL\n%wheel ALL=(ALL) ALL\n"
        0o440
    ∷ base_file "/proc/1/cmdline" "/sbin/init\0" 0o444
    ∷ base_file "/proc/cpuinfo" "processor\t: 0\nmodel name\t: RedLab Virtual CPU\ncpu cores\t: 2\n"
        0o444
    ∷ base_file "/proc/filesystems" "nodev\tsysfs\nnodev\ttmpfs\nnodev\tproc\n\txfs\n" 0o444
    ∷ base_file "/proc/loadavg" "0.00 0.01 0.05 1/96 1\n" 0o444
    ∷ base_file "/proc/meminfo"
        "MemTotal:        2097152 kB\nMemFree:         1572864 kB\nMemAvailable:    1769472 kB\nBuffers:           32768 kB\nCached:           196608 kB\nSwapTotal:       1048576 kB\nSwapFree:        1048576 kB\n"
        0o444
    ∷ base_file "/proc/mounts"
        "/dev/mapper/rhel-root / xfs rw,relatime 0 0\nproc /proc proc rw,nosuid,nodev,noexec,relatime 0 0\nsysfs /sys sysfs rw,nosuid,nodev,noexec,relatime 0 0\ntmpfs /run tmpfs rw,nosuid,nodev 0 0\n"
        0o444
    ∷ base_file "/proc/sys/kernel/hostname" (hostname +++ "\n") 0o644
    ∷ base_file "/proc/uptime" "86400.00 172000.00\n" 0o444
    ∷ base_file "/proc/version"
        "Linux version 4.18.0-553.el8_10.x86_64 (RedLab) #1 SMP x86_64 GNU/Linux\n" 0o444
    ∷ base_file "/var/log/dnf.log" "" 0o644
    ∷ base_file "/var/log/messages"
        (format_time now "Jan 02 15:04:05" +++ " systemd[1]: Started RedLab virtual system.\n")
        0o640
    ∷ base_file "/var/log/secure" "" 0o600
    ∷ []

unfoldable pub place_all : List File → GoMap File → GoMap File
place_all [] files = files
place_all (f ∷ rest) files = place_all rest (place f files)

-- installRHELBase. What it does to the hostname is `hostname_of`.
unfoldable pub install_base :
    (Time → String → String) → ScenarioSpec → Time → GoMap User → GoMap File → GoMap File
install_base format_time spec now users files = place_all (base_files format_time spec now users) (
    store_homes users (users_of users) (
      store_all (map unit_file spec.services) (
        store_all (map executable executables) (store_all (map directory_file directories) files))))
