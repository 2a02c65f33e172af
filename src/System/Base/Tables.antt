-- ===== src/System/Base/Tables.antt =====
-- The tables of installRHELBase of internal/system/basefs.go: the directories and the executables of
-- a new machine.
use red_lab.Prelude.{ℕ, String, List, [], ◌∷◌}

-- baseDirectory
pub record BaseDirectory : Type 0 where
  pub path : String
  pub owner : String
  pub group : String
  pub mode : ℕ

abbrev directory : String → String → String → ℕ → BaseDirectory
directory path owner group mode = record { path = path; owner = owner; group = group; mode = mode }

abbrev pub directories : List BaseDirectory
directories =
    directory "/" "root" "root" 0o755
    ∷ directory "/bin" "root" "root" 0o755
    ∷ directory "/boot" "root" "root" 0o700
    ∷ directory "/dev" "root" "root" 0o755
    ∷ directory "/dev/pts" "root" "root" 0o755
    ∷ directory "/dev/shm" "root" "root" 0o1777
    ∷ directory "/etc" "root" "root" 0o755
    ∷ directory "/etc/cron.d" "root" "root" 0o755
    ∷ directory "/etc/cron.daily" "root" "root" 0o755
    ∷ directory "/etc/dnf" "root" "root" 0o755
    ∷ directory "/etc/logrotate.d" "root" "root" 0o755
    ∷ directory "/etc/NetworkManager" "root" "root" 0o755
    ∷ directory "/etc/NetworkManager/system-connections" "root" "root" 0o700
    ∷ directory "/etc/pki" "root" "root" 0o755
    ∷ directory "/etc/pki/ca-trust" "root" "root" 0o755
    ∷ directory "/etc/security" "root" "root" 0o755
    ∷ directory "/etc/selinux" "root" "root" 0o755
    ∷ directory "/etc/selinux/targeted" "root" "root" 0o755
    ∷ directory "/etc/ssh" "root" "root" 0o755
    ∷ directory "/etc/sudoers.d" "root" "root" 0o750
    ∷ directory "/etc/sysconfig" "root" "root" 0o755
    ∷ directory "/etc/systemd" "root" "root" 0o755
    ∷ directory "/etc/systemd/system" "root" "root" 0o755
    ∷ directory "/etc/yum.repos.d" "root" "root" 0o755
    ∷ directory "/home" "root" "root" 0o755
    ∷ directory "/media" "root" "root" 0o755
    ∷ directory "/mnt" "root" "root" 0o755
    ∷ directory "/opt" "root" "root" 0o755
    ∷ directory "/proc" "root" "root" 0o555
    ∷ directory "/proc/1" "root" "root" 0o555
    ∷ directory "/root" "root" "root" 0o700
    ∷ directory "/run" "root" "root" 0o755
    ∷ directory "/run/lock" "root" "root" 0o775
    ∷ directory "/run/user" "root" "root" 0o755
    ∷ directory "/sbin" "root" "root" 0o755
    ∷ directory "/srv" "root" "root" 0o755
    ∷ directory "/sys" "root" "root" 0o555
    ∷ directory "/tmp" "root" "root" 0o1777
    ∷ directory "/usr" "root" "root" 0o755
    ∷ directory "/usr/bin" "root" "root" 0o755
    ∷ directory "/usr/lib" "root" "root" 0o755
    ∷ directory "/usr/lib64" "root" "root" 0o755
    ∷ directory "/usr/lib/systemd" "root" "root" 0o755
    ∷ directory "/usr/lib/systemd/system" "root" "root" 0o755
    ∷ directory "/usr/local" "root" "root" 0o755
    ∷ directory "/usr/local/bin" "root" "root" 0o755
    ∷ directory "/usr/local/etc" "root" "root" 0o755
    ∷ directory "/usr/local/lib" "root" "root" 0o755
    ∷ directory "/usr/local/sbin" "root" "root" 0o755
    ∷ directory "/usr/local/share" "root" "root" 0o755
    ∷ directory "/usr/sbin" "root" "root" 0o755
    ∷ directory "/usr/share" "root" "root" 0o755
    ∷ directory "/usr/share/doc" "root" "root" 0o755
    ∷ directory "/usr/share/man" "root" "root" 0o755
    ∷ directory "/var" "root" "root" 0o755
    ∷ directory "/var/cache" "root" "root" 0o755
    ∷ directory "/var/lib" "root" "root" 0o755
    ∷ directory "/var/lib/dnf" "root" "root" 0o755
    ∷ directory "/var/lib/rpm" "root" "root" 0o755
    ∷ directory "/var/lib/systemd" "root" "root" 0o755
    ∷ directory "/var/log" "root" "root" 0o755
    ∷ directory "/var/log/audit" "root" "root" 0o700
    ∷ directory "/var/log/journal" "root" "systemd-journal" 0o2755
    ∷ directory "/var/opt" "root" "root" 0o755
    ∷ directory "/var/spool" "root" "root" 0o755
    ∷ directory "/var/spool/cron" "root" "root" 0o700
    ∷ directory "/var/tmp" "root" "root" 0o1777
    ∷ []

abbrev pub executables : List String
executables =
    "/sbin/init" ∷ "/usr/bin/awk" ∷ "/usr/bin/bash" ∷ "/usr/bin/basename" ∷ "/usr/bin/cat"
    ∷ "/usr/bin/chmod" ∷ "/usr/bin/chown" ∷ "/usr/bin/cp" ∷ "/usr/bin/cut" ∷ "/usr/bin/date"
    ∷ "/usr/bin/df" ∷ "/usr/bin/dirname" ∷ "/usr/bin/dnf" ∷ "/usr/bin/du" ∷ "/usr/bin/echo"
    ∷ "/usr/bin/find" ∷ "/usr/bin/firewall-cmd" ∷ "/usr/bin/free" ∷ "/usr/bin/grep"
    ∷ "/usr/bin/head" ∷ "/usr/bin/hostname" ∷ "/usr/bin/id" ∷ "/usr/bin/journalctl"
    ∷ "/usr/bin/kill" ∷ "/usr/bin/ls" ∷ "/usr/bin/mkdir" ∷ "/usr/bin/mv" ∷ "/usr/bin/pgrep"
    ∷ "/usr/bin/pkill" ∷ "/usr/bin/printf" ∷ "/usr/bin/ps" ∷ "/usr/bin/pstree" ∷ "/usr/bin/pwd"
    ∷ "/usr/bin/realpath" ∷ "/usr/bin/rm" ∷ "/usr/bin/rmdir" ∷ "/usr/bin/rpm" ∷ "/usr/bin/sed"
    ∷ "/usr/bin/sh" ∷ "/usr/bin/sort" ∷ "/usr/bin/ss" ∷ "/usr/bin/stat" ∷ "/usr/bin/sudo"
    ∷ "/usr/bin/systemctl" ∷ "/usr/bin/tail" ∷ "/usr/bin/tee" ∷ "/usr/bin/top" ∷ "/usr/bin/touch"
    ∷ "/usr/bin/tree" ∷ "/usr/bin/uname" ∷ "/usr/bin/uniq" ∷ "/usr/bin/uptime" ∷ "/usr/bin/wc"
    ∷ "/usr/bin/whoami" ∷ "/usr/sbin/groupadd" ∷ "/usr/sbin/httpd" ∷ "/usr/sbin/restorecon"
    ∷ "/usr/sbin/setenforce" ∷ "/usr/sbin/sshd" ∷ "/usr/sbin/useradd" ∷ "/usr/sbin/usermod" ∷ []
