-- ===== src/Commands/Registry.antt =====
-- The registry of internal/command/command.go: RegisterCore, Registry.Run, runSudo and executeNested.
-- `lab` stands for the command `lab` of the session.
pub mod Guarded
pub mod Removal
pub mod Refused
pub mod Kept
pub mod Sequence
use Prim.Native.String.{◌++◌ as ◌+++◌}
use red_lab.Prelude.{String, true, false, not, ◌&&◌, none, some, List, [], ◌∷◌, ◌==◌, if◌then◌else◌}
use red_lab.Prelude.GoMap.{GoMap, get}
use red_lab.Prelude.Int.{pos}
use red_lab.System.Sudo.{sudo_allowed}
use red_lab.Runtime.{CommandResult, failed, done}
use red_lab.Commands.{Library, Context, Handler, Reader, reads}
use red_lab.Commands.Text.{run_wc, run_sort, run_uniq, run_cut, run_cat, run_lines, run_grep}
use red_lab.Commands.Files.{run_test, run_basename, run_dirname, run_df}
use red_lab.Commands.Changes.{
  run_ls, run_stat, run_tee, run_mkdir, run_touch, run_rm, run_chmod, run_chown, run_copy, run_move,
  run_rmdir, run_find, run_realpath, run_tree, run_du,
}
use red_lab.Commands.Shell.{
  Entry, find_entry, run_pwd, run_shell_info, run_alias, run_export, run_unset, run_env,
  run_history, run_echo, run_uname, run_free, run_help, run_man, run_which, run_cd, run_printf,
  run_date, run_uptime,
}
use red_lab.Commands.Identity.{run_whoami, run_id, run_groups, run_usermod, run_useradd}
use red_lab.Commands.Services.{run_logger, run_systemctl, run_journal}
use red_lab.Commands.Network.{
  run_hostname, run_host, run_rpm, run_dnf, run_ss, run_ping, run_dig, run_getenforce, run_sestatus,
  run_ip, run_curl, run_firewall, run_setenforce, run_restorecon,
}
use red_lab.Commands.Processes.{run_ps, run_pstree, run_pgrep, run_kill, run_killall, run_top}

module _ (library : Library) (catalog : List Entry) where
  -- The commands that change nothing.
  unfoldable pub readers : GoMap Reader
  readers =
      ("pwd", run_pwd)
      ∷ ("bash", run_shell_info)
      ∷ ("sh", run_shell_info)
      ∷ ("alias", run_alias)
      ∷ ("help", run_help catalog)
      ∷ ("man", run_man catalog)
      ∷ ("clear", λ c args stdin. done "\u{1b}[2J\u{1b}[H" [])
      ∷ ("exit", λ c args stdin. done "logout\n" [])
      ∷ ("echo", run_echo)
      ∷ ("printf", run_printf library)
      ∷ ("date", run_date library)
      ∷ ("which", run_which catalog)
      ∷ ("type", run_which catalog)
      ∷ ("whereis", run_which catalog)
      ∷ ("wc", run_wc library)
      ∷ ("sort", run_sort)
      ∷ ("uniq", run_uniq)
      ∷ ("cut", run_cut)
      ∷ ("env", run_env)
      ∷ ("true", λ c args stdin. done "" [])
      ∷ ("false", λ c args stdin. failed (pos 1) "")
      ∷ ("test", run_test)
      ∷ ("ls", run_ls library)
      ∷ ("cat", run_cat library)
      ∷ ("head", run_lines library true)
      ∷ ("tail", run_lines library false)
      ∷ ("grep", run_grep library)
      ∷ ("stat", run_stat library)
      ∷ ("find", run_find library)
      ∷ ("basename", run_basename)
      ∷ ("dirname", run_dirname)
      ∷ ("realpath", run_realpath library)
      ∷ ("tree", run_tree library)
      ∷ ("whoami", run_whoami)
      ∷ ("id", run_id)
      ∷ ("groups", run_groups)
      ∷ ("journalctl", run_journal library)
      ∷ ("hostname", run_hostname)
      ∷ ("host", run_host)
      ∷ ("nslookup", run_host)
      ∷ ("ip", run_ip library)
      ∷ ("ss", run_ss)
      ∷ ("ping", run_ping)
      ∷ ("dig", run_dig)
      ∷ ("curl", run_curl library)
      ∷ ("getenforce", run_getenforce)
      ∷ ("sestatus", run_sestatus)
      ∷ ("restorecon", run_restorecon library)
      ∷ ("rpm", run_rpm)
      ∷ ("dnf", run_dnf)
      ∷ ("ps", run_ps library)
      ∷ ("pstree", run_pstree)
      ∷ ("pgrep", run_pgrep)
      ∷ ("top", run_top library)
      ∷ ("df", run_df)
      ∷ ("du", run_du library)
      ∷ ("free", run_free)
      ∷ ("uptime", run_uptime library)
      ∷ ("uname", run_uname)
      ∷ ("history", run_history)
      ∷ []

  -- The commands that change the machine or the environment, but for `sudo`.
  unfoldable pub changers : GoMap Handler
  changers =
      ("cd", run_cd library)
      ∷ ("export", run_export)
      ∷ ("unset", run_unset)
      ∷ ("tee", run_tee library)
      ∷ ("mkdir", run_mkdir library)
      ∷ ("touch", run_touch library)
      ∷ ("rm", run_rm library)
      ∷ ("chmod", run_chmod library)
      ∷ ("chown", run_chown library)
      ∷ ("cp", run_copy library)
      ∷ ("mv", run_move library)
      ∷ ("rmdir", run_rmdir library)
      ∷ ("usermod", run_usermod library)
      ∷ ("useradd", run_useradd library)
      ∷ ("systemctl", run_systemctl library)
      ∷ ("logger", run_logger)
      ∷ ("firewall-cmd", run_firewall library)
      ∷ ("setenforce", run_setenforce library)
      ∷ ("kill", run_kill library)
      ∷ ("pkill", run_killall library)
      ∷ ("killall", run_killall library)
      ∷ []

  -- The handlers of the entries of the catalog that no command is registered for.
  unfoldable pub run_unknown : String → CommandResult
  run_unknown name = elim (find_entry catalog name) [
    | none ↦ failed (pos 127) (name +++ ": command not found\n")
    | some e ↦ failed (pos 127) (
        name +++ ": recognized by RedLab, but not emulated at compatibility level " +++ e.level
        +++ "\n")
  ]

  -- `Registry.Run` for a command that is not `sudo` nor `lab`.
  unfoldable pub run_plain : String → Handler
  run_plain name c args stdin = elim (get readers name) [
    | some r ↦ reads r c args stdin
    | none ↦ elim (get changers name) [ some h ↦ h c args stdin | none ↦ (c, run_unknown name) ]
  ]

  module _ (lab : Handler) where
    -- executeNested
    unfoldable pub run_nested : Context → List String → String → Context × CommandResult
    run_nested c [] stdin = (c, done "" [])
    run_nested c (name ∷ args) stdin =
        if name == "sudo"
        then (c, failed (pos 1) "sudo: nested sudo is not supported\n")
        else if name == "lab"
        then lab c args stdin
        else run_plain name c args stdin

    unfoldable pub run_sudo : Handler
    run_sudo c [] stdin = (c, failed (pos 1) "sudo: a command is required\n")
    run_sudo c (name ∷ args) stdin =
        if not (c.1.user == "root") && not (sudo_allowed c.0 c.1.user name)
        then (
          c,
          failed (pos 1)
              (c.1.user +++ " is not in the sudoers file. This incident will be reported.\n"),
        )
        else let r = run_nested (c.0, record c.1 { user = "root" }) (name ∷ args) stdin in
          ((r.0.0, record r.0.1 { user = c.1.user }), r.1)

    -- `Registry.Run`
    unfoldable pub run_core : String → Handler
    run_core name c args stdin =
        if name == "lab"
        then lab c args stdin
        else if name == "sudo"
        then run_sudo c args stdin
        else run_plain name c args stdin
