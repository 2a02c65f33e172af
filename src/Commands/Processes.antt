-- ===== src/Commands/Processes.antt =====
-- The commands of internal/command/command.go on processes: ps, pstree, pgrep, kill, pkill, killall
-- and top.
use Prim.Native.String.{◌++◌ as ◌+++◌}
use red_lab.Prelude.{
  ltb, eqb, String, Bool, true, false, not, ◌&&◌, ◌||◌, Option, none, some, List, [], ◌∷◌, ◌==◌,
  if◌then◌else◌,
}
use red_lab.Prelude.Int.{pos}
use red_lab.GoLib.Strings.{contains, has_prefix, trim_prefix}
use red_lab.GoLib.Lines.{trim_suffix}
use red_lab.GoLib.Path.{base}
use red_lab.GoLib.Fmt.{atoi, pad_left, pad_right}
use red_lab.GoLib.Sort.{sort_by}
use red_lab.System.{Process, Machine}
use red_lab.System.Services.Signals.{signal_process}
use red_lab.Runtime.{Env, CommandResult, failed, done}
use red_lab.Commands.{Library, Context, Handler, Reader, fails}
use red_lab.Commands.Files.{number, without}

-- ProcessesSnapshot
abbrev pub pid_before : Process → Process → Bool
pid_before a b = ltb a.pid b.pid

unfoldable pub processes_snapshot : Machine → List Process
processes_snapshot m = sort_by pid_before m.processes

-- The loop of runPS over its arguments: whether the listing is wide, and whether it is full, or the
-- option that is not supported.
unfoldable pub ps_options : Bool × Bool → List String → (Bool × Bool) × Option String
ps_options o [] = (o, none)
ps_options o (a ∷ args) =
    let wide = ps_options (true, o.1) args in
    let full = ps_options (o.0, true) args in
    let rest = ps_options o args in
    if a == "aux" || a == "-a" || a == "-x"
    then wide
    else if a == "-ef" || a == "-e" || a == "-f"
    then full
    else if has_prefix a "-"
    then (o, some a)
    else rest

abbrev pub full_line : Process → String
full_line p =
    pad_right 10 p.user
    +++ " "
    +++ pad_left " " 6 (number p.pid)
    +++ " "
    +++ pad_left " " 7 (number p.ppid)
    +++ "  0 00:00 ?        00:00:00 "
    +++ p.command
    +++ "\n"

abbrev pub short_line : Process → String
short_line p =
    pad_left " " 3 (number p.pid)
    +++ " ?        00:00:"
    +++ pad_left "0" 2 (number p.cpu_seconds)
    +++ " "
    +++ p.command
    +++ "\n"

-- `strings.TrimSuffix(path.Base(process.Command), ".service")`
abbrev pub short_name : Process → String
short_name p = trim_suffix (base p.command) ".service"

unfoldable pub branches : List Process → String
branches [] = ""
branches (p ∷ processes) =
    "---" +++ short_name p +++ "(" +++ number p.pid +++ ")" +++ branches processes

unfoldable pub draw_tree : List Process → CommandResult
draw_tree [] = done "" []
draw_tree (p ∷ processes) = done ("systemd(1)" +++ branches processes +++ "\n") []

unfoldable pub run_pstree : Reader
run_pstree c args stdin = draw_tree (processes_snapshot c.0)

abbrev pub is_match : String → Process → Bool
is_match wanted p =
    contains p.command wanted || short_name p == wanted || (eqb p.pid 1 && wanted == "systemd")

-- The loop of runPGrep over the processes.
unfoldable pub matches_of : Bool → String → List Process → String
matches_of all wanted [] = ""
matches_of all wanted (p ∷ processes) =
    (if not (is_match wanted p)
      then ""
      else if all
      then number p.pid +++ " " +++ p.command +++ "\n"
      else number p.pid +++ "\n")
    +++ matches_of all wanted processes

unfoldable pub any_match : String → List Process → Bool
any_match wanted [] = false
any_match wanted (p ∷ processes) = is_match wanted p || any_match wanted processes

-- The patterns of `pgrep`: one, which is not empty.
unfoldable pub pgrep_pattern : String → List String → Option String
pgrep_pattern wanted [] = some wanted
pgrep_pattern wanted (a ∷ args) =
    let rest = pgrep_pattern a args in if wanted == "" then rest else none

unfoldable pub grep_processes : Bool → String → List Process → CommandResult
grep_processes all wanted processes = record {
  exit_code = if any_match wanted processes then pos 0 else pos 1;
  stdout = matches_of all wanted processes;
  stderr = "";
  mutations = [];
}

abbrev pub is_all : String → Bool
is_all a = a == "-a"

unfoldable pub has_all : List String → Bool
has_all [] = false
has_all (a ∷ args) = is_all a || has_all args

unfoldable pub run_pgrep : Reader
run_pgrep c args stdin = elim (pgrep_pattern "" (without is_all args)) [
  | none ↦ failed (pos 2) "pgrep: too many patterns\n"
  | some wanted ↦
      if wanted == ""
      then failed (pos 2) "pgrep: pattern is required\n"
      else grep_processes (has_all args) wanted (processes_snapshot c.0)
]

-- The signal that `kill` sends: the last of its options.
unfoldable pub signal_named : String → List String → String
signal_named signal [] = signal
signal_named signal (a ∷ args) =
    signal_named (if has_prefix a "-" then trim_prefix a "-" else signal) args

abbrev pub is_option : String → Bool
is_option a = has_prefix a "-"

-- The test of runKillAll. A name that has lost its suffix `.service` can lose another.
abbrev pub is_named : String → Process → Bool
is_named wanted p =
    p.command == wanted
    || short_name p == wanted
    || trim_suffix (short_name p) ".service" == trim_suffix wanted ".service"

module _ (library : Library) where
  abbrev pub wide_line : Process → String
  wide_line p =
      pad_right 10 p.user
      +++ " "
      +++ pad_left " " 4 (number p.pid)
      +++ " "
      +++ pad_left " " 4 (number p.cpu_seconds +++ ".0")
      +++ " "
      +++ library.mebibytes p.memory_bytes
      +++ " "
      +++ pad_right 4 p.state
      +++ " "
      +++ p.command
      +++ "\n"

  unfoldable pub process_lines : Bool → Bool → List Process → String
  process_lines wide full [] = ""
  process_lines wide full (p ∷ processes) =
      (if wide then wide_line p else if full then full_line p else short_line p)
      +++ process_lines wide full processes

  abbrev pub ps_title : Bool → Bool → String
  ps_title wide full =
      if wide
      then "USER       PID %CPU %MEM STAT COMMAND\n"
      else if full
      then "UID          PID    PPID  C STIME TTY          TIME CMD\n"
      else "PID TTY          TIME CMD\n"

  unfoldable pub run_ps : Reader
  run_ps c args stdin =
      let o = ps_options (false, false) args in
      elim o.1 [
        | some a ↦ failed (pos 1) ("ps: unsupported option " +++ a +++ "\n")
        | none ↦
            done (ps_title o.0.0 o.0.1 +++ process_lines o.0.0 o.0.1 (processes_snapshot c.0)) []
      ]

  unfoldable pub run_top : Reader
  run_top c args stdin =
      done ("top - virtual RedLab process view\n" +++ (run_ps c ("aux" ∷ []) "").stdout) []

  -- The loop of runKill over its operands.
  unfoldable pub kill_all :
      Env → String → List String → Machine → List String → Context × CommandResult
  kill_all env signal operands m [] = ((m, env), done "" operands)
  kill_all env signal operands m (a ∷ args) =
      let pid = atoi a in
      let o = signal_process m pid.0 signal env.user in
      if not pid.1
      then ((m, env), failed (pos 2) ("kill: invalid pid " +++ a +++ "\n"))
      else elim o.1 [
        | some e ↦ ((o.0, env), fails library (pos 1) "kill: " e)
        | none ↦ kill_all env signal operands o.0 args
      ]

  unfoldable pub kill_operands : Context → String → List String → Context × CommandResult
  kill_operands c signal [] = (c, failed (pos 2) "kill: usage: kill [-SIGNAL] PID\n")
  kill_operands c signal (a ∷ args) = kill_all c.1 signal (a ∷ args) c.0 (a ∷ args)

  unfoldable pub run_kill : Handler
  run_kill c args stdin = kill_operands c (signal_named "TERM" args) (without is_option args)

  -- The loop of runKillAll over the snapshot, and whether a process has matched.
  unfoldable pub kill_named : Env → String → Bool → Machine → List Process → Context × CommandResult
  kill_named env wanted matched m [] = (
    (m, env),
    if matched
        then done "" (wanted ∷ [])
        else failed (pos 1) ("killall: " +++ wanted +++ ": no process found\n"),
  )
  kill_named env wanted matched m (p ∷ processes) =
      let o = signal_process m (pos p.pid) "TERM" env.user in
      let other = kill_named env wanted matched m processes in
      let signalled : Context × CommandResult = elim o.1 [
        | some e ↦ ((o.0, env), fails library (pos 1) "killall: " e)
        | none ↦ kill_named env wanted true o.0 processes
      ] in
      if is_named wanted p then signalled else other

  unfoldable pub run_killall : Handler
  run_killall c (wanted ∷ []) stdin = kill_named c.1 wanted false c.0 (processes_snapshot c.0)
  run_killall c args stdin = (c, failed (pos 2) "killall: usage: killall NAME\n")
