-- ===== src/Commands/Shell.antt =====
-- The commands of internal/command/command.go that belong to the shell: pwd, bash, sh, alias, help,
-- man, clear, exit, cd, echo, printf, date, which, env, export, unset, true, false, uname, history and
-- free. `catalog` stands for the table of internal/catalog/catalog.go.
use Prim.Native.String.{◌++◌ as ◌+++◌}
use red_lab.Prelude.{
  ℕ, ◌+◌, ◌/◌, String, Bool, true, false, not, ◌||◌, Option, none, some, List, [], ◌∷◌, ◌==◌,
  if◌then◌else◌,
}
use red_lab.Prelude.GoMap.{GoMap, get_or, put, remove, keys}
use red_lab.Prelude.Int.{ℤ, pos, sub_ℕ}
use red_lab.GoLib.Strings.{has_prefix, join, replace_all, trim_prefix}
use red_lab.GoLib.Lines.{cut_at}
use red_lab.GoLib.Fmt.{pad_left, pad_right}
use red_lab.GoLib.Sort.{text_before, sort, sort_by}
use red_lab.GoLib.Strconv.{itoa}
use red_lab.GoLib.Time.{Time, second}
use red_lab.System.{Machine}
use red_lab.System.Files.{set_cwd}
use red_lab.Runtime.{Env, CommandResult, failed, done}
use red_lab.Commands.{Library, Context, Handler, Reader, fails, with_variables}

-- `Entry` of internal/catalog/catalog.go, but for its options
pub record Entry : Type 0 where
  pub name : String
  pub pack : String
  pub level : String
  pub summary : String
  pub implemented : Bool

-- `catalog.Lookup`
unfoldable pub find_entry : List Entry → String → Option Entry
find_entry [] name = none
find_entry (e ∷ entries) name =
    let rest = find_entry entries name in if e.name == name then some e else rest

unfoldable pub run_pwd : Reader
run_pwd c args stdin = done (c.1.cwd +++ "\n") []

unfoldable pub run_shell_info : Reader
run_shell_info c [] stdin = done "RedLab bounded shell (RHEL 8 compatibility)\n" []
run_shell_info c (a ∷ []) stdin =
    if a == "--version" || a == "-V"
    then done "RedLab bounded shell (RHEL 8 compatibility)\n" []
    else failed (pos 2) "shell: interactive host execution is unavailable\n"
run_shell_info c (a ∷ b ∷ args) stdin =
    failed (pos 2) "shell: interactive host execution is unavailable\n"

unfoldable pub run_alias : Reader
run_alias c [] stdin = done "alias: no aliases configured\n" []
run_alias c (a ∷ args) stdin =
    failed (pos 1) "alias: no aliases are configured in the bounded shell\n"

-- `fmt.Sprintf("%-18s [%s/%s] %s\n", …)`
abbrev pub help_line : Entry → String
help_line e =
    pad_right 18 e.name +++ " [" +++ e.pack +++ "/" +++ e.level +++ "] " +++ e.summary +++ "\n"

unfoldable pub help_lines : List Entry → String
help_lines [] = ""
help_lines (e ∷ entries) = help_line e +++ help_lines entries

abbrev pub name_before : Entry → Entry → Bool
name_before a b = text_before a.name b.name

-- What `cd` has done to the environment once the machine's directory is set.
abbrev pub moved : Context → String → Bool → Context × CommandResult
moved (m, env) old print_target =
    let e : Env = record env { cwd = m.cwd } in
    let c = with_variables (m, e) (put (put e.variables "OLDPWD" old) "PWD" m.cwd) in
    (c, done (if print_target then m.cwd +++ "\n" else "") [])

-- The loop of `export`.
unfoldable pub export_all : Context → List String → Context × CommandResult
export_all c [] = (c, done "" [])
export_all c (item ∷ items) = elim (cut_at b'=' item) [
  | none ↦ (c, failed (pos 1) "export: invalid assignment\n")
  | some (key, value) ↦ export_all (with_variables c (put c.1.variables key value)) items
]

unfoldable pub run_export : Handler
run_export c args stdin = export_all c args

unfoldable pub unset_all : Context → List String → Context
unset_all c [] = c
unset_all c (key ∷ names) = unset_all (with_variables c (remove c.1.variables key)) names

unfoldable pub run_unset : Handler
run_unset c args stdin = (unset_all c args, done "" [])

unfoldable pub env_lines : GoMap String → List String → String
env_lines variables [] = ""
env_lines variables (k ∷ names) =
    k +++ "=" +++ get_or variables k "" +++ "\n" +++ env_lines variables names

unfoldable pub run_env : Reader
run_env c args stdin = done (env_lines c.1.variables (sort (keys c.1.variables))) []

unfoldable pub history_lines : ℕ → List String → String
history_lines i [] = ""
history_lines i (line ∷ lines) =
    pad_left " " 5 (itoa (pos (i + 1))) +++ "  " +++ line +++ "\n" +++ history_lines (i + 1) lines

unfoldable pub run_history : Reader
run_history c args stdin = done (history_lines 0 c.1.history) []

unfoldable pub run_echo : Reader
run_echo c args stdin = done (join " " args +++ "\n") []

abbrev pub architecture_of : Machine → String
architecture_of m = if m.architecture == "" then "x86_64" else m.architecture

unfoldable pub run_uname : Reader
run_uname c [] stdin = done "Linux\n" []
run_uname c (a ∷ args) stdin =
    let machine = architecture_of c.0 in
    if a == "-r" || a == "--kernel-release"
    then done ("4.18.0-553.el8_10." +++ machine +++ "\n") []
    else if a == "-m" || a == "--machine"
    then done (machine +++ "\n") []
    else if a == "-n" || a == "--nodename"
    then done (c.0.hostname +++ "\n") []
    else if a == "-a" || a == "--all"
    then done
        ("Linux " +++ c.0.hostname +++ " 4.18.0-553.el8_10." +++ machine +++ " #1 SMP " +++ machine
          +++ " " +++ machine +++ " " +++ machine +++ " GNU/Linux\n")
        []
    else failed (pos 1) ("uname: unsupported option '" +++ a +++ "'\n")

unfoldable pub run_free : Reader
run_free c args stdin =
    let mebi : Bool = elim args [ [] ↦ false | a ∷ rest ↦ a == "-m" || a == "--mebi" ] in
    let title : String =
      "               total        used        free      shared  buff/cache   available\n" in
    if mebi
    then done
        (title
          +++ "Mem:            2048         320        1536          16         192        1728\nSwap:           1024           0        1024\n")
        []
    else done
        (title
          +++ "Mem:         2097152      327680     1572864       16384      196608     1769472\nSwap:        1048576           0     1048576\n")
        []

-- t.Unix()
abbrev pub unix : Time → ℤ
unix t = sub_ℕ (t / second) 62135596800

-- The layout that `date` makes of a format behind its `+`.
unfoldable pub date_layout : String → String
date_layout format =
    let years = replace_all format "%Y" "2006" in
    let months = replace_all years "%m" "01" in
    let days = replace_all months "%d" "02" in
    let hours = replace_all days "%H" "15" in
    let minutes = replace_all hours "%M" "04" in
    let seconds = replace_all minutes "%S" "05" in replace_all seconds "%F" "2006-01-02"

module _ (catalog : List Entry) where
  unfoldable pub run_help : Reader
  run_help c [] stdin =
      done
        ("RedLab commands (virtual, deterministic, host-isolated):\n"
          +++ help_lines (sort_by name_before catalog))
        []
  run_help c (a ∷ []) stdin = elim (find_entry catalog a) [
    | none ↦ failed (pos 1) ("help: " +++ a +++ ": command not found\n")
    | some e ↦ done (help_line e) []
  ]
  run_help c (a ∷ b ∷ args) stdin = failed (pos 2) "help: accepts at most one command\n"

  unfoldable pub run_man : Reader
  run_man c (a ∷ []) stdin = elim (find_entry catalog a) [
    | none ↦ failed (pos 1) ("man: no entry for " +++ a +++ "\n")
    | some e ↦
        done
          ("NAME\n    "
            +++ e.name
            +++ " - "
            +++ e.summary
            +++ "\n\nCOMPATIBILITY\n    pack: "
            +++ e.pack
            +++ "\n    level: "
            +++ e.level
            +++ "\n    status: "
            +++ (if e.implemented then "emulated" else "recognized")
            +++ "\n")
          []
  ]
  run_man c args stdin = failed (pos 2) "man: exactly one command is required\n"

  -- The loop of runWhich.
  unfoldable pub which_all : String → List String → CommandResult
  which_all out [] = done out []
  which_all out (name ∷ names) = elim (find_entry catalog name) [
    | none ↦ failed (pos 1) (name +++ ": not found\n")
    | some e ↦ which_all (out +++ "/usr/bin/" +++ name +++ "\n") names
  ]

  unfoldable pub run_which : Reader
  run_which c [] stdin = failed (pos 2) "which: missing command\n"
  run_which c (a ∷ args) stdin = which_all "" (a ∷ args)

module _ (library : Library) where
  unfoldable pub change_directory : Context → String → Bool → Context × CommandResult
  change_directory c target print_target =
      let o = set_cwd c.0 target in
      elim o.1 [
        | some e ↦ ((o.0, c.1), fails library (pos 1) "" e)
        | none ↦ moved (o.0, c.1) c.1.cwd print_target
      ]

  unfoldable pub run_cd : Handler
  run_cd c args stdin =
      let target : String = elim args [ [] ↦ get_or c.1.variables "HOME" "" | a ∷ rest ↦ a ] in
      let old = get_or c.1.variables "OLDPWD" "" in
      if not (target == "-")
      then change_directory c target false
      else if old == ""
      then (c, failed (pos 1) "cd: OLDPWD not set\n")
      else change_directory c old true

  unfoldable pub run_printf : Reader
  run_printf c [] stdin = done "" []
  run_printf c (format ∷ values) stdin = done (library.sprintf format values) []

  unfoldable pub run_date : Reader
  run_date c [] stdin = done (library.format_time c.0.clock "Mon Jan 2 15:04:05 MST 2006\n") []
  run_date c (a ∷ args) stdin =
      if a == "+%s"
      then done (itoa (unix c.0.clock) +++ "\n") []
      else if has_prefix a "+"
      then done (library.format_time c.0.clock (date_layout (trim_prefix a "+")) +++ "\n") []
      else failed (pos 1) "date: unsupported format\n"

  unfoldable pub run_uptime : Reader
  run_uptime c args stdin =
      done
        (" "
          +++ library.format_time c.0.clock "15:04:05"
          +++ " up 1 day,  0:00,  1 user,  load average: 0.00, 0.01, 0.05\n")
        []
