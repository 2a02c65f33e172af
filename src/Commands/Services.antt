-- ===== src/Commands/Services.antt =====
-- The commands of internal/command/command.go on services: systemctl, journalctl and logger.
use Prim.Native.String.{◌++◌ as ◌+++◌}
use red_lab.Prelude.{
  String, Bool, true, false, ◌||◌, none, some, List, [], ◌∷◌, ◌==◌, if◌then◌else◌,
}
use red_lab.Prelude.GoMap.{get}
use red_lab.Prelude.Int.{pos}
use red_lab.GoLib.Strings.{contains, has_prefix, join, trim_prefix}
use red_lab.System.{Service, JournalEntry, Machine}
use red_lab.System.Files.{Outcome}
use red_lab.System.Services.{
  append_journal, journal_entries, start_service, stop_service, enable_service,
}
use red_lab.Runtime.{Env, CommandResult, failed, done}
use red_lab.Commands.{Library, Context, Handler, Reader, fails}

-- `if !strings.Contains(name, ".") { name += ".service" }`
abbrev pub unit_name : String → String
unit_name name = if contains name "." then name else name +++ ".service"

abbrev pub enabled_text : Bool → String
enabled_text enabled = if enabled then "enabled" else "disabled"

abbrev pub status_text : String → Service → String
status_text name s =
    "● "
    +++ name
    +++ " - "
    +++ name
    +++ "\n   Loaded: loaded; "
    +++ enabled_text s.enabled
    +++ "; vendor preset: disabled\n   Active: "
    +++ s.state
    +++ "\n"

unfoldable pub restart_service : Machine → String → String → Outcome
restart_service m name user =
    let o = stop_service m name user in
    elim o.1 [ some e ↦ (o.0, some e) | none ↦ start_service o.0 name user ]

-- The verbs that change a service, or nothing.
unfoldable pub change_service : String → Machine → String → String → Outcome
change_service verb m name user =
    if verb == "start"
    then start_service m name user
    else if verb == "restart"
    then restart_service m name user
    else if verb == "stop"
    then stop_service m name user
    else if verb == "enable"
    then enable_service m name user true
    else enable_service m name user false

abbrev pub is_change : String → Bool
is_change verb =
    verb == "start" || verb == "restart" || verb == "stop" || verb == "enable" || verb == "disable"

-- The unit that `journalctl` shows: the loop over its arguments.
unfoldable pub journal_unit : String → List String → String
journal_unit unit [] = unit
journal_unit unit (a ∷ args) =
    journal_unit
      (if has_prefix a "-u" then trim_prefix a "-u" else if has_prefix a "httpd" then a else unit)
      args

unfoldable pub run_logger : Handler
run_logger c args stdin = ((append_journal c.0 c.1.user "" "info" (join " " args), c.1), done "" [])

module _ (library : Library) where
  -- The loop of runSystemctl over the names, with the text written so far.
  unfoldable pub control :
      Env → String → List String → Machine → String → List String → Context × CommandResult
  control env verb all m out [] = ((m, env), done out all)
  control env verb all m out (n ∷ names) =
      let name = unit_name n in
      let changed = change_service verb m name env.user in
      if verb == "status"
      then elim (get m.services name) [
        | none ↦ ((m, env), failed (pos 4) ("Unit " +++ name +++ " could not be found.\n"))
        | some s ↦ control env verb all m (out +++ status_text name s) names
      ]
      else if is_change verb
      then elim changed.1 [
        | some e ↦ ((changed.0, env), fails library (pos 1) "" e)
        | none ↦ control env verb all changed.0 out names
      ]
      else ((m, env), failed (pos 1) ("systemctl: unsupported operation " +++ verb +++ "\n"))

  unfoldable pub run_systemctl : Handler
  run_systemctl c [] stdin = (c, failed (pos 1) "systemctl: missing command\n")
  run_systemctl c (verb ∷ []) stdin =
      if verb == "daemon-reload"
      then (c, done "" [])
      else (c, failed (pos 1) "systemctl: missing unit\n")
  run_systemctl c (verb ∷ name ∷ names) stdin =
      control c.1 verb (name ∷ names) c.0 "" (name ∷ names)

  unfoldable pub journal_lines : Machine → List JournalEntry → String
  journal_lines m [] = ""
  journal_lines m (j ∷ entries) =
      library.format_time j.timestamp "Jan 02 15:04:05"
      +++ " "
      +++ m.hostname
      +++ " "
      +++ j.unit
      +++ "["
      +++ j.priority
      +++ "]: "
      +++ j.message
      +++ "\n"
      +++ journal_lines m entries

  unfoldable pub run_journal : Reader
  run_journal c args stdin =
      done (journal_lines c.0 (journal_entries (journal_unit "" args) c.0.journal)) []
