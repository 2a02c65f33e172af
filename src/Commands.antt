-- ===== src/Commands.antt =====
-- internal/command/command.go: the commands that participants run. A handler gets the virtual machine
-- with the environment of the line, the arguments and the input.
pub mod Text
pub mod Files
pub mod Changes
pub mod Shell
pub mod Identity
pub mod Services
pub mod Network
pub mod Processes
pub mod Registry
mod Examples
use Prim.Native.String.{◌++◌ as ◌+++◌}
use red_lab.Prelude.{ℕ, String, Bool, Option, none, some, List, [], ◌∷◌, if◌then◌else◌}
use red_lab.Prelude.GoMap.{GoMap}
use red_lab.Prelude.Int.{ℤ, pos}
use red_lab.GoLib.Time.{Time}
use red_lab.System.{Machine, Error, Result, ok, err}
use red_lab.System.Files.{Outcome}
use red_lab.System.Net.{Url}
use red_lab.Runtime.{Env, CommandResult, failed, done}

-- What the commands use of other packages: the texts of the machine's errors, path.Match without its
-- error, url.Parse, the layouts of package time, strings.ToLower and ToUpper, fmt.Sprintf at a format
-- that the user gives, and `%4.1f` at a number of bytes in mebibytes.
pub record Library : Type 0 where
  pub error_text : Error → String
  pub matches : String → String → Bool
  pub parse_url : String → Option Url
  pub format_time : Time → String → String
  pub to_lower : String → String
  pub to_upper : String → String
  pub sprintf : String → List String → String
  pub mebibytes : ℕ → String

abbrev pub Context : Type 0
Context = Machine × Env

-- `Handler`
abbrev pub Handler : Type 0
Handler = Context → List String → String → Context × CommandResult

-- A handler that changes nothing.
abbrev pub Reader : Type 0
Reader = Context → List String → String → CommandResult

abbrev pub reads : Reader → Handler
reads r c args stdin = (c, r c args stdin)

-- `Result{ExitCode: code, Stderr: prefix + err.Error() + "\n"}`
abbrev pub fails : Library → ℤ → String → Error → CommandResult
fails library code prefix e = failed code (prefix +++ library.error_text e +++ "\n")

-- The environment's variables replaced, and the machine's, which are the same map as long as it is
-- shared.
abbrev pub with_variables : Context → GoMap String → Context
with_variables (m, e) variables =
    (record m { env = if e.shared then variables else m.env }, record e { variables = variables })

-- `for _, name := range names { if err := operation(name); err != nil { return … } }`: the machine,
-- and the first error.
unfoldable pub for_names : (Machine → String → Outcome) → Machine → List String → Outcome
for_names operation m [] = (m, none)
for_names operation m (name ∷ names) =
    let o = operation m name in
    elim o.1 [ some e ↦ (o.0, some e) | none ↦ for_names operation o.0 names ]

-- What a handler returns behind a method of the machine.
abbrev pub answer : Library → Env → Outcome → ℤ → String → CommandResult → Context × CommandResult
answer library env o code prefix result = elim o.1 [
  | some e ↦ ((o.0, env), fails library code prefix e)
  | none ↦ ((o.0, env), result)
]
