-- ===== src/Shell.antt =====
-- The command-line syntax of the virtual shell: internal/shell/parser.go. `Lex` turns the characters
-- of a line into words and operators, `Parse` groups them into statements, pipelines and commands.
pub mod Lex
pub mod Parse
pub mod Ensures
pub mod WellFormed
pub mod Quoting
pub mod Words
mod Examples
use red_lab.Prelude.{String, ℕ, List}

pub data Operator : Type 0 where
  op_none op_sequence op_and op_or : Operator

pub record Redirection : Type 0 where
  pub fd : ℕ
  pub operator : String
  pub target : String

pub record Command : Type 0 where
  pub words : List String
  pub redirections : List Redirection

-- A `Pipeline` is its commands.
pub record Statement : Type 0 where
  pub previous : Operator
  pub pipeline : List Command

-- What `Parse` and `lex` return as an error.
pub data Error : Type 0 where
  empty_command empty_pipeline trailing_escape unterminated_quote : Error
  missing_target : String → Error

pub data Result {ℓ} (A : Type ℓ) : Type ℓ where
  ok : (value : A) → Result A
  err : (error : Error) → Result A

-- Goes on with the value of a call, or returns its error: `if err != nil { return nil, err }`.
infixl 5 ◌>>=◌
abbrev pub ◌>>=◌ {ℓ κ} : {A : Type ℓ} {B : Type κ} → Result A → (A → Result B) → Result B
ok value >>= next = next value
err error >>= next = err error
