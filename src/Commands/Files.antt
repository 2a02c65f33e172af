-- ===== src/Commands/Files.antt =====
-- What the commands of internal/command/command.go on files read of their arguments and write of the
-- files, with the commands test, basename, dirname and df.
use Prim.Native.String.{◌++◌ as ◌+++◌}
use red_lab.Prelude.{
  ℕ, ◌+◌, ◌-◌, ◌*◌, ◌/◌, String, Bool, true, false, not, ◌&&◌, ◌||◌, List, [], ◌∷◌, ◌==◌,
  if◌then◌else◌,
}
use red_lab.Prelude.Int.{pos}
use red_lab.GoLib.Strings.{byte_size, contains, has_prefix, trim_prefix}
use red_lab.GoLib.Lines.{count_char, repeat, trim_suffix}
use red_lab.GoLib.Path.{base, dir, last_or, split}
use red_lab.GoLib.Fmt.{octal_text, pad_left}
use red_lab.GoLib.Strconv.{itoa}
use red_lab.System.{File, ok, err}
use red_lab.System.Files.{stat}
use red_lab.System.Tree.{virtual_usage}
use red_lab.Runtime.{CommandResult, failed, done}
use red_lab.Commands.{Context, Reader}

-- pathBase
unfoldable pub path_base : String → String
path_base name = if name == "/" then "/" else last_or "" (split name)

abbrev pub number : ℕ → String
number n = itoa (pos n)

abbrev pub passes : Bool → CommandResult
passes b = if b then done "" [] else failed (pos 1) ""

-- `test` with two arguments
unfoldable pub test_file : Context → String → String → CommandResult
test_file c flag name =
    if not (flag == "-e") && not (flag == "-f") && not (flag == "-d")
    then failed (pos 2) "test: unsupported expression\n"
    else elim (stat c.0 name) [
      | err e ↦ failed (pos 1) ""
      | ok file ↦
          passes ((flag == "-d" && file.directory) || (not (flag == "-d") && not file.directory))
    ]

unfoldable pub run_test : Reader
run_test c [] stdin = failed (pos 2) "test: missing argument\n"
run_test c (flag ∷ name ∷ []) stdin = test_file c flag name
run_test c (a ∷ args) stdin = failed (pos 2) "test: unsupported expression\n"

-- The loop of runLS over its arguments.
pub record Listing : Type 0 where
  pub target : String
  pub long : Bool
  pub all : Bool

unfoldable pub ls_options : Listing → List String → Listing
ls_options o [] = o
ls_options o (a ∷ args) =
    ls_options
      (if has_prefix a "-"
        then record o { long = o.long || contains a "l"; all = o.all || contains a "a" }
        else record o { target = a })
      args

-- formatMode, with `%03o`
abbrev pub format_mode : File → String
format_mode f = (if f.directory then "d" else "-") +++ pad_left "0" 3 (octal_text f.mode)

abbrev pub long_line : File → String
long_line f =
    (if f.directory then "d" else "-")
    +++ format_mode f
    +++ " "
    +++ f.owner
    +++ " "
    +++ f.group
    +++ " "
    +++ number (byte_size f.content)
    +++ " "
    +++ path_base f.path
    +++ "\n"

-- The loop of runLS over the files.
unfoldable pub listing : Bool → Bool → List File → String
listing long all [] = ""
listing long all (f ∷ files) =
    (if not all && has_prefix (path_base f.path) "."
      then ""
      else if long
      then long_line f
      else path_base f.path +++ "\n")
    +++ listing long all files

-- The arguments that are not among the flags.
unfoldable pub without : (String → Bool) → List String → List String
without is_flag [] = []
without is_flag (a ∷ args) = let rest = without is_flag args in if is_flag a then rest else a ∷ rest

unfoldable pub any_of : (String → Bool) → List String → Bool
any_of is_flag [] = false
any_of is_flag (a ∷ args) = is_flag a || any_of is_flag args

abbrev pub is_parents : String → Bool
is_parents a = a == "-p" || a == "--parents"

abbrev pub is_force : String → Bool
is_force a = a == "-f" || a == "--force"

-- `-rf` and `-fr` are of both kinds. `--recursive` holds no `f`.
abbrev pub is_recursive : String → Bool
is_recursive a = a == "-r" || a == "-R" || a == "--recursive" || a == "-rf" || a == "-fr"

abbrev pub forces : String → Bool
forces a = is_force a || (is_recursive a && contains a "f")

-- The loop of runFind over its arguments: the root, the name and the kind, or the text of what is
-- missing.
pub record Search : Type 0 where
  pub root : String
  pub name : String
  pub kind : String

pub data FindOptions : Type 0 where
  search_for : Search → FindOptions
  missing : String → FindOptions

unfoldable pub find_options : Search → List String → FindOptions
find_options s [] = search_for s
find_options s (a ∷ []) =
    if a == "-name"
    then missing "find: -name needs a pattern\n"
    else if a == "-type"
    then missing "find: -type needs a value\n"
    else if has_prefix a "-"
    then search_for s
    else search_for (record s { root = a })
find_options s (a ∷ b ∷ args) =
    let named = find_options (record s { name = b }) args in
    let typed = find_options (record s { kind = b }) args in
    let rest = find_options (if has_prefix a "-" then s else record s { root = a }) (b ∷ args) in
    if a == "-name" then named else if a == "-type" then typed else rest

-- The loop of runTree over the files: the lines, the directories and the other files.
unfoldable pub tree_lines : String → List File → String × ℕ × ℕ
tree_lines resolved [] = ("", 0, 0)
tree_lines resolved (f ∷ files) =
    let rest = tree_lines resolved files in
    let relative = trim_prefix f.path (trim_suffix resolved "/" +++ "/") in
    let line = repeat "    " (count_char b'/' relative) +++ "|-- " +++ base f.path +++ "\n" in
    if f.path == resolved
    then rest
    else if f.directory
    then (line +++ rest.0, 1 + rest.1, rest.2)
    else (line +++ rest.0, rest.1, 1 + rest.2)

unfoldable pub content_size : List File → ℕ
content_size [] = 0
content_size (f ∷ files) = byte_size f.content + content_size files

-- `(bytes + 1023) / 1024`
abbrev pub blocks : ℕ → ℕ
blocks bytes = (bytes + 1023) / 1024

-- The loop of runDU over its arguments: the target, and whether sizes get a unit.
unfoldable pub du_options : String × Bool → List String → String × Bool
du_options o [] = o
du_options o (a ∷ args) =
    du_options
      (if a == "-h" || a == "-sh" || a == "-hs"
        then (o.0, true)
        else if has_prefix a "-"
        then o
        else (a, o.1))
      args

unfoldable pub run_basename : Reader
run_basename c (name ∷ []) stdin = done (base name +++ "\n") []
run_basename c args stdin = failed (pos 1) "basename: missing operand\n"

unfoldable pub run_dirname : Reader
run_dirname c (name ∷ []) stdin = done (dir name +++ "\n") []
run_dirname c args stdin = failed (pos 1) "dirname: missing operand\n"

unfoldable pub run_df : Reader
run_df c args stdin =
    let used = (virtual_usage c.0.files).0 in
    done
      ("Filesystem     1024-blocks  Used Available Capacity Mounted on\nvirtual              1024 "
        +++ number (blocks used)
        +++ " "
        +++ number (1024 - blocks used)
        +++ " "
        +++ number (used * 100 / 1048576)
        +++ "% /\n")
      []
