-- ===== src/Commands/Text.antt =====
-- The commands of internal/command/command.go on texts: wc, sort, uniq, cut, cat, head, tail, grep.
pub mod Distinct
use Prim.Native.String.{◌++◌ as ◌+++◌}
use red_lab.Prelude.{
  ℕ, zero, suc, ◌+◌, ◌-◌, length, String, Bool, false, ◌||◌, Option, none, some, List, [], ◌∷◌,
  ◌==◌, get_elem?, if◌then◌else◌,
}
use red_lab.Prelude.Int.{ℤ, pos, negsuc}
use red_lab.GoLib.Strings.{byte_size, contains, has_prefix, has_suffix, join, trim_prefix}
use red_lab.GoLib.Lines.{
  newline, split_lines, split_after, split_on, count_char, count_fields, trim_suffix, trim_flag,
}
use red_lab.GoLib.Path.{last_or, but_last}
use red_lab.GoLib.Fmt.{atoi}
use red_lab.GoLib.Sort.{sort}
use red_lab.GoLib.Strconv.{itoa}
use red_lab.System.{ok, err}
use red_lab.System.Files.{read_file}
use red_lab.Runtime.{CommandResult, failed, done}
use red_lab.Commands.{Library, Context, Reader, fails}

-- strings.Split(strings.TrimSuffix(stdin, "\n"), "\n")
abbrev pub input_lines : String → List String
input_lines stdin = split_lines (trim_suffix stdin "\n")

-- `strings.Join(lines, "\n") + "\n"`
abbrev pub output_lines : List String → String
output_lines lines = join "\n" lines +++ "\n"

-- splitLines: the lines with their ends.
unfoldable pub full_lines : String → List String
full_lines text =
    if text == ""
    then []
    else if last_or "" (split_after text) == ""
    then but_last (split_after text)
    else split_after text

unfoldable pub count_lines : String → ℕ
count_lines text =
    if text == "" then 0 else count_char newline text + (if has_suffix text "\n" then 0 else 1)

unfoldable pub count_text : String → String → CommandResult
count_text text name =
    done
      (itoa (pos (count_lines text))
        +++ " "
        +++ itoa (pos (count_fields false text))
        +++ " "
        +++ itoa (pos (byte_size text))
        +++ " "
        +++ name
        +++ "\n")
      []

unfoldable pub run_sort : Reader
run_sort c [] stdin =
    if stdin == "" then done "" [] else done (output_lines (sort (input_lines stdin))) []
run_sort c (a ∷ args) stdin =
    failed (pos 1) "sort: file operands are not supported; use redirection\n"

-- The loop of runUniq; `last` is the last line of the output, if there is one.
unfoldable pub collapse : Option String → List String → List String
collapse last [] = []
collapse none (line ∷ lines) = line ∷ collapse (some line) lines
collapse (some last) (line ∷ lines) =
    let rest = collapse (some line) lines in
    let skipped = collapse (some last) lines in if last == line then skipped else line ∷ rest

unfoldable pub run_uniq : Reader
run_uniq c [] stdin =
    if stdin == "" then done "" [] else done (output_lines (collapse none (input_lines stdin))) []
run_uniq c (a ∷ args) stdin =
    failed (pos 1) "uniq: file operands are not supported; use redirection\n"

-- The loop of runCut over its arguments: the delimiter and the field.
unfoldable pub cut_options : String × ℤ → List String → String × ℤ
cut_options o [] = o
cut_options o (a ∷ []) =
    if has_prefix a "-d"
    then (trim_prefix a "-d", o.1)
    else if has_prefix a "-f"
    then (o.0, (atoi (trim_prefix a "-f")).0)
    else o
cut_options o (a ∷ b ∷ args) =
    let spaced = cut_options (if a == "-d" then (b, o.1) else (o.0, (atoi b).0)) args in
    let one =
      cut_options
        (if has_prefix a "-d"
          then (trim_prefix a "-d", o.1)
          else if has_prefix a "-f"
          then (o.0, (atoi (trim_prefix a "-f")).0)
          else o)
        (b ∷ args) in
    if a == "-d" || a == "-f" then spaced else one

abbrev pub field_of : String → ℕ → String → String
field_of delimiter field line = elim (get_elem? (split_on delimiter line) (field - 1)) [
  | none ↦ ""
  | some part ↦ part
]

unfoldable pub cut_lines : String → ℕ → List String → String
cut_lines delimiter field [] = ""
cut_lines delimiter field (line ∷ lines) =
    field_of delimiter field line +++ "\n" +++ cut_lines delimiter field lines

unfoldable pub cut_field : String → ℤ → String → CommandResult
cut_field delimiter (pos zero) stdin = failed (pos 2) "cut: invalid delimiter or field\n"
cut_field delimiter (negsuc n) stdin = failed (pos 2) "cut: invalid delimiter or field\n"
cut_field delimiter (pos (suc n)) stdin =
    if delimiter == ""
    then failed (pos 2) "cut: invalid delimiter or field\n"
    else done (cut_lines delimiter (suc n) (input_lines stdin)) []

unfoldable pub run_cut : Reader
run_cut c args stdin = let o = cut_options ("\t", pos 1) args in cut_field o.0 o.1 stdin

-- `lines[:count]`, and `lines[len(lines)-count:]`, for a count that is cut to the number of lines.
unfoldable pub take : ℕ → List String → List String
take zero lines = []
take (suc n) [] = []
take (suc n) (line ∷ lines) = line ∷ take n lines

unfoldable pub drop : ℕ → List String → List String
drop zero lines = lines
drop (suc n) [] = []
drop (suc n) (line ∷ lines) = drop n lines

unfoldable pub pick_lines : Bool → ℕ → String → String
pick_lines head count text =
    let lines = full_lines text in
    join "" (if head then take count lines else drop (length lines - count) lines)

-- The loop of runLines over its arguments: the count and the name.
abbrev pub positive_or : ℤ → ℕ → ℕ
positive_or (pos zero) count = count
positive_or (pos (suc n)) count = suc n
positive_or (negsuc n) count = count

unfoldable pub line_options : ℕ × String → List String → ℕ × String
line_options o [] = o
line_options o (a ∷ args) =
    line_options
      (if has_prefix a "-" then (positive_or (atoi (trim_flag a)).0 o.0, o.1) else (o.0, a)) args

-- The lines of a text that hold a pattern.
unfoldable pub matching_lines : String → List String → String
matching_lines wanted [] = ""
matching_lines wanted (line ∷ lines) =
    (if contains line wanted then line else "") +++ matching_lines wanted lines

abbrev pub found : String → CommandResult
found text = if text == "" then failed (pos 1) "" else done text []

module _ (library : Library) where
  unfoldable pub run_wc : Reader
  run_wc c args stdin =
      let name = last_or "-" args in
      if name == "-" then count_text stdin "-" else elim (read_file c.0 name c.1.user) [
        | err e ↦ fails library (pos 1) "wc: " e
        | ok text ↦ count_text text name
      ]

  -- The loop of runCat.
  unfoldable pub cat_files : Context → String → List String → CommandResult
  cat_files c out [] = done out []
  cat_files c out (name ∷ names) = elim (read_file c.0 name c.1.user) [
    | err e ↦ fails library (pos 1) "cat: " e
    | ok content ↦ cat_files c (out +++ content) names
  ]

  unfoldable pub run_cat : Reader
  run_cat c [] stdin = done stdin []
  run_cat c (name ∷ names) stdin = cat_files c "" (name ∷ names)

  -- runHead and runTail
  unfoldable pub run_lines : Bool → Reader
  run_lines head c args stdin =
      let o = line_options (10, "") args in
      if o.1 == "" then done (pick_lines head o.0 stdin) [] else elim (read_file c.0 o.1 c.1.user) [
        | err e ↦ fails library (pos 1) "" e
        | ok text ↦ done (pick_lines head o.0 text) []
      ]

  -- The loop of runGrep over the names.
  unfoldable pub grep_files : Context → String → String → List String → CommandResult
  grep_files c wanted out [] = found out
  grep_files c wanted out (name ∷ names) = elim (read_file c.0 name c.1.user) [
    | err e ↦ fails library (pos 2) "" e
    | ok text ↦ grep_files c wanted (out +++ matching_lines wanted (full_lines text)) names
  ]

  unfoldable pub run_grep : Reader
  run_grep c [] stdin = failed (pos 2) "grep: missing pattern\n"
  run_grep c (wanted ∷ []) stdin = found (matching_lines wanted (full_lines stdin))
  run_grep c (wanted ∷ name ∷ names) stdin = grep_files c wanted "" (name ∷ names)
