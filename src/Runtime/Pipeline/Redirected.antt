-- ===== src/Runtime/Pipeline/Redirected.antt =====
-- Where the output of a command goes that is redirected into a file.
use Prim.Native.String.{◌++◌ as ◌+++◌}
use text.Mathlib.TextLemmas.{nil-append}
use red_lab.Prelude.{
  String, Bool, true, false, ◌⊎◌, ℕ, ◌≡◌, refl, sym, ap, ◌∙◌, Option, none, some, List, [], ◌∷◌,
  inl, inr, Option-cases, if◌then◌else◌,
}
use red_lab.Prelude.GoMap.{get, get-put_self}
use red_lab.Shell.{Command, Redirection}
use red_lab.System.{File, Machine, Error, Result, ok, err, permission_denied}
use red_lab.System.Paths.{normalize_path}
use red_lab.System.Files.{Outcome, with_path, write_file, create_file, overwrite_file}
use red_lab.Runtime.{Session, Env, CommandResult, Registry}
use red_lab.Runtime.Expand.{expand}
use red_lab.Runtime.Pipeline.{
  with_machine, go_on, redirect, redirect_all, take_input, run_command, run_commands, run_pipeline,
  arguments,
}

-- What a file holds, and nothing if there is none.
abbrev pub content_at : Machine → String → String
content_at m p = elim (get m.files p) [ none ↦ "" | some f ↦ f.content ]

-- The text that a file holds after a write.
abbrev pub written : Bool → String → String → String
written append_mode before text = if append_mode then before +++ text else text

-- The file at a path after a write there.
abbrev pub Holds : Machine → String → String → Type 0
Holds m p text = (f : File) × (get m.files p ≡ some f) × (f.content ≡ text)

some_not_none : (x : Error) → ◌≡◌ {A = Option Error} (some x) none → ⊥
some_not_none x h = cc

-- A test that may refuse the write.
passed :
    (P : Machine → Type 0) (b : Bool) (m n : Machine) (e : Error)
    → P n
    → ◌≡◌ {A = Option Error} (if◌then◌else◌ {A = Outcome} b (m, some e) (n, none)).1 none
    → P (if◌then◌else◌ {A = Outcome} b (m, some e) (n, none)).0
passed P true m n e k h = absurd (some_not_none e h)
passed P false m n e k h = k

create_file-Holds :
    (m : Machine) (p text user : String)
    → (create_file m p text user).1 ≡ none
    → Holds (create_file m p text user).0 p text
unfolding create_file
create_file-Holds m p text user =
    passed (λ n. Holds n p text) _ _ _ permission_denied (_, get-put_self _ _ _, refl)

overwrite_file-Holds :
    (m : Machine) (p text user : String) (existing : File) (append_mode : Bool)
    → (overwrite_file m p existing text user append_mode).1 ≡ none
    → Holds
        (overwrite_file m p existing text user append_mode).0
        p
        (written append_mode existing.content text)
unfolding overwrite_file
overwrite_file-Holds m p text user existing append_mode =
    passed (λ n. Holds n p (written append_mode existing.content text)) _ _ _ permission_denied
      (_, get-put_self _ _ _, refl)

Result-cases : {A : Type 0} (r : Result A) → ((a : A) × (r ≡ ok a)) ⊎ ((e : Error) × (r ≡ err e))
Result-cases (ok a) = inl (a, refl)
Result-cases (err e) = inr (e, refl)

written_new : (append_mode : Bool) (text : String) → written append_mode "" text ≡ text
written_new true text = nil-append text
written_new false text = refl

module _ (m : Machine) (target text user : String) (append_mode : Bool) where
  write_file-err :
      (x : Error)
      → normalize_path target m.cwd ≡ err x
      → write_file m target text user append_mode ≡ (m, some x)
  unfolding write_file with_path
  write_file-err x e = rw (e, write_file, with_path) refl

  write_file-new :
      (p : String)
      → normalize_path target m.cwd ≡ ok p
      → get m.files p ≡ none
      → write_file m target text user append_mode ≡ create_file m p text user
  unfolding write_file with_path
  write_file-new p e n = rw (e, n, write_file, with_path) refl

  write_file-there :
      (p : String) (f : File)
      → normalize_path target m.cwd ≡ ok p
      → get m.files p ≡ some f
      → write_file m target text user append_mode ≡ overwrite_file m p f text user append_mode
  unfolding write_file with_path
  write_file-there p f e n = rw (e, n, write_file, with_path) refl

  abbrev IsWritten : Outcome → Type 0
  IsWritten o =
      (p : String) × (normalize_path target m.cwd ≡ ok p)
      × Holds o.0 p (written append_mode (content_at m p) text)

  -- A write that is not refused: the path can be normalized, and the file there has the text.
  write_file-Holds :
      (write_file m target text user append_mode).1 ≡ none
      → IsWritten (write_file m target text user append_mode)
  write_file-Holds h = elim (Result-cases (normalize_path target m.cwd)) [
    | inr (x, e) ↦ absurd (some_not_none x (rw (write_file-err x e) at h))
    | inl (p, e) ↦ elim (Option-cases (get m.files p)) [
      | inl n ↦
          let q = write_file-new p e n in
          let (f, k, t) = create_file-Holds m p text user (rw q at h) in
          (p, e, (f, ap (λ o. get o.0.files p) q ∙ k, t ∙ sym (held_none p n)))
      | inr (g, n) ↦
          let q = write_file-there p g e n in
          let (f, k, t) = overwrite_file-Holds m p text user g append_mode (rw q at h) in
          (p, e, (f, ap (λ o. get o.0.files p) q ∙ k, t ∙ sym (held_some p g n)))
    ]
  ]
    where
      held_none :
          (p : String) → get m.files p ≡ none → written append_mode (content_at m p) text ≡ text
      held_none p n =
          ap
            (λ o.
              written append_mode (elim o as (λ _. String) [ none ↦ "" | some f ↦ f.content ]) text)
            n
          ∙ written_new append_mode text

      held_some :
          (p : String) (g : File)
          → get m.files p ≡ some g
          → written append_mode (content_at m p) text ≡ written append_mode g.content text
      held_some p g n =
          ap
            (λ o.
              written append_mode (elim o as (λ _. String) [ none ↦ "" | some f ↦ f.content ]) text)
            n

-- The redirection `> target`, or `>> target`.
abbrev pub into : Bool → ℕ → String → Redirection
into append_mode fd target = record {
  fd = fd;
  operator = if append_mode then ">>" else ">";
  target = target;
}

module _ (glob : Machine → String → String → List String) (error_text : Error → String) where
  take_input-into :
      (se : Session × Env) (append_mode : Bool) (fd : ℕ) (target : String)
      → take_input glob error_text se (into append_mode fd target ∷ []) "" ≡ go_on ""
  unfolding take_input
  take_input-into se true fd target = refl
  take_input-into se false fd target = refl

  redirect-into :
      (se : Session × Env) (append_mode : Bool) (fd : ℕ) (target : String) (r : CommandResult)
      → let w =
          write_file se.0.state.machine
            (expand se.1.variables target)
            r.stdout
            se.1.user
            append_mode in
        w.1 ≡ none
        → redirect_all glob error_text se (into append_mode fd target ∷ []) r
          ≡ go_on ((with_machine se.0 w.0, se.1), record r { stdout = "" })
  unfolding redirect_all redirect
  redirect-into se true fd target r h = rw (h, redirect_all, redirect) refl
  redirect-into se false fd target r h = rw (h, redirect_all, redirect) refl

  module _ (registry : Registry) (se : Session × Env) (first : String) (words : List String)
      (append_mode : Bool) (fd : ℕ) (target : String) where
    -- What the command does, before the redirection.
    abbrev pub ran : (Session × Env) × CommandResult
    ran = registry (expand se.1.variables first) se (arguments glob error_text se words) ""

    abbrev pub command : Command
    command = record { words = first ∷ words; redirections = into append_mode fd target ∷ [] }

    abbrev pub path : String
    path = expand ran.0.1.variables target

    abbrev pub write : Outcome
    write = write_file ran.0.0.state.machine path ran.1.stdout ran.0.1.user append_mode

    -- The command's standard output has gone to the file, and the rest of its result is kept.
    pub record IsRedirected (out : (Session × Env) × CommandResult) : Type 0 where
      pub result : out.1 ≡ record ran.1 { stdout = "" }
      pub file :
          (p : String) × (normalize_path path ran.0.0.state.machine.cwd ≡ ok p)
          × Holds out.0.0.state.machine p
              (written append_mode (content_at ran.0.0.state.machine p) ran.1.stdout)

    run_pipeline-write :
        write.1 ≡ none
        → run_pipeline glob error_text registry se (command ∷ [])
          ≡ ((with_machine ran.0.0 write.0, ran.0.1), record ran.1 { stdout = "" })
    unfolding run_pipeline run_commands run_command
    run_pipeline-write h =
        rw
          (
            take_input-into se append_mode fd target,
            redirect-into ran.0 append_mode fd target ran.1 h,
            run_pipeline,
            run_commands,
            run_command,
          )
          refl

    -- A pipeline of one command, whose output is redirected into a file by `>` or `>>`: if the write
    -- is not refused, the file at the path that the target names, after the command has run, holds
    -- the command's standard output, with `>>` behind what the file held after the command has run,
    -- and nothing else. Of the command's result only the standard output is gone.
    pub run_pipeline-IsRedirected :
        write.1 ≡ none → IsRedirected (run_pipeline glob error_text registry se (command ∷ []))
    run_pipeline-IsRedirected h = rw (run_pipeline-write h) (record {
      result = refl;
      file = write_file-Holds ran.0.0.state.machine path ran.1.stdout ran.0.1.user append_mode h;
    })
