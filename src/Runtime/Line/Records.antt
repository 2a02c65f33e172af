-- ===== src/Runtime/Line/Records.antt =====
-- What `RunLine` leaves in the evidence chain and in the transcript.
use Prim.Native.String.{◌++◌ as ◌+++◌}
use text.Mathlib.TextLemmas.{cons-append, nil-append}
use red_lab.Prelude.{
  ℕ, zero, suc, ◌+◌, ◌-◌, ◌≤◌, ◌^◌, ltb, String, Bool, true, false, not, ◌&&◌, ◌≡◌, ◌≢◌, refl, ap,
  ◌∙◌, Option, List, [], ◌∷◌, ◌==◌, eq_iff, arith, inl, inr, Bool-cases, if◌then◌else◌,
}
use red_lab.Prelude.Int.{pos, eqb_ℤ}
use red_lab.GoLib.Strings.{size, trim_space, take, has_suffix}
use red_lab.Shell as Shell
use red_lab.Shell.{Statement, Command}
use red_lab.Shell.Parse.{parse}
use red_lab.Evidence.{Digest, Event}
use red_lab.Evidence.Chain.{append}
use red_lab.Evidence.Append.{IsWhole, append-IsWhole}
use red_lab.System.Net.{Url}
use red_lab.Runtime.{Session, Env, CommandResult, failed}
use red_lab.Runtime.Line.{
  max_transcript_bytes, truncated, fit, add_transcript, record_result, command_event, Runner,
  Progress, run_one, run_statements, run_parsed, run_trimmed, run_line, is_and, is_or,
}

size-append : (s t : String) → size (s +++ t) ≡ size s + size t
size-append String.[] t = rw nil-append (ground arith)
size-append (String.◌∷◌ c s) t = rw cons-append (ground (arith, size-append s t))

size-take : (n : ℕ) (s : String) → size (take n s) ≤ n
unfolding take
size-take zero s = ground arith
size-take (suc n) String.[] = ground arith
size-take (suc n) (String.◌∷◌ c s) = ground (arith, size-take n s)

size-fit : (room : ℕ) (entry : String) → size (fit room entry) ≤ room + 34
unfolding fit
size-fit room entry = elim (Bool-cases (ltb room (size entry))) [
  | inl e ↦
      rw e (closed (has_suffix (take room entry) "\n") (take room entry) (size-take room entry))
  | inr e ↦ rw e (ground arith)
]
  where
    closed :
        (b : Bool) (cut : String)
        → size cut ≤ room
        → size ((if b then cut else cut +++ "\n") +++ truncated) ≤ room + 34
    closed true cut h = ground (arith, size-append cut truncated)
    closed false cut h = ground (arith, size-append (cut +++ "\n") truncated, size-append cut "\n")

-- A transcript that is at most 34 characters longer than its limit stays so behind any record: they
-- are a line break and the message that the record is cut.
pub add_transcript-bound :
    (transcript entry : String)
    → size transcript ≤ 2 ^ 20 + 34
    → size (add_transcript transcript entry) ≤ 2 ^ 20 + 34
unfolding add_transcript
add_transcript-bound transcript entry h =
    elim (Bool-cases (ltb (size transcript) max_transcript_bytes)) [
      | inl e ↦ rw e (longer (ground arith))
      | inr e ↦ rw e h
    ]
  where
    room : ℕ
    room = max_transcript_bytes - size transcript

    longer :
        size transcript ≤ max_transcript_bytes → size (transcript +++ fit room entry) ≤ 2 ^ 20 + 34
    longer h = omega (arith, size-append transcript (fit room entry), size-fit room entry)

module _ (digest : Digest) (parse_url : String → Option Url) (parse_error : Shell.Error → String)
    (run : Runner) where
  -- The pipelines leave the chain alone: no command writes it.
  abbrev pub KeepsChain : Type 0
  KeepsChain =
      (se : Session × Env) (commands : List Command) → (run se commands).0.0.chain ≡ se.0.chain

  run_statements-chain :
      KeepsChain
      → (input : String) (p : Progress) (statements : List Statement)
      → (run_statements run input p statements).session.chain ≡ p.session.chain
  unfolding run_statements run_one
  run_statements-chain k input p [] = refl
  run_statements-chain k input p (s ∷ statements) =
      let q : Progress = run_one run input p s.pipeline in
      let one : q.session.chain ≡ p.session.chain = k (p.session, p.env) s.pipeline in
      let skipped = run_statements-chain k input p statements in
      let continued = run_statements-chain k input q statements ∙ one in
      pick (is_and s.previous && not (eqb_ℤ p.last (pos 0))) p _ _ skipped (
        pick (is_or s.previous && eqb_ℤ p.last (pos 0)) p _ _ skipped
          (pick (not (eqb_ℤ q.last (pos 0))) p _ _ one continued))
    where
      pick :
          (b : Bool) (p x y : Progress)
          → x.session.chain ≡ p.session.chain
          → y.session.chain ≡ p.session.chain
          → (if b then x else y).session.chain ≡ p.session.chain
      pick true p x y h k = h
      pick false p x y h k = k

  -- One event is behind the chain of the session: it holds the line and the code that came back.
  pub record IsRecorded (s : Session) (input : String) (r : Session × CommandResult) : Type 0 where
    pub event : Event
    pub appended : r.0.chain ≡ (append digest s.chain event).0
    pub is_command : event.kind ≡ "command"
    pub has_line : event.command ≡ input
    pub has_code : event.exit_code ≡ r.1.exit_code

  recorded :
      (s t : Session) (input : String) (result : CommandResult)
      → t.chain ≡ s.chain
      → IsRecorded s input (record_result digest t input result)
  unfolding record_result
  recorded s t input result same =
      let e : Event = command_event t input result in
      record {
        event = e;
        appended = ap (λ c. (append digest c e).0) same;
        is_command = unfold command_event in refl;
        has_line = unfold command_event in refl;
        has_code = unfold command_event in refl;
      }

  run_parsed-IsRecorded :
      KeepsChain
      → (s : Session) (input : String) (statements : List Statement)
      → IsRecorded s input (run_parsed digest parse_url parse_error run s input statements)
  unfolding run_parsed
  run_parsed-IsRecorded k s input statements =
      recorded s _ input _ (run_statements-chain k input _ statements)

  -- Where the pipelines leave the chain alone, a line that is not blank appends one event, which
  -- holds the line and the exit code that comes back, whichever way it ends: the line does not
  -- parse, it is too long, a statement fails, or all succeed.
  pub run_line-IsRecorded :
      KeepsChain
      → (s : Session) (line : String) → trim_space line ≢ ""
      → IsRecorded s (trim_space line) (run_line digest parse_url parse_error run s line)
  unfolding run_line run_trimmed
  run_line-IsRecorded k s line h =
      unblank (trim_space line == "") _ _ (λ e. h ((eq_iff (trim_space line) "").0 e))
        (either_way (ltb (2 ^ 14) (size (trim_space line))) _ _ (recorded s s _ _ refl)
          (parsed (parse (trim_space line))))
    where
      input : String
      input = trim_space line

      unblank :
          (b : Bool) (x y : Session × CommandResult)
          → b ≢ true
          → IsRecorded s input y
          → IsRecorded s input (if b then x else y)
      unblank true x y h k = absurd (h refl)
      unblank false x y h k = k

      either_way :
          (b : Bool) (x y : Session × CommandResult)
          → IsRecorded s input x
          → IsRecorded s input y
          → IsRecorded s input (if b then x else y)
      either_way true x y h k = h
      either_way false x y h k = k

      parsed :
          (r : Shell.Result (List Statement))
          → IsRecorded s input (elim r as (λ _. Session × CommandResult) [
            | Shell.err e ↦ record_result digest s input (failed (pos 2) (parse_error e +++ "\n"))
            | Shell.ok statements ↦ run_parsed digest parse_url parse_error run s input statements
          ])
      parsed (Shell.err e) = recorded s s _ _ refl
      parsed (Shell.ok statements) = run_parsed-IsRecorded k s input statements

  -- Where the pipelines leave the chain alone, a session whose chain is whole (each event sealed
  -- behind the one before it, and the head the last hash) has a whole chain behind any line.
  pub run_line-IsWhole :
      KeepsChain
      → (s : Session) (line : String) → IsWhole digest s.chain
      → IsWhole digest (run_line digest parse_url parse_error run s line).0.chain
  run_line-IsWhole k s line w = elim (Bool-cases (trim_space line == "")) [
    | inl e ↦ unfold run_line in unfold run_trimmed in rw e w
    | inr e ↦
        let r =
          run_line-IsRecorded k s line
            (λ h. absurd (clash e ((eq_iff (trim_space line) "").1 h))) in
        rw r.appended (append-IsWhole digest s.chain r.event w)
  ]
    where
      clash : (trim_space line == "") ≡ false → (trim_space line == "") ≡ true → ⊥
      clash h k = cc
