-- ===== src/Commands/Text/Distinct.antt =====
-- What `uniq` leaves of its input, and what `sort` and `uniq` leave together.
use mathlib.Core.Path.{subst}
use red_lab.Prelude.{
  eqb, String, true, false, ◌≡◌, refl, sym, ap, ◌∙◌, Option, none, some, List, [], ◌∷◌, ◌==◌,
  eq_iff, eq_refl, All, if◌then◌else◌, arith, Bool-cases, inl, inr,
}
use red_lab.GoLib.Strings.{join}
use red_lab.GoLib.Lines.{split_lines, trim_suffix}
use red_lab.GoLib.Lines.Laws.{
  IsLine, split_lines-IsLine, split_lines-join, trim_suffix-append, split_lines-cons,
  newline_present,
}
use red_lab.GoLib.Sort.{text_before, insert, sort}
use red_lab.GoLib.Sort.Order.{
  IsOrdered, count, sort-IsOrdered, count-sort, All-count, All-sort, insert-cons,
  not_before_antisym,
}
use red_lab.Runtime.{done}
use red_lab.Commands.{Context}
use red_lab.Commands.Text.{input_lines, output_lines, collapse, run_sort, run_uniq}

-- No two neighbours are the same, nor is the first the same as the text before.
abbrev AreDistinct : Option String → List String → Type 0
AreDistinct last [] = Unit
AreDistinct none (w ∷ ws) = AreDistinct (some w) ws
AreDistinct (some last) (w ∷ ws) = ((last == w) ≡ false) × AreDistinct (some w) ws

collapse-AreDistinct :
    (last : Option String) (ws : List String) → AreDistinct last (collapse last ws)
unfolding collapse
collapse-AreDistinct none [] = tt
collapse-AreDistinct (some last) [] = tt
collapse-AreDistinct none (w ∷ ws) = collapse-AreDistinct (some w) ws
collapse-AreDistinct (some last) (w ∷ ws) = elim (Bool-cases (last == w)) [
  | inl e ↦ rw e (collapse-AreDistinct (some last) ws)
  | inr e ↦ rw e (e, collapse-AreDistinct (some w) ws)
]

-- Such lines stay as they are.
collapse_same :
    (last : Option String) (ws : List String) → AreDistinct last ws → collapse last ws ≡ ws
unfolding collapse
collapse_same none [] h = refl
collapse_same (some last) [] h = refl
collapse_same none (w ∷ ws) h = ap (λ l. w ∷ l) (collapse_same (some w) ws h)
collapse_same (some last) (w ∷ ws) h = rw h.0 (ap (λ l. w ∷ l) (collapse_same (some w) ws h.1))

collapse-All :
    (P : String → Type 0) (last : Option String) (ws : List String)
    → All P ws
    → All P (collapse last ws)
unfolding collapse
collapse-All P none [] h = tt
collapse-All P (some last) [] h = tt
collapse-All P none (w ∷ ws) h = (h.0, collapse-All P (some w) ws h.1)
collapse-All P (some last) (w ∷ ws) h = elim (Bool-cases (last == w)) [
  | inl e ↦ rw e (collapse-All P (some last) ws h.1)
  | inr e ↦ rw e (h.0, collapse-All P (some w) ws h.1)
]

-- Of ordered lines, which are not before the text that stands before them, each is left once.
count-collapse :
    (x last : String) (ws : List String)
    → All (λ v. text_before v last ≡ false) ws
    → IsOrdered ws
    → count x (collapse (some last) ws)
      ≡ (if last == x then 0 else if eqb (count x ws) 0 then 0 else 1)
unfolding collapse
count-collapse x last [] behind ordered = ground arith
count-collapse x last (w ∷ ws) behind ordered = elim (Bool-cases (last == w)) [
  | inl e ↦ rw e (
      ground (
        arith,
        eq_iff last w,
        eq_iff last x,
        eq_iff w x,
        count-collapse x last ws behind.1 ordered.1,
      ))
  | inr e ↦ rw e (
      ground (
        arith,
        eq_iff last w,
        eq_iff last x,
        eq_iff w x,
        gone e,
        count-collapse x w ws ordered.0 ordered.1,
      ))
]
  where
    gone : (last == w) ≡ false → last ≡ x → count x ws ≡ 0
    gone e same = elim (All-count (λ v. text_before v w ≡ false) x ws ordered.0) [
      | inl k ↦ k
      | inr k ↦ absurd (clash (rw (not_before_antisym last w (rw same k) behind.0, eq_refl) at e))
    ]
      where
        clash : true ≡ false → ⊥
        clash h = cc

collapse-IsOrdered :
    (last : Option String) (ws : List String) → IsOrdered ws → IsOrdered (collapse last ws)
unfolding collapse
collapse-IsOrdered none [] h = tt
collapse-IsOrdered (some last) [] h = tt
collapse-IsOrdered none (w ∷ ws) h =
    (collapse-All _ (some w) ws h.0, collapse-IsOrdered (some w) ws h.1)
collapse-IsOrdered (some last) (w ∷ ws) h = elim (Bool-cases (last == w)) [
  | inl e ↦ rw e (collapse-IsOrdered (some last) ws h.1)
  | inr e ↦ rw e (
    collapse-All (λ v. text_before v w ≡ false) (some w) ws h.0,
    collapse-IsOrdered (some w) ws h.1,
  )
]

count-collapse_first :
    (x : String) (ws : List String)
    → IsOrdered ws
    → count x (collapse none ws) ≡ (if eqb (count x ws) 0 then 0 else 1)
unfolding collapse
count-collapse_first x [] ordered = refl
count-collapse_first x (w ∷ ws) ordered = ground (arith, count-collapse x w ws ordered.0 ordered.1)

input-output :
    (w : String) (ws : List String)
    → All IsLine (w ∷ ws)
    → input_lines (output_lines (w ∷ ws)) ≡ w ∷ ws
input-output w ws h =
    ap split_lines (trim_suffix-append (join "\n" (w ∷ ws))) ∙ split_lines-join w ws h

input_lines-IsLine : (stdin : String) → All IsLine (input_lines stdin)
input_lines-IsLine stdin = split_lines-IsLine (trim_suffix stdin "\n")

-- What `uniq` answers to lines that were put out.
run_uniq-output :
    (c : Context) (w : String) (ws : List String)
    → All IsLine (w ∷ ws)
    → run_uniq c [] (output_lines (w ∷ ws)) ≡ done (output_lines (collapse none (w ∷ ws))) []
unfolding run_uniq
run_uniq-output c w ws h =
    rw (newline_present (join "\n" (w ∷ ws)))
      (ap (λ l. done (output_lines (collapse none l)) []) (input-output w ws h))

run_uniq_lines :
    (c : Context) (stdin : String)
    → (stdin == "") ≡ false
    → run_uniq c [] stdin ≡ done (output_lines (collapse none (input_lines stdin))) []
unfolding run_uniq
run_uniq_lines c stdin present = rw present refl

run_sort_lines :
    (c : Context) (stdin : String)
    → (stdin == "") ≡ false
    → run_sort c [] stdin ≡ done (output_lines (sort (input_lines stdin))) []
unfolding run_sort
run_sort_lines c stdin present = rw present refl

-- Of a text that is not empty `uniq` puts out lines no two neighbours of which are the same, and
-- changes nothing in them when it is run again.
run_uniq-run_uniq :
    (c : Context) (stdin : String)
    → (stdin == "") ≡ false
    → AreDistinct none (input_lines (run_uniq c [] stdin).stdout)
      × (run_uniq c [] (run_uniq c [] stdin).stdout ≡ run_uniq c [] stdin)
unfolding collapse
run_uniq-run_uniq c stdin present = (
  subst (λ o. AreDistinct none (input_lines o.stdout)) (sym first)
      (subst (AreDistinct none) (sym (input-output w cs lines)) (collapse-AreDistinct (some w) ws)),
  ap (λ o. run_uniq c [] o.stdout) first
      ∙ (run_uniq-output c w cs lines ∙ ap (λ l. done (output_lines (w ∷ l)) []) same)
      ∙ sym first,
)
  where
    parted : (w : String) × (ws : List String) × (input_lines stdin ≡ w ∷ ws)
    parted = split_lines-cons (trim_suffix stdin "\n")

    w : String
    w = parted.0

    ws : List String
    ws = parted.1

    cs : List String
    cs = collapse (some w) ws

    lines : All IsLine (w ∷ cs)
    lines =
        collapse-All IsLine none (w ∷ ws) (subst (All IsLine) parted.2 (input_lines-IsLine stdin))

    first : run_uniq c [] stdin ≡ done (output_lines (w ∷ cs)) []
    first =
        run_uniq_lines c stdin present ∙ ap (λ l. done (output_lines (collapse none l)) []) parted.2

    same : collapse (some w) cs ≡ cs
    same = collapse_same (some w) cs (collapse-AreDistinct (some w) ws)

-- What `uniq` answers to what `sort` has put out.
uniq_sort :
    (c : Context) (stdin : String)
    → (stdin == "") ≡ false
    → input_lines (run_uniq c [] (run_sort c [] stdin).stdout).stdout
      ≡ collapse none (sort (input_lines stdin))
unfolding sort collapse
uniq_sort c stdin present =
    ap (λ o. input_lines (run_uniq c [] o.stdout).stdout)
      (run_sort_lines c stdin present ∙ ap (λ l. done (output_lines l) []) joined)
    ∙ ap (λ o. input_lines o.stdout) (run_uniq-output c w ws lines)
    ∙ input-output w (collapse (some w) ws) (collapse-All IsLine none (w ∷ ws) lines)
    ∙ ap (collapse none) (sym joined)
  where
    parted : (v : String) × (vs : List String) × (input_lines stdin ≡ v ∷ vs)
    parted = split_lines-cons (trim_suffix stdin "\n")

    first : (w : String) × (ws : List String) × (insert parted.0 (sort parted.1) ≡ w ∷ ws)
    first = insert-cons parted.0 (sort parted.1)

    w : String
    w = first.0

    ws : List String
    ws = first.1

    joined : sort (input_lines stdin) ≡ w ∷ ws
    joined = ap sort parted.2 ∙ first.2

    lines : All IsLine (w ∷ ws)
    lines =
        subst (All IsLine) joined (All-sort IsLine (input_lines stdin) (input_lines-IsLine stdin))

-- Of a text that is not empty, `sort` and then `uniq` put out each line once, and in order: a line is
-- put out once if it is a line of the text, and never else.
pub run_uniq-run_sort :
    (c : Context) (stdin x : String)
    → (stdin == "") ≡ false
    → let lines = input_lines (run_uniq c [] (run_sort c [] stdin).stdout).stdout in
      IsOrdered lines × (count x lines ≡ (if eqb (count x (input_lines stdin)) 0 then 0 else 1))
run_uniq-run_sort c stdin x present = rw (uniq_sort c stdin present) (
  collapse-IsOrdered none _ (sort-IsOrdered (input_lines stdin)),
  count-collapse_first x _ (sort-IsOrdered (input_lines stdin))
      ∙ ap (λ n. if eqb n 0 then 0 else 1) (count-sort x (input_lines stdin)),
)
