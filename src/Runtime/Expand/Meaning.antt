-- ===== src/Runtime/Expand/Meaning.antt =====
-- What `expand` makes of a word, by rules on what the word begins with.
use Prim.Native.String.{◌++◌ as ◌+++◌}
use mathlib.Core.Path.{subst}
use text.Mathlib.TextEquality.{Char-path}
use text.Mathlib.TextLemmas.{cons-append, nil-append}
use red_lab.Prelude.{
  ℕ, zero, suc, ◌≤◌, Char, code, String, true, false, ◌≡◌, ◌≢◌, sym, ap, ◌∙◌, ◌⊎◌, inl, inr, ◌↔◌,
  eqb, eqb_iff, Option, none, some, ◌==◌, eq_iff, arith, Bool-cases,
}
use red_lab.Prelude.GoMap.{GoMap, get_or}
use red_lab.GoLib.Strings.{size, has_prefix}
use red_lab.GoLib.Strings.Laws.{Lacks}
use red_lab.Runtime.Expand.{
  is_name, take_name, split_brace, named, after_dollar, next, expand_from, expand,
}
use red_lab.Runtime.Expand.Rounds.{size-next}

-- A letter of ASCII, a digit or `_`.
abbrev pub IsNameCode : ℕ → Type 0
IsNameCode k =
    ((b'A' ≤ k) × (k ≤ b'Z')) ⊎ ((b'a' ≤ k) × (k ≤ b'z')) ⊎ ((b'0' ≤ k) × (k ≤ b'9')) ⊎ (k ≡ b'_')

abbrev pub IsVariable : String → Type 0
IsVariable String.[] = Unit
IsVariable (String.◌∷◌ c s) = IsNameCode (code c) × IsVariable s

-- No name begins the text.
abbrev pub BeginsNoName : String → Type 0
BeginsNoName String.[] = Unit
BeginsNoName (String.◌∷◌ c s) = ¬ IsNameCode (code c)

-- If a brace begins the text, no brace closes it.
abbrev pub BeginsNoBrace : String → Type 0
BeginsNoBrace String.[] = Unit
BeginsNoBrace (String.◌∷◌ c s) = code c ≡ b'{' → Lacks b'}' s

-- A text and what it is expanded to, by finitely many of these rules.
pub data Expands (variables : GoMap String) : String → String → Type 0 where
  ends : Expands variables "" ""
  -- A character that is no `$` stays.
  plain :
      (c : Char) (s t : String)
      → code c ≢ b'$'
      → Expands variables s t
      → Expands variables (String.◌∷◌ c s) (String.◌∷◌ c t)
  -- `${name}` gives the variable's value, or nothing where there is none.
  braced :
      (name s t : String)
      → Lacks b'}' name
      → Expands variables s t
      → Expands variables
          (String.◌∷◌ "$" (String.◌∷◌ "{" (name +++ String.◌∷◌ "}" s)))
          (get_or variables name "" +++ t)
  -- So does `$name` with the longest name.
  bare :
      (name s t : String)
      → name ≢ ""
      → IsVariable name
      → BeginsNoName s
      → Expands variables s t
      → Expands variables (String.◌∷◌ "$" (name +++ s)) (get_or variables name "" +++ t)
  -- Any other `$` stays.
  lone :
      (s t : String)
      → BeginsNoName s
      → BeginsNoBrace s
      → Expands variables s t
      → Expands variables (String.◌∷◌ "$" s) (String.◌∷◌ "$" t)

is_name_iff : (k : ℕ) → is_name k ≡ true ↔ IsNameCode k
is_name_iff k = ground arith

-- A text in two parts: the longest name, and what follows.
record IsTaken (s : String) (r : String × String) : Type 0 where
  whole : s ≡ r.0 +++ r.1
  name : IsVariable r.0
  longest : BeginsNoName r.1

take_name-IsTaken : (s : String) → IsTaken s (take_name s)
unfolding take_name
take_name-IsTaken String.[] = record { whole = sym (nil-append ""); name = tt; longest = tt }
take_name-IsTaken (String.◌∷◌ c s) = elim (Bool-cases (is_name (code c))) [
  | inl e ↦
      let rest = take_name-IsTaken s in
      rw e (record {
        whole = ap (λ t. String.◌∷◌ c t) rest.whole ∙ sym (cons-append c _ _);
        name = ((is_name_iff _).0 e, rest.name);
        longest = rest.longest;
      })
  | inr e ↦ rw e (record {
    whole = sym (nil-append _);
    name = tt;
    longest = λ h. (let k : is_name (code c) ≡ true = (is_name_iff _).1 h in cc);
  })
]

-- A text in front of the first closing brace, and what follows it.
abbrev IsSplit : String → Option (String × String) → Type 0
IsSplit s none = Lacks b'}' s
IsSplit s (some r) = (s ≡ r.0 +++ String.◌∷◌ "}" r.1) × Lacks b'}' r.0

split_brace-IsSplit : (s : String) → IsSplit s (split_brace s)
unfolding split_brace
split_brace-IsSplit String.[] = tt
split_brace-IsSplit (String.◌∷◌ c s) = elim (Bool-cases (eqb (code c) b'}')) [
  | inl e ↦
      rw e (ap (λ d. String.◌∷◌ d s) (Char-path c "}" ((eqb_iff _ _).0 e)) ∙ sym (nil-append _), tt)
  | inr e ↦ rw e (pick e (split_brace s) (split_brace-IsSplit s))
]
  where
    pick :
        eqb (code c) b'}' ≡ false
        → (o : Option (String × String)) → IsSplit s o
        → IsSplit (String.◌∷◌ c s) (elim o [ none ↦ none | some r ↦ some (String.◌∷◌ c r.0, r.1) ])
    pick e none h = (e, h)
    pick e (some r) h = (ap (λ t. String.◌∷◌ c t) h.0 ∙ sym (cons-append c _ _), (e, h.1))

module _ (variables : GoMap String) where
  -- With the text that a round writes, and what the rest is expanded to, the word is expanded.
  abbrev Continues : String → String × String → Type 0
  Continues word r = (t : String) → Expands variables r.1 t → Expands variables word (r.0 +++ t)

  lone-Continues :
      (s : String) → BeginsNoName s → BeginsNoBrace s → Continues (String.◌∷◌ "$" s) ("$", s)
  lone-Continues s n b t h = rw (cons-append "$" "" t, nil-append t) (lone s t n b h)

  named-Continues :
      (c : Char) (s : String)
      → code c ≢ b'{'
      → Continues (String.◌∷◌ "$" (String.◌∷◌ c s)) (named variables (String.◌∷◌ c s))
  named-Continues c s other = elim (Bool-cases (r.0 == "")) [
    | inl e ↦ rw e (lone-Continues word (empty ((eq_iff _ _).0 e)) (λ h. absurd (other h)))
    | inr e ↦ rw e (λ t h.
        subst (λ w. Expands variables (String.◌∷◌ "$" w) (get_or variables r.0 "" +++ t))
          (sym taken.whole)
          (bare r.0 r.1 t (λ k. unequal (sym e ∙ (eq_iff _ _).1 k)) taken.name taken.longest h))
  ]
    where
      word : String
      word = String.◌∷◌ c s

      r : String × String
      r = take_name word

      taken : IsTaken word r
      taken = take_name-IsTaken word

      empty : r.0 ≡ "" → BeginsNoName word
      empty e =
          subst BeginsNoName (sym (taken.whole ∙ ap (λ p. p +++ r.1) e ∙ nil-append r.1))
            taken.longest

      unequal : false ≡ true → ⊥
      unequal h = cc

  after_dollar-Continues : (s : String) → Continues (String.◌∷◌ "$" s) (after_dollar variables s)
  unfolding after_dollar
  after_dollar-Continues String.[] = lone-Continues "" tt tt
  after_dollar-Continues (String.◌∷◌ c s) = elim (Bool-cases (eqb (code c) b'{')) [
    | inr e ↦ rw e (named-Continues c s (λ h. unequal (sym e ∙ (eqb_iff _ _).1 h)))
    | inl e ↦ rw e (braces ((eqb_iff _ _).0 e) (split_brace s) (split_brace-IsSplit s))
  ]
    where
      unequal : false ≡ true → ⊥
      unequal h = cc

      braces :
          code c ≡ b'{'
          → (o : Option (String × String)) → IsSplit s o
          → Continues (String.◌∷◌ "$" (String.◌∷◌ c s)) (elim o as (λ _. String × String) [
            | none ↦ ("$", String.◌∷◌ c s)
            | some r ↦ (get_or variables r.0 "", r.1)
          ])
      braces k none h = lone-Continues (String.◌∷◌ c s) (λ n. omega (arith, k, n)) (λ b. h)
      braces k (some r) h = λ t x.
          subst (λ w. Expands variables (String.◌∷◌ "$" w) (get_or variables r.0 "" +++ t))
            (sym (ap (λ d. String.◌∷◌ d s) (Char-path c "{" k) ∙ ap (λ w. String.◌∷◌ "{" w) h.0))
            (braced r.0 r.1 t h.1 x)

  next-Continues : (c : Char) (s : String) → Continues (String.◌∷◌ c s) (next variables c s)
  unfolding next
  next-Continues c s = elim (Bool-cases (eqb (code c) b'$')) [
    | inl e ↦ rw e (
        subst (λ d. Continues (String.◌∷◌ d s) (after_dollar variables s))
          (sym (Char-path c "$" ((eqb_iff _ _).0 e))) (after_dollar-Continues s))
    | inr e ↦ rw e (λ t h.
        rw (cons-append c "" t, nil-append t)
          (plain c s t (λ k. unequal (sym e ∙ (eqb_iff _ _).1 k)) h))
  ]
    where
      unequal : false ≡ true → ⊥
      unequal h = cc

  expand_from-Expands :
      (rounds : ℕ) (s : String)
      → size s ≤ rounds
      → Expands variables s (expand_from rounds variables s)
  unfolding expand_from
  expand_from-Expands zero String.[] h = ends
  expand_from-Expands (suc rounds) String.[] h = ends
  expand_from-Expands zero (String.◌∷◌ c s) h = absurd (omega arith)
  expand_from-Expands (suc rounds) (String.◌∷◌ c s) h =
      next-Continues c s _
        (expand_from-Expands rounds (next variables c s).1 (omega (arith, size-next variables c s)))

  -- A word that is not `~` and does not begin with `~/` is read to its end in finitely many rounds.
  -- Each writes a character that is no `$`, the value of a variable for `${name}` or for `$` and the
  -- longest name behind it (nothing if there is no such variable), or a `$` that begins neither.
  pub expand-Expands :
      (word : String)
      → word ≢ "~"
      → has_prefix word "~/" ≡ false
      → Expands variables word (expand variables word)
  unfolding expand
  expand-Expands word n k = elim (Bool-cases (word == "~")) [
    | inl e ↦ absurd (n ((eq_iff _ _).0 e))
    | inr e ↦ rw (e, k) (expand_from-Expands (size word) word (omega arith))
  ]
