-- ===== src/Scenario/Validate/Accepts.antt =====
-- What holds of a scenario for which ValidateScenario has no diagnostics.
use red_lab.Prelude.{
  String, Bool, true, false, not, ◌&&◌, ◌||◌, List, [], ◌∷◌, ◌++◌, ◌==◌, map, ◌≡◌, refl, sym, ap,
  ◌∙◌, arith, All, if◌then◌else◌,
}
use red_lab.Prelude.GoMap.{GoMap, get, put, get_or, get_or-put}
use red_lab.Prelude.Int.{pos, eqb_ℤ}
use red_lab.Scenario.{Scenario, ScenarioSpec, ServiceSpec, ObjectiveSpec, RuleSpec, RubricSpec}
use red_lab.Scenario.Validate.{
  Diagnostic, report_if, check_names, note_names, check_objectives, check_rules, validate_spec,
  validate_scenario, user_names, objective_ids, guardrail_ids, undeclared_user, bad_version,
  bad_kind, missing_id, bad_major, missing_hostname, missing_initial_user,
}

append_empty : {A : Type 0} (xs ys : List A) → xs ++ ys ≡ [] → (xs ≡ []) × (ys ≡ [])
append_empty [] ys h = (refl, h)
append_empty (x ∷ xs) ys h = elim (never h) [ ]
  where
    never : x ∷ xs ++ ys ≡ [] → ⊥
    never e = cc

report_if-none : (b : Bool) (d : Diagnostic) → report_if b d ≡ [] → b ≡ false
report_if-none true d h = elim (never h) [ ]
  where
    never : d ∷ [] ≡ [] → ⊥
    never e = cc
report_if-none false d h = refl

-- The names are there, and none of them is in the map or among those before it.
AreNew : GoMap Bool → List String → Type 0
AreNew seen [] = Unit
AreNew seen (name ∷ names) =
    ((name == "" || get_or seen name false) ≡ false) × AreNew (put seen name true) names

check_names-AreNew :
    (d : Diagnostic) (seen : GoMap Bool) (names : List String)
    → check_names d seen names ≡ []
    → AreNew seen names
unfolding check_names AreNew
check_names-AreNew d seen [] h = tt
check_names-AreNew d seen (name ∷ names) h =
    let both = append_empty (report_if (name == "" || get_or seen name false) d) _ h in
    (report_if-none _ d both.0, check_names-AreNew d (put seen name true) names both.1)

check_objectives-AreNew :
    (ids : GoMap Bool) (objectives : List ObjectiveSpec)
    → check_objectives ids objectives ≡ []
    → AreNew ids (map (λ (o : ObjectiveSpec). o.id) objectives)
unfolding check_objectives AreNew
check_objectives-AreNew ids [] h = tt
check_objectives-AreNew ids (o ∷ objectives) h =
    let both = append_empty (report_if (o.id == "" || get_or ids o.id false) _) _ h in
    let more = append_empty _ _ both.1 in
    let rest = append_empty _ _ more.1 in
    (report_if-none _ _ both.0, check_objectives-AreNew (put ids o.id true) objectives rest.1)

check_rules-AreNew :
    (ids : GoMap Bool) (rules : List RuleSpec)
    → check_rules ids rules ≡ []
    → AreNew ids (map (λ (r : RuleSpec). r.id) rules)
unfolding check_rules AreNew
check_rules-AreNew ids [] h = tt
check_rules-AreNew ids (r ∷ rules) h =
    let both = append_empty (report_if (r.id == "" || get_or ids r.id false) _) _ h in
    let more = append_empty _ _ both.1 in
    let rest = append_empty _ _ more.1 in
    (report_if-none _ _ both.0, check_rules-AreNew (put ids r.id true) rules rest.1)

AreNew-append :
    (seen : GoMap Bool) (xs ys : List String)
    → AreNew seen xs
    → AreNew (note_names seen xs) ys
    → AreNew seen (xs ++ ys)
unfolding AreNew note_names
AreNew-append seen [] ys h k = k
AreNew-append seen (x ∷ xs) ys (one, h) k = (one, AreNew-append (put seen x true) xs ys h k)

-- The names are there and different.
abbrev pub AreDistinct : List String → Type 0
AreDistinct [] = Unit
AreDistinct (name ∷ names) =
    ((name == "") ≡ false) × All (λ other. (name == other) ≡ false) names × AreDistinct names

put_unseen :
    (seen : GoMap Bool) (name other : String)
    → get_or (put seen name true) other false ≡ false
    → ((name == other) ≡ false) × (get_or seen other false ≡ false)
put_unseen seen name other h =
    parts (name == other) (sym (get_or-put seen name other true false) ∙ h)
  where
    parts :
        (b : Bool)
        → (if b then true else get_or seen other false) ≡ false
        → (b ≡ false) × (get_or seen other false ≡ false)
    parts true e = elim (never e) [ ]
      where
        never : true ≡ false → ⊥
        never k = cc
    parts false e = (refl, e)

not_seen :
    (seen : GoMap Bool) (names : List String)
    → AreNew seen names
    → All (λ name. get_or seen name false ≡ false) names
unfolding AreNew
not_seen seen [] h = tt
not_seen seen (name ∷ names) (one, h) =
    (ground (arith, one), weaken names (not_seen (put seen name true) names h))
  where
    weaken :
        (rest : List String)
        → All (λ n. get_or (put seen name true) n false ≡ false) rest
        → All (λ n. get_or seen n false ≡ false) rest
    weaken [] every = tt
    weaken (n ∷ rest) (first, every) = ((put_unseen seen name n first).1, weaken rest every)

AreNew-AreDistinct :
    (seen : GoMap Bool) (names : List String) → AreNew seen names → AreDistinct names
unfolding AreNew
AreNew-AreDistinct seen [] h = tt
AreNew-AreDistinct seen (name ∷ names) (one, h) = (
  ground (arith, one),
  apart names (not_seen (put seen name true) names h),
  AreNew-AreDistinct (put seen name true) names h,
)
  where
    apart :
        (rest : List String)
        → All (λ n. get_or (put seen name true) n false ≡ false) rest
        → All (λ n. (name == n) ≡ false) rest
    apart [] every = tt
    apart (n ∷ rest) (first, every) = ((put_unseen seen name n first).0, apart rest every)

-- The name is one of the names.
unfoldable pub is_listed : String → List String → Bool
is_listed name [] = false
is_listed name (first ∷ names) = first == name || is_listed name names

get_or-note_names :
    (seen : GoMap Bool) (names : List String) (name : String)
    → get_or (note_names seen names) name false ≡ (get_or seen name false || is_listed name names)
unfolding note_names is_listed
get_or-note_names seen [] name = or_false (get_or seen name false)
  where
    or_false : (b : Bool) → b ≡ (b || false)
    or_false b = ground arith
get_or-note_names seen (first ∷ names) name =
    get_or-note_names (put seen first true) names name
    ∙ ap (λ b. b || is_listed name names) (get_or-put seen first name true false)
    ∙ pick (first == name) (get_or seen name false) (is_listed name names)
  where
    pick : (b c d : Bool) → ((if b then true else c) || d) ≡ (c || (b || d))
    pick b c d = ground arith

-- The names of users, services and rubrics are there and different, so are the ids of objectives,
-- guardrails and rules taken together, and the initial user is one of the users.
pub record IsNamed (spec : ScenarioSpec) : Type 0 where
  pub users : AreDistinct (user_names spec)
  pub initial : is_listed spec.actors.initial_user (user_names spec) ≡ true
  pub services : AreDistinct (map (λ (s : ServiceSpec). s.name) spec.services)
  pub ids :
      AreDistinct
        ((objective_ids spec ++ guardrail_ids spec) ++ map (λ (r : RuleSpec). r.id) spec.rules)
  pub rubrics : AreDistinct (map (λ (r : RubricSpec). r.id) spec.judge_rubrics)

note_names-append :
    (seen : GoMap Bool) (xs ys : List String)
    → note_names seen (xs ++ ys) ≡ note_names (note_names seen xs) ys
unfolding note_names
note_names-append seen [] ys = refl
note_names-append seen (x ∷ xs) ys = note_names-append (put seen x true) xs ys

validate_spec-IsNamed :
    (spec : ScenarioSpec)
    → (spec.actors.initial_user == "") ≡ false
    → validate_spec spec ≡ []
    → IsNamed spec
unfolding validate_spec get
validate_spec-IsNamed spec given h =
    let users = append_empty _ _ h in
    let initial = append_empty _ _ users.1 in
    let services = append_empty _ _ initial.1 in
    let objectives = append_empty _ _ services.1 in
    let commands = append_empty _ _ objectives.1 in
    let solutions = append_empty _ _ commands.1 in
    let guardrails = append_empty _ _ solutions.1 in
    let rubrics = append_empty _ _ guardrails.1 in
    let responses = append_empty _ _ rubrics.1 in
    let rules = append_empty _ _ responses.1 in
    let ids_new =
      AreNew-append [] (objective_ids spec) (guardrail_ids spec)
        (check_objectives-AreNew [] spec.objectives objectives.0)
        (check_names-AreNew _ _ (guardrail_ids spec) guardrails.0) in
    record {
      users = AreNew-AreDistinct [] _ (check_names-AreNew _ [] _ users.0);
      initial = declared (report_if-none _ undeclared_user initial.0);
      services = AreNew-AreDistinct [] _ (check_names-AreNew _ [] _ services.0);
      ids = AreNew-AreDistinct [] _ (
          AreNew-append [] (objective_ids spec ++ guardrail_ids spec) _ ids_new
            (rw note_names-append (check_rules-AreNew _ spec.rules rules.0)));
      rubrics = AreNew-AreDistinct [] _ (check_names-AreNew _ [] _ rubrics.0);
    }
  where
    declared :
        (not (spec.actors.initial_user == "")
            && not (get_or (note_names [] (user_names spec)) spec.actors.initial_user false))
          ≡ false
        → is_listed spec.actors.initial_user (user_names spec) ≡ true
    declared e =
        sym (get_or-note_names [] (user_names spec) spec.actors.initial_user)
        ∙ last (spec.actors.initial_user == "") _ given e
      where
        last : (a b : Bool) → a ≡ false → (not a && not b) ≡ false → b ≡ true
        last a b h k = ground arith

-- A scenario without diagnostics has names that are there and different: those of its users, of its
-- services and of its rubrics, and the ids of its objectives, guardrails and rules taken together; and
-- its initial user is one of its users.
pub validate_scenario-IsNamed : (s : Scenario) → validate_scenario s ≡ [] → IsNamed s.spec
unfolding validate_scenario
validate_scenario-IsNamed s h =
    let version = append_empty (report_if (not (s.api_version == "redlab/v1")) bad_version) _ h in
    let kind = append_empty (report_if (not (s.kind == "Scenario")) bad_kind) _ version.1 in
    let id = append_empty (report_if (s.metadata.id == "") missing_id) _ kind.1 in
    let major = append_empty (report_if (not (eqb_ℤ s.spec.rhel.major (pos 8))) bad_major) _ id.1 in
    let hostname =
      append_empty (report_if (s.spec.rhel.hostname == "") missing_hostname) _ major.1 in
    let initial =
      append_empty (report_if (s.spec.actors.initial_user == "") missing_initial_user) _
        hostname.1 in
    validate_spec-IsNamed s.spec (report_if-none _ missing_initial_user initial.0) initial.1
