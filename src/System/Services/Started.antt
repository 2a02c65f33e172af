-- ===== src/System/Services/Started.antt =====
-- What StartService has done where it returns no error.
use Prim.Native.String.{◌++◌ as ◌+++◌}
use text.Mathlib.TextLemmas.{append_cancel_left}
use red_lab.Prelude.{
  ℕ, suc, ◌+◌, String, true, false, ◌&&◌, ◌≡◌, ◌≢◌, refl, sym, ap, ◌∙◌, inl, inr, Bool-cases,
  Option-cases, Option, none, some, List, [], ◌∷◌, ◌==◌, eq_iff, eq_refl, arith, if◌then◌else◌, All,
  holds-if,
}
use red_lab.Prelude.GoMap.{GoMap, get, put, get-put, get-put_self}
use red_lab.GoLib.Strings.{has_prefix}
use red_lab.GoLib.Strings.Occurs.{append-has_prefix}
use red_lab.GoLib.Sort.{sort}
use red_lab.GoLib.Sort.Order.{count, count-sort}
use red_lab.Scenario.{ConditionSpec}
use red_lab.System.{Service, Process, Machine, Error, needs_root, no_such_unit}
use red_lab.System.Files.{Outcome}
use red_lab.System.Processes.{process_table, running_names, rebuild_processes, service_processes}
use red_lab.System.Services.{
  condition, append_journal, refresh_effects, fail_start, run_service, check_start, with_service,
  start_service,
}

-- How many processes of the table run the program.
abbrev pub times_listed : String → List Process → ℕ
times_listed program [] = 0
times_listed program (p ∷ processes) =
    (if p.command == program then 1 else 0) + times_listed program processes

-- How many services of the name are running. In a map there is one of a name at most.
abbrev pub times_running : String → GoMap Service → ℕ
times_running name [] = 0
times_running name ((key, s) ∷ services) =
    (if key == name && s.state == "running" then 1 else 0) + times_running name services

-- Root has started the service on the machine `m`, and `n` is the machine afterwards.
pub record IsStarted (m : Machine) (name user : String) (n : Machine) : Type 0 where
  pub root : user ≡ "root"
  -- The service was there, and its start conditions were met. It is running now, and otherwise as it
  -- was.
  pub started :
      (s : Service) × (get m.services name ≡ some s)
      × All (λ c. condition m c ≡ true) s.start_conditions
      × (get n.services name ≡ some (record s { state = "running" }))
  pub others : (other : String) → other ≢ name → get n.services other ≡ get m.services other
  -- The process table has a process of each service that is running, and of no other.
  pub listed :
      (other : String)
      → times_listed ("/usr/lib/systemd/system/" +++ other) n.processes
        ≡ times_running other n.services

count-running_names :
    (name : String) (services : GoMap Service)
    → count name (running_names services) ≡ times_running name services
unfolding running_names
count-running_names name [] = refl
count-running_names name ((key, s) ∷ services) = ground (arith, count-running_names name services)

unit_eq :
    (a b : String)
    → ("/usr/lib/systemd/system/" +++ a == "/usr/lib/systemd/system/" +++ b) ≡ (a == b)
unit_eq a b = elim (Bool-cases (a == b)) [
  | inl e ↦ rw (e, (eq_iff a b).0 e, eq_refl) refl
  | inr e ↦
      elim (Bool-cases ("/usr/lib/systemd/system/" +++ a == "/usr/lib/systemd/system/" +++ b)) [
        | inl f ↦
            absurd (unequal (sym e ∙ (eq_iff a b).1 (append_cancel_left _ a b ((eq_iff _ _).0 f))))
        | inr f ↦ f ∙ sym e
      ]
]
  where
    unequal : false ≡ true → ⊥
    unequal h = cc

listed-service_processes :
    (name : String) (index : ℕ) (names : List String)
    → times_listed ("/usr/lib/systemd/system/" +++ name) (service_processes index names)
      ≡ count name names
unfolding service_processes
listed-service_processes name index [] = refl
listed-service_processes name index (w ∷ names) =
    rw (unit_eq w name)
      (ap (λ n. (if w == name then 1 else 0) + n) (listed-service_processes name (suc index) names))

no_init : (name : String) → ("/sbin/init" == "/usr/lib/systemd/system/" +++ name) ≡ false
no_init name = elim (Bool-cases ("/sbin/init" == "/usr/lib/systemd/system/" +++ name)) [
  | inl e ↦ absurd (
      unequal (
        ap (λ s. has_prefix s "/usr/lib/systemd/system/") ((eq_iff _ _).0 e)
        ∙ append-has_prefix "/usr/lib/systemd/system/" name))
  | inr e ↦ e
]
  where
    unequal : has_prefix "/sbin/init" "/usr/lib/systemd/system/" ≡ true → ⊥
    unequal h = unfold has_prefix in cc

-- The process table follows the services.
listed-process_table :
    (name : String) (services : GoMap Service)
    → times_listed ("/usr/lib/systemd/system/" +++ name) (process_table services)
      ≡ times_running name services
unfolding process_table
listed-process_table name services = rw (no_init name) (
    omega (
      arith,
      listed-service_processes name 0 (sort (running_names services)),
      count-sort name (running_names services),
      count-running_names name services,
    ))

-- The services and the processes of two machines are the same.
abbrev Agree : Machine → Machine → Type 0
Agree m n = (n.services ≡ m.services) × (n.processes ≡ m.processes)

refresh_effects-Agree : (m : Machine) (name : String) → Agree m (refresh_effects m name)
unfolding refresh_effects
refresh_effects-Agree m name = holds-if (Agree m) _ m _ (λ e. (refl, refl)) (λ e. (refl, refl))

run_service-Agree :
    (m : Machine) (name user : String) (s : Service)
    → let services = put m.services name (record s { state = "running" }) in
      Agree
        (record m { services = services; processes = process_table services })
        (run_service m name user s).0
unfolding run_service append_journal rebuild_processes
run_service-Agree m name user s = refresh_effects-Agree _ name

check_start_done :
    (m : Machine) (name user : String) (s : Service) (conditions : List ConditionSpec)
    → (check_start m name user s conditions).1 ≡ none
    → All (λ c. condition m c ≡ true) conditions
      × (check_start m name user s conditions ≡ run_service m name user s)
unfolding check_start
check_start_done m name user s [] h = (tt, refl)
check_start_done m name user s (c ∷ conditions) h = elim (Bool-cases (condition m c)) [
  | inl e ↦
      let rest = check_start_done m name user s conditions (rw e at h) in ((e, rest.0), rw e rest.1)
  | inr e ↦ absurd (failed (rw e at h))
]
  where
    failed : (fail_start m name user s).1 ≡ none → ⊥
    failed h = unfold fail_start in cc

-- A method that looks the service up returns no error only to root, and for a service that is there.
with_service_done :
    (m : Machine) (name user : String) (body : Service → Outcome)
    → (with_service m name user body).1 ≡ none
    → (user ≡ "root")
      × (s : Service) × (get m.services name ≡ some s)
      × (with_service m name user body ≡ body s)
unfolding with_service
with_service_done m name user body h = elim (Bool-cases (user == "root")) [
  | inr e ↦ absurd (some_not_none needs_root (rw e at h))
  | inl e ↦ elim (Option-cases (get m.services name)) [
    | inl f ↦ absurd (some_not_none no_such_unit (rw (e, f) at h))
    | inr (s, f) ↦ ((eq_iff user "root").0 e, s, f, rw (e, f) refl)
  ]
]
  where
    some_not_none : (x : Error) → ◌≡◌ {A = Option Error} (some x) none → ⊥
    some_not_none x h = cc

different : {v w : String} → w ≢ v → (v == w) ≡ false
different {v} {w} n = elim (Bool-cases (v == w)) [
  | inl e ↦ absurd (n (sym ((eq_iff v w).0 e)))
  | inr e ↦ e
]

-- Where StartService returns no error, root has called it, the service was there and its start
-- conditions were met. It is running afterwards, nothing else of it has changed, and no other
-- service has changed. The process table has a process of each service that is running, and of no
-- other service.
pub start_service-IsStarted :
    (m : Machine) (name user : String)
    → (start_service m name user).1 ≡ none
    → IsStarted m name user (start_service m name user).0
unfolding start_service
start_service-IsStarted m name user h =
    let (root, s, found, reached) = with_service_done m name user _ h in
    let (conditions, ran) = check_start_done m name user s s.start_conditions (rw reached at h) in
    let (services, processes) = run_service-Agree m name user s in
    rw (reached, ran)
      (record {
        root = root;
        started = (s, found, conditions, ap (λ t. get t name) services ∙ get-put_self _ _ _);
        others =
            λ other n. ap (λ t. get t other) services ∙ get-put _ _ _ _ ∙ rw (different n) refl;
        listed = λ other. rw (processes, services) (listed-process_table other _);
      })
