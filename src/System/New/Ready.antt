-- ===== src/System/New/Ready.antt =====
-- The machine that NewState makes, and when it makes one.
use mathlib.Core.Path.{subst}
use red_lab.Prelude.{
  String, true, false, ◌≡◌, refl, sym, ap, ◌∙◌, some, List, [], ◌∷◌, All, none_not_some,
}
use red_lab.Prelude.GoMap.{GoMap, get, put}
use red_lab.GoLib.Time.{Time}
use red_lab.Scenario.{ScenarioSpec, FileSpec}
use red_lab.Scenario.Package as Loaded
use red_lab.System.{File, Machine, State, ok}
use red_lab.System.Paths.{normalize_path}
use red_lab.System.Files.{root_directory}
use red_lab.System.Identity.{default_string}
use red_lab.System.Guarded.{OwnedByRoot}
use red_lab.System.Guarded.Refused.{process_table-OwnedByRoot}
use red_lab.System.Processes.{process_table, rebuild_processes}
use red_lab.System.Services.InSync.{InSync}
use red_lab.System.Base.{install_base}
use red_lab.System.New.{
  accounts, with_root, place_packaged, refresh_all, completed, assembled, new_state,
}
use red_lab.System.New.Filed.{IsFiled, store-IsFiled, install_base-IsFiled, place_packaged-IsFiled}
use red_lab.System.New.Entries.{
  IsValid, IsFromEntry, Owns, place_entries-IsPlaced, place_packaged-Owns,
}
use red_lab.System.New.Users.{IsThere, IsKnown, current_user-IsThere}
use red_lab.System.New.Settled.{refresh_all-IsSettled, journal_failures-IsSettled}

-- A new machine: the current user has an account, each file is stored under its own path, the
-- process table lists the services that run, root owns the processes, and the snapshot that Reset
-- goes back to is the machine.
pub record IsReady (s : State) : Type 0 where
  pub user : IsThere s.machine.users s.machine.current_user
  pub filed : IsFiled s.machine.files
  pub in_sync : InSync s.machine
  pub owned : OwnedByRoot s.machine.processes
  pub snapshot : s.initial ≡ some s.machine

completed-IsReady :
    (spec : ScenarioSpec) (m : Machine)
    → IsThere m.users m.current_user
    → IsFiled m.files
    → IsReady (completed spec m) × ((completed spec m).machine.files ≡ m.files)
unfolding rebuild_processes
completed-IsReady spec m user filed =
    let r = refresh_all m.services m in
    let first = refresh_all-IsSettled m.services m in
    let last = journal_failures-IsSettled spec.services (rebuild_processes r) in
    let files = last.files ∙ first.files in
    (
      record {
        user =
            subst (λ us. IsThere us (completed spec m).machine.current_user)
              (sym (last.users ∙ first.users))
              (subst (IsThere m.users) (sym (last.user ∙ first.user)) user);
        filed = subst IsFiled (sym files) filed;
        in_sync = record { table = last.processes ∙ ap process_table (sym last.services) };
        owned = subst OwnedByRoot (sym last.processes) (process_table-OwnedByRoot r.services);
        snapshot = refl;
      },
      files,
    )

-- The entry is of a path that `NormalizePath` accepts, and the file there is made from an entry.
abbrev pub IsInstalled : List FileSpec → GoMap File → FileSpec → Type 0
IsInstalled all files e =
    (p : String) × (normalize_path e.path "/" ≡ ok p) × IsFromEntry all files p

base-IsFiled : IsFiled (("/", root_directory "/") ∷ [])
unfolding get put
base-IsFiled = store-IsFiled (root_directory "/") [] (λ p f h. absurd (none_not_some h))

none-Owns : (all : List FileSpec) (files : GoMap File) → Owns all [] files
unfolding get
none-Owns all files p h = absurd (false_not_true h)
  where
    false_not_true : false ≡ true → ⊥
    false_not_true e = cc

All-map :
    {P Q : FileSpec → Type 0}
    → ((e : FileSpec) → P e → Q e)
    → (es : List FileSpec) → All P es
    → All Q es
All-map f [] h = tt
All-map f (e ∷ es) (h, hs) = (f e h, All-map f es hs)

-- NewState makes a machine if the scenario's initial user is one of its users, or there is none, and
-- each of its files has a path, and a mode that is octal or empty. The machine is ready, and at the
-- path of each of the scenario's files there is a file made from one of them, which neither the base
-- system nor the files of the package have taken the place of.
pub new_state-IsReady :
    (format_time : Time → String → String) (pkg : Loaded.Package) (now : Time)
    → IsKnown pkg.scenario.spec
    → All IsValid pkg.scenario.spec.filesystem.entries
    → (s : State) × (new_state format_time pkg now ≡ ok s)
      × IsReady s
      × All
          (IsInstalled pkg.scenario.spec.filesystem.entries s.machine.files)
          pkg.scenario.spec.filesystem.entries
unfolding new_state
new_state-IsReady format_time pkg now known valid =
    let spec = pkg.scenario.spec in
    let entries = spec.filesystem.entries in
    let users = with_root (accounts spec.actors.users []) in
    let user = default_string spec.actors.initial_user "root" in
    let files = install_base format_time spec now users (("/", root_directory "/") ∷ []) in
    let account = current_user-IsThere spec known in
    let loop =
      place_entries-IsPlaced entries entries [] files (λ e h. h) valid
        (install_base-IsFiled format_time spec now users _ base-IsFiled)
        (none-Owns entries files) in
    let all = place_packaged pkg.files loop.0.1 loop.0.0 in
    let m = assembled spec now users user all in
    let done =
      completed-IsReady spec m account.1
        (place_packaged-IsFiled pkg.files loop.0.1 loop.0.0 loop.2.filed) in
    (
      completed spec m,
      rw (account.0, new_state) rw (loop.1, new_state) refl,
      done.0,
      All-map
          (λ e h. (
            h.0,
            h.1,
            subst (λ fs. IsFromEntry entries fs h.0) (sym done.1)
                (place_packaged-Owns entries pkg.files loop.0.1 loop.0.0 loop.2.owns h.0 h.2),
          ))
          entries loop.2.marked,
    )
