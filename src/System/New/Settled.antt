-- ===== src/System/New/Settled.antt =====
-- What the last steps of NewState leave alone.
use red_lab.Prelude.{String, ◌≡◌, refl, ◌∙◌, List, [], ◌∷◌, ◌==◌, arith, holds-if}
use red_lab.Prelude.GoMap.{GoMap}
use red_lab.Scenario.{ServiceSpec, JournalSpec}
use red_lab.System.{Service, Machine}
use red_lab.System.Services.{append_journal, journal_all, refresh_effects}
use red_lab.System.New.{refresh_all, journal_failures}

-- What the steps leave as it is that open ports and write the journal.
pub record IsSettled (m n : Machine) : Type 0 where
  pub users : n.users ≡ m.users
  pub files : n.files ≡ m.files
  pub user : n.current_user ≡ m.current_user
  pub services : n.services ≡ m.services
  pub processes : n.processes ≡ m.processes

IsSettled-refl : (m : Machine) → IsSettled m m
IsSettled-refl m = record {
  users = refl;
  files = refl;
  user = refl;
  services = refl;
  processes = refl;
}

IsSettled-trans : {l m n : Machine} → IsSettled l m → IsSettled m n → IsSettled l n
IsSettled-trans h k = record {
  users = k.users ∙ h.users;
  files = k.files ∙ h.files;
  user = k.user ∙ h.user;
  services = k.services ∙ h.services;
  processes = k.processes ∙ h.processes;
}

refresh_effects-IsSettled : (m : Machine) (name : String) → IsSettled m (refresh_effects m name)
unfolding refresh_effects
refresh_effects-IsSettled m name = ground arith

pub refresh_all-IsSettled :
    (services : GoMap Service) (m : Machine) → IsSettled m (refresh_all services m)
unfolding refresh_all
refresh_all-IsSettled [] m = IsSettled-refl m
refresh_all-IsSettled ((name, s) ∷ services) m =
    IsSettled-trans
      (holds-if (IsSettled m) (s.state == "running") (refresh_effects m s.name) m
        (λ _. refresh_effects-IsSettled m s.name) (λ _. IsSettled-refl m))
      (refresh_all-IsSettled services _)

journal_all-IsSettled :
    (m : Machine) (user name : String) (items : List JournalSpec)
    → IsSettled m (journal_all m user name items)
unfolding journal_all append_journal
journal_all-IsSettled m user name [] = IsSettled-refl m
journal_all-IsSettled m user name (j ∷ items) =
    IsSettled-trans
      (record { users = refl; files = refl; user = refl; services = refl; processes = refl })
      (journal_all-IsSettled (append_journal m user name j.priority j.message) user name items)

pub journal_failures-IsSettled :
    (specs : List ServiceSpec) (m : Machine) → IsSettled m (journal_failures specs m)
unfolding journal_failures
journal_failures-IsSettled [] m = IsSettled-refl m
journal_failures-IsSettled (s ∷ specs) m =
    IsSettled-trans (journal_all-IsSettled m "" s.name s.on_failure.journal)
      (journal_failures-IsSettled specs _)
