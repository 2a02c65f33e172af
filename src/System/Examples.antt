-- ===== src/System/Examples.antt =====
-- Calls of the file methods on a small machine, and the theorems of this component there.
use red_lab.Prelude.{String, true, false, ◌≡◌, ◌≢◌, refl, none, eq_iff, [], ◌∷◌}
use red_lab.Prelude.GoMap.{get}
use red_lab.GoLib.Strings.{join}
use red_lab.GoLib.Path.{absolute}
use red_lab.GoLib.Path.{is_rooted}
use red_lab.GoLib.Path.Canonical.{IsCanonical}
use red_lab.System.{ok}
use red_lab.System.Paths.{normalize_path}
use red_lab.System.Paths.Safe.{normalize_path-IsCanonical}
use red_lab.System.Files.{write_file}
use red_lab.System.Files.Access.{Spares, write_file-Spares}
use red_lab.System.Services.{start_service, with_service, check_start, run_service}
use red_lab.System.Services.Started.{IsStarted, start_service-IsStarted}
use red_lab.Samples.{host}

etc : IsCanonical "/etc"
unfolding absolute join
etc = record { parts = "etc" ∷ []; entries = (((refl, (refl, (refl, tt))), refl), tt); text = refl }

not_empty : (let s : String = "../etc//passwd" in s ≢ "")
not_empty h = clash ((eq_iff "../etc//passwd" "").1 h)
  where
    clash : false ≡ true → ⊥
    clash h = cc

normalize_path-IsCanonical_example :
    (p : String) × (normalize_path "../etc//passwd" "/home/.." ≡ ok p) × IsCanonical p
normalize_path-IsCanonical_example =
    normalize_path-IsCanonical "../etc//passwd" "/home/.." (unfold is_rooted in refl) not_empty

write_file-Spares_example : Spares host "trainee" (write_file host "/motd" "owned" "trainee" false)
write_file-Spares_example = write_file-Spares host "trainee" "/motd" "owned" false

started : (start_service host "httpd" "root").1 ≡ none
unfolding start_service with_service check_start run_service get
started = refl

start_service-IsStarted_example :
    IsStarted host "httpd" "root" (start_service host "httpd" "root").0
start_service-IsStarted_example = start_service-IsStarted host "httpd" "root" started
