-- ===== src/Report/Examples.antt =====
-- The difference of two small machines.
use red_lab.Prelude.{true, ◌≡◌, ◌↔◌, [], ◌∷◌}
use red_lab.System.{Machine}
use red_lab.Report.Diff.{diff_machines, is_empty}
use red_lab.Report.Diff.Agrees.{Agrees, diff_machines_iff}
use red_lab.Samples.{host, owned_file}

-- The host with another note.
abbrev edited : Machine
edited = record host { files = ("/note", owned_file "/note" "trainee" "changed") ∷ [] }

diff_machines_iff_example : (is_empty (diff_machines host edited) ≡ true) ↔ Agrees host edited
diff_machines_iff_example = diff_machines_iff host edited
