-- ===== src/Commands/Examples.antt =====
-- Commands on a small machine, and the theorems about them there.
use red_lab.Prelude.{String, true, false, ◌≡◌, refl, none, List, [], ◌∷◌, if◌then◌else◌, eqb, ◌==◌}
use red_lab.Prelude.GoMap.{get}
use red_lab.Prelude.Int.{pos}
use red_lab.GoLib.Sort.Order.{IsOrdered, count}
use red_lab.Runtime.{Env, failed}
use red_lab.System.{Machine}
use red_lab.System.Processes.{rebuild_processes}
use red_lab.System.Guarded.{OwnedByRoot, IsKept}
use red_lab.System.Guarded.Refused.{process_table-OwnedByRoot}
use red_lab.System.Permissions.{member}
use red_lab.System.Sudo.{sudo_allowed}
use red_lab.Commands.{Library, Context, Handler}
use red_lab.Commands.Text.{run_uniq, run_sort, input_lines}
use red_lab.Commands.Text.Distinct.{run_uniq-run_sort}
use red_lab.Commands.Registry.Sequence.{Call, run_calls, run_calls-IsKept}
use red_lab.Samples.{host}

abbrev library : Library
library = record {
  error_text = λ e. "error";
  matches = λ pattern text. pattern == text;
  parse_url = λ text. none;
  format_time = λ t layout. layout;
  to_lower = λ s. s;
  to_upper = λ s. s;
  sprintf = λ format args. format;
  mebibytes = λ n. "0.0";
}

abbrev env : Env
env = record { variables = []; shared = true; history = []; user = "trainee"; cwd = "/" }

abbrev context : Context
context = (host, env)

abbrev no_lab : Handler
no_lab c args stdin = (c, failed (pos 1) "")

abbrev booted : Machine
booted = rebuild_processes host

denied : (command : String) → sudo_allowed booted "trainee" command ≡ false
unfolding sudo_allowed get member rebuild_processes
denied command = refl

booted-OwnedByRoot : OwnedByRoot booted.processes
unfolding rebuild_processes
booted-OwnedByRoot = process_table-OwnedByRoot host.services

abbrev calls : List Call
calls =
    record { name = "killall"; env = env; args = "httpd" ∷ []; stdin = "" }
    ∷ record { name = "useradd"; env = env; args = "mallory" ∷ []; stdin = "" }
    ∷ record { name = "sudo"; env = env; args = "reboot" ∷ []; stdin = "" }
    ∷ []

run_calls-IsKept_example :
    IsKept booted (run_calls library [] no_lab booted calls)
    × ((user command : String)
        → sudo_allowed (run_calls library [] no_lab booted calls) user command
          ≡ sudo_allowed booted user command)
run_calls-IsKept_example =
    run_calls-IsKept library [] no_lab booted calls
      ((refl, denied, refl), ((refl, denied, refl), ((refl, denied, refl), tt))) booted-OwnedByRoot

run_uniq-run_sort_example :
    let lines = input_lines (run_uniq context [] (run_sort context [] "b\na\nb\n").stdout).stdout in
    IsOrdered lines
    × (count "b" lines ≡ (if eqb (count "b" (input_lines "b\na\nb\n")) 0 then 0 else 1))
run_uniq-run_sort_example = run_uniq-run_sort context "b\na\nb\n" "b" refl
