-- ===== src/System/New/Examples.antt =====
-- A small package, and the machine that NewState makes of it.
use red_lab.Prelude.{String, true, false, ◌≡◌, ◌≢◌, refl, inr, [], ◌∷◌, eq_iff, All}
use red_lab.Prelude.Int.{pos}
use red_lab.GoLib.Time.{Time}
use red_lab.Scenario.{FileSpec}
use red_lab.Scenario.Package as Loaded
use red_lab.System.{State, ok}
use red_lab.System.Directories.{parse_mode}
use red_lab.System.New.{new_state}
use red_lab.System.New.Entries.{IsValid}
use red_lab.System.New.Users.{IsKnown}
use red_lab.System.New.Ready.{IsReady, IsInstalled, new_state-IsReady}
use red_lab.System.Permissions.{member}
use red_lab.Samples.{spec, session}

abbrev layout : Time → String → String
layout t format = format

abbrev entry : FileSpec
entry = record {
  path = "/etc/motd";
  owner = "";
  group = "";
  mode = "";
  selinux_type = "etc_t";
  append = "Welcome\n";
}

-- The package brings a file for the path of the entry, too.
abbrev web_package : Loaded.Package
web_package = record {
  root = "web";
  files = ("files/etc/motd", "Replaced\n") ∷ ("files/srv/page", "Hello\n") ∷ [];
  scenario = record session.scenario {
    spec = record spec {
      actors = record {
        initial_user = "trainee";
        users =
            record {
              name = "trainee";
              uid = pos 1000;
              gid = pos 0;
              groups = [];
              shell = "";
              password = "";
            }
            ∷ [];
        sudo = [];
      };
      filesystem = record { templates = []; entries = entry ∷ [] };
      services =
          record {
            name = "httpd";
            enabled = true;
            state = "running";
            start_conditions = [];
            on_failure = record { journal = [] };
          }
          ∷ [];
    };
  };
  digest = "";
}

known : IsKnown web_package.scenario.spec
unfolding member
known = inr refl

not_empty : (let s : String = "/etc/motd" in s ≢ "")
not_empty h = clash ((eq_iff "/etc/motd" "").1 h)
  where
    clash : false ≡ true → ⊥
    clash h = cc

valid : All IsValid web_package.scenario.spec.filesystem.entries
unfolding parse_mode
valid = ((not_empty, 0o644, refl), tt)

new_state-IsReady_example :
    (s : State) × (new_state layout web_package 7 ≡ ok s)
    × IsReady s
    × All (IsInstalled (entry ∷ []) s.machine.files) (entry ∷ [])
new_state-IsReady_example = new_state-IsReady layout web_package 7 known valid
