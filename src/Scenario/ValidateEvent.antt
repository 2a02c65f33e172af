-- ===== src/Scenario/ValidateEvent.antt =====
-- ValidateEvent of internal/scenario/loader.go. A diagnostic stands for its path and message; the
-- file's name, which all of them carry, is left out.
use red_lab.Prelude.{
  String, Bool, true, false, not, ◌&&◌, ◌||◌, List, [], ◌∷◌, ◌++◌, ◌==◌, if◌then◌else◌,
}
use red_lab.Prelude.GoMap.{GoMap, put, get_or}
use red_lab.Prelude.Int.{pos, ltb_ℤ}
use red_lab.GoLib.Time.{before, is_zero}
use red_lab.Scenario.Event.{Event, EventScenario, Schedule}

pub data EventDiagnostic : Type 0 where
  bad_version bad_kind missing_id bad_packages missing_listen bad_close bad_sessions :
      EventDiagnostic
  bad_assignment : EventDiagnostic

abbrev noted : Bool → EventDiagnostic → List EventDiagnostic
noted b d = if b then d ∷ [] else []

unfoldable pub check_packages : GoMap Bool → List EventScenario → List EventDiagnostic
check_packages seen [] = []
check_packages seen (item ∷ items) =
    noted (item.package_name == "" || get_or seen item.package_name false) bad_packages
    ++ check_packages (put seen item.package_name true) items

abbrev pub is_assignment : String → Bool
is_assignment mode =
    mode == "" || mode == "organizer" || mode == "round-robin" || mode == "random-seeded"

abbrev pub closes_early : Schedule → Bool
closes_early schedule =
    not (is_zero schedule.opens_at)
    && not (is_zero schedule.submissions_close_at)
    && not (before schedule.opens_at schedule.submissions_close_at)

unfoldable pub validate_event : Event → List EventDiagnostic
validate_event e =
    noted (not (e.api_version == "redlab/v1")) bad_version
    ++ (noted (not (e.kind == "Event")) bad_kind
        ++ (noted (e.metadata.id == "") missing_id
            ++ (check_packages [] e.spec.scenarios
                ++ (noted (e.spec.server.listen == "") missing_listen
                    ++ (noted (closes_early e.spec.schedule) bad_close
                        ++ (noted
                              (ltb_ℤ e.spec.sessions.max_concurrent (pos 0)
                                || ltb_ℤ e.spec.sessions.max_restarts (pos 0))
                              bad_sessions
                            ++ noted (not (is_assignment e.spec.sessions.assignment))
                                bad_assignment))))))
