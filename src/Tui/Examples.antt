-- ===== src/Tui/Examples.antt =====
-- The text interface on concrete snapshots.
use localsend_rs.Base.{
  string_eq, ◌≡◌, refl, String, Bool, true, false, not, ◌&&◌, List, [], ◌∷◌, any, ◌==◌,
}
use localsend_rs.Base.Int.{negsuc}
use localsend_rs.Model.{NodeDevice, MissionState, SessionDirection, SessionSummary}
use localsend_rs.Tui.View as View
use localsend_rs.Tui.App.{App, new, contains, apply_index, clear_terminal, index, cycle, run}
use localsend_rs.Tui.Ids.{ids}
use localsend_rs.Tui.Screen.{WellFormed, run-WellFormed, apply_index-shows}
use localsend_rs.Tui.Cleared.{clear_terminal-forever}

abbrev phone : NodeDevice
phone = record {
  alias = "phone";
  version = "2.2";
  device_model = "m";
  device_type = "mobile";
  fingerprint = "fp";
  address = "10.0.0.2";
  port = 53317;
  protocol = "http";
  download = true;
  announcement = false;
  announce = false;
  discovery_source = "lan";
}

abbrev summary : String → MissionState → SessionSummary
summary id state = record {
  id = id;
  direction = SessionDirection.receive;
  peer = phone;
  file_count = 0;
  state = state;
  via_relay = false;
  route = "local";
  speed_bps = 0;
  files = [];
}

abbrev snapshot : List SessionSummary
snapshot = summary "a" MissionState.finished ∷ summary "b" MissionState.pending ∷ []

abbrev files : String → Bool
files path = true

abbrev start : App
start = run files (index snapshot ∷ cycle (negsuc 0) ∷ []) (new [])

last_focused : start.focus ≡ 1
unfolding run new
last_focused = refl

run-WellFormed_example : WellFormed start
run-WellFormed_example = run-WellFormed files [] (index snapshot ∷ cycle (negsuc 0) ∷ [])

apply_index-shows_example :
    contains "a" (ids (apply_index snapshot start).sessions)
    ≡ not (contains "a" start.hidden) && any (λ (s : SessionSummary). s.id == "a") snapshot
apply_index-shows_example = apply_index-shows snapshot start "a"

clear_terminal-forever_example :
    contains "a" (ids (run files (index snapshot ∷ []) (clear_terminal start).0).sessions) ≡ false
unfolding run new View.is_terminal
clear_terminal-forever_example =
    clear_terminal-forever files (index snapshot ∷ []) start "a"
      (run-WellFormed files [] (index snapshot ∷ cycle (negsuc 0) ∷ [])) refl
