-- ===== src/Tests/Whole.antt =====
-- The data of a program that other tests start from, its aircraft one by one, and its server over the
-- network.
use virtual_flight_radar_bac.Common.{
  ℕ, ◌≡◌, ◌≤◌, refl, false, ◌&&◌, not, none, some, List, [], ◌∷◌, if◌then◌else◌,
}
use virtual_flight_radar_bac.Common.Int.{ℤ, pos}
use virtual_flight_radar_bac.Common.Text.{codes}
use virtual_flight_radar_bac.Config.{Configuration}
use virtual_flight_radar_bac.Data.AircraftData.{of_max_distance}
use virtual_flight_radar_bac.Data.AircraftData.Runs
use virtual_flight_radar_bac.Data.AircraftData.Runs.{IsSound, report, pass}
use virtual_flight_radar_bac.Data.AircraftData.Track.{track, track_of, unseen, run-track}
use virtual_flight_radar_bac.Feed.Feeds.{Feed}
use virtual_flight_radar_bac.Server.{max_clients}
use virtual_flight_radar_bac.Server.Slots.{live, IsDistinct}
use virtual_flight_radar_bac.Server.Net
use virtual_flight_radar_bac.Server.Net.{Net, begins, handles, arrives, stops, start}
use virtual_flight_radar_bac.Server.Net.Sound.{load, is_due}
use virtual_flight_radar_bac.Server.Net.Reach.{run_all-start}
use virtual_flight_radar_bac.Vfrb.System.{Moment}
use virtual_flight_radar_bac.Tests.Sample.{whole, place, glider, airliner}
use virtual_flight_radar_bac.Tests.Feeds.{clock, elsewhere}
use virtual_flight_radar_bac.Tests.Program.{utc}

run-track_example :
    track_of (codes "DDA85C") (
      Runs.run
        (of_max_distance (pos 10000))
        (report glider ∷ report airliner ∷ pass place (pos 1013) ∷ []))
    ≡ track
        (codes "DDA85C")
        (unseen (pos 10000))
        (report glider ∷ report airliner ∷ pass place (pos 1013) ∷ [])
run-track_example =
    run-track (codes "DDA85C") (pos 10000)
      (report glider ∷ report airliner ∷ pass place (pos 1013) ∷ [])

abbrev pub configuration : Configuration ℤ ℕ
configuration = record {
  atm_pressure = pos 1013;
  position = record {
    base = record { last_priority = 0; update_age = 0; serialized = [] };
    position = place;
    geoid = pos 48;
    time_stamp = record { value = pos 0; day = 0 };
    dilution = pos 1;
    nr_of_satellites = 1;
    fix_quality = pos 1;
  };
  max_distance = pos 10000;
  max_height = pos 5000;
  server_port = 4353;
  ground_mode = false;
  feeds = [];
}

abbrev pub receiver : Feed
receiver = record {
  name = codes "sbs";
  priority = 1;
  host = codes "localhost";
  port = codes "30003";
}

abbrev pub moment : Moment ℤ
moment = record { clock = clock; utc = utc; garbage = elsewhere }

-- A client connects, another one from its address is refused, and the server is stopped.
abbrev visits : List Net.Event
visits =
    begins
    ∷ arrives (some (codes "192.168.0.2"))
    ∷ handles
    ∷ arrives (some (codes "192.168.0.2"))
    ∷ handles
    ∷ stops
    ∷ []

run_all-start_example :
    (n : Net) × (Net.run_all visits start ≡ some n)
    × (n.server.active ≡ live n.server.connections)
    × (n.server.active ≤ max_clients)
    × IsDistinct n.server.connections
    × (if n.server.running then load n.begun n.interface ≡ 1 else live n.server.connections ≡ 0)
    × (n.interface.socket.is_open && not (is_due n.interface.done) ≡ false)
run_all-start_example = run_all-start visits (tt, (tt, (tt, (tt, (tt, (tt, tt))))))

-- A client that is gone before its handler has asked for its address ends the program.
gone : Net.run_all (begins ∷ arrives none ∷ handles ∷ []) start ≡ none
unfolding Net.run_all Net.step start
gone = refl
