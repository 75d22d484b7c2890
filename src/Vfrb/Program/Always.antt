-- ===== src/Vfrb/Program/Always.antt =====
-- What holds of the containers and of the server at any time.
use virtual_flight_radar_bac.Common.{ℕ, ◌≤◌, ◌≡◌, false, some, List, All, arith}
use virtual_flight_radar_bac.Common.Int.{ℤ}
use virtual_flight_radar_bac.Common.Text.{Str}
use virtual_flight_radar_bac.Double.{Double}
use virtual_flight_radar_bac.Data.AircraftData.Runs
use virtual_flight_radar_bac.Data.Processor.GpsProcessor.{Tm}
use virtual_flight_radar_bac.Feed.Parser.Regex.{Regexes}
use virtual_flight_radar_bac.Client.Manager.{FeedInfo}
use virtual_flight_radar_bac.Config.{Configuration}
use virtual_flight_radar_bac.Server.{max_clients}
use virtual_flight_radar_bac.Server.Slots.{live, IsDistinct, live-le-length}
use virtual_flight_radar_bac.Server.Net.Sound.{load}
use virtual_flight_radar_bac.Vfrb.{of_configuration}
use virtual_flight_radar_bac.Vfrb.System.{Moment}
use virtual_flight_radar_bac.Vfrb.System.Fit.{IsLow}
use virtual_flight_radar_bac.Vfrb.Program.{AnyFeed, Program, Happening, run_all, start}
use virtual_flight_radar_bac.Vfrb.Program.Well.{IsWell, IsPossible, start-IsWell}
use virtual_flight_radar_bac.Vfrb.Program.Course.{run_all-IsWell}

module _ {W : Type 0} ⦃d : Double W⦄ where
  -- The containers, and the connections of the server.
  pub record IsInOrder (max_height : ℤ) (p : Program W) : Type 0 where
    pub sound : Runs.IsSound p.fleet.world.vfrb.aircraft_data
    pub low : All (IsLow max_height) p.fleet.world.vfrb.aircraft_data.container
    pub unlocked : p.fleet.world.vfrb.gps_data.position_locked ≡ false
    pub counted : p.fleet.world.vfrb.server.active ≡ live p.fleet.world.vfrb.server.connections
    pub few : p.fleet.world.vfrb.server.active ≤ max_clients
    pub distinct : IsDistinct p.fleet.world.vfrb.server.connections
    pub accepting : load p.begun p.interface ≡ 1

  IsWell-IsInOrder :
      (re : Regexes) (max_height : ℤ) (p : Program W)
      → IsWell re max_height p
      → IsInOrder max_height p
  IsWell-IsInOrder re max_height p w =
      let server = p.fleet.world.vfrb.server in
      record {
        sound = w.sane.aircraft.sound;
        low = w.sane.aircraft.low;
        unlocked = w.sane.unlocked;
        counted = w.sound.valid.counted;
        few =
            omega (
              arith,
              w.sound.valid.counted,
              w.sound.valid.sized,
              live-le-length server.connections,
            );
        distinct = w.sound.valid.distinct;
        accepting = ground (arith, w.sound.same, w.serving, w.sound.fine.least, w.sound.fine.most);
      }

module _ {W P : Type 0} ⦃d : Double W⦄ where
  -- Whatever happens to a program that runs on a configuration, its clients, its server and the
  -- network, where no client of the server is gone before its address has been asked for: the
  -- exception of `remote_endpoint` does not end it. The container of the aircraft is sound, that is, its map and its vector agree and no aircraft is
  -- overdue; no aircraft is higher than the configuration allows; the position is not locked; at most
  -- three clients are connected, no address twice, and they are counted right; and exactly one
  -- accept is to be called, to be done or to be handled.
  pub run_all-IsInOrder :
      (re : Regexes) (utc : Tm) (c : Configuration W P) (combine : ℕ → Str → ℕ)
      (info : AnyFeed → FeedInfo) (feeds : List AnyFeed) (m : Moment W) (hs : List (Happening W))
      → All (IsPossible re c.max_height) hs
      → (p : Program W) × (run_all re c.max_height hs
            (start re c.max_height combine info feeds m (of_configuration utc c))
          ≡ some p)
        × IsInOrder c.max_height p
  run_all-IsInOrder re utc c combine info feeds m hs possible =
      let (p, e, w) =
        run_all-IsWell re c.max_height hs _ possible (start-IsWell re utc c combine info feeds m) in
      (p, e, IsWell-IsInOrder re c.max_height p w)
