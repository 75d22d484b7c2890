-- ===== src/Vfrb/System/Reach.antt =====
-- What holds of the whole program, whatever it receives.
use virtual_flight_radar_bac.Common.{◌≤◌, ◌≡◌, refl, ◌∙◌, Bool, false, List, [], ◌∷◌, arith, All}
use virtual_flight_radar_bac.Common.Int.{ℤ}
use virtual_flight_radar_bac.Common.Text.{Str}
use virtual_flight_radar_bac.Double.{Double}
use virtual_flight_radar_bac.Data.Processor.GpsProcessor.{Tm}
use virtual_flight_radar_bac.Data.AircraftData.{of_max_distance}
use virtual_flight_radar_bac.Data.AircraftData.Runs
use virtual_flight_radar_bac.Data.AircraftData.Runs.{
  IsSound, Call, IsCall, report, pass, step-IsSound, run-of_max_distance-IsSound,
}
use virtual_flight_radar_bac.Data.GpsData
use virtual_flight_radar_bac.Data.GpsData.{GpsData}
use virtual_flight_radar_bac.Feed.Parser.Regex.{Regexes}
use virtual_flight_radar_bac.Feed.Feeds.{Feed}
use virtual_flight_radar_bac.Feed.Factory.{
  FeedClass, aprsc_feed, sbs_feed, gps_feed, wind_feed, atmosphere_feed,
}
use virtual_flight_radar_bac.Config.{Configuration}
use virtual_flight_radar_bac.Server.{Answer, max_clients}
use virtual_flight_radar_bac.Server.Slots.{live, IsDistinct, live-le-length}
use virtual_flight_radar_bac.Server.Invariant
use virtual_flight_radar_bac.Vfrb.{Vfrb, of_configuration, serve_round, message}
use virtual_flight_radar_bac.Vfrb.System.{
  Moment, Event, receives, rounds, serves, process, step, run,
}
use virtual_flight_radar_bac.Vfrb.System.Fit.{
  IsLow, IsFit, process_aircrafts-IsFit, process_aprsc-IsFit, process_sbs-IsFit,
  process_gps-position_locked,
}

module _ {W S : Type 0} ⦃d : Double W⦄ (max_height : ℤ) where
  pub record IsSane (v : Vfrb W S) : Type 0 where
    pub aircraft : IsFit max_height v.aircraft_data
    pub server : Invariant.IsValid v.server
    pub unlocked : v.gps_data.position_locked ≡ false

  pub process-IsSane :
      (re : Regexes) (m : Moment W) (c : FeedClass) (f : Feed) (response : Str) (v : Vfrb W S)
      → IsSane v
      → IsSane (process re max_height m c f response v).0
  unfolding process
  process-IsSane re m aprsc_feed f response v s = record {
    aircraft = process_aprsc-IsFit max_height re m f response v.aircraft_data s.aircraft;
    server = s.server;
    unlocked = s.unlocked;
  }
  process-IsSane re m sbs_feed f response v s = record {
    aircraft = process_sbs-IsFit max_height m f response v.aircraft_data s.aircraft;
    server = s.server;
    unlocked = s.unlocked;
  }
  process-IsSane re m gps_feed f response v s = record {
    aircraft = s.aircraft;
    server = s.server;
    unlocked = process_gps-position_locked max_height re m f response v.gps_data ∙ s.unlocked;
  }
  process-IsSane re m wind_feed f response v s = record {
    aircraft = s.aircraft;
    server = s.server;
    unlocked = s.unlocked;
  }
  process-IsSane re m atmosphere_feed f response v s = record {
    aircraft = s.aircraft;
    server = s.server;
    unlocked = s.unlocked;
  }

  pub serve_round-IsSane :
      (write : S → Str → Answer Bool) (utc : Tm) (v : Vfrb W S)
      → IsSane v
      → IsSane (serve_round write utc v)
  unfolding serve_round message GpsData.get_serialized
  serve_round-IsSane write utc v s = record {
    aircraft = process_aircrafts-IsFit max_height v.aircraft_data _ _ s.aircraft;
    server = Invariant.send-IsValid write (message utc v).1 v.server s.server;
    unlocked = s.unlocked;
  }

  -- The interface gives a connection to the address that it names.
  abbrev pub IsPossible : Event W S → Type 0
  IsPossible (serves e) = Invariant.IsPossible e
  IsPossible _ = Unit {0}

  step-IsSane :
      (re : Regexes) (e : Event W S) (v : Vfrb W S)
      → IsPossible e
      → IsSane v
      → IsSane (step re max_height e v)
  unfolding step
  step-IsSane re (receives m c f response) v p s = process-IsSane re m c f response v s
  step-IsSane re (rounds write utc) v p s = serve_round-IsSane write utc v s
  step-IsSane re (serves e) v p s = record {
    aircraft = s.aircraft;
    server = Invariant.step-IsValid v.server e p s.server;
    unlocked = s.unlocked;
  }

  run-IsSane :
      (re : Regexes) (es : List (Event W S)) (v : Vfrb W S)
      → All IsPossible es
      → IsSane v
      → IsSane (run re max_height es v)
  unfolding run
  run-IsSane re [] v p s = s
  run-IsSane re (e ∷ es) v p s =
      run-IsSane re es (step re max_height e v) p.1 (step-IsSane re e v p.0 s)

module _ {W S P : Type 0} ⦃d : Double W⦄ where
  pub of_configuration-IsSane :
      (utc : Tm) (c : Configuration W P) → IsSane {S = S} c.max_height (of_configuration utc c)
  unfolding of_configuration Runs.run GpsData.of_position of_max_distance
  of_configuration-IsSane utc c = record {
    aircraft = record { sound = run-of_max_distance-IsSound c.max_distance [] tt; low = tt };
    server = Invariant.initial-IsValid;
    unlocked = refl;
  }

  -- Whatever lines the feeds of the program receive, in whatever order with its rounds and with what
  -- happens to its server, where the network interface gives a connection to the address that it
  -- names: the container of the aircraft is sound, that is, its map and its vector agree and no
  -- aircraft is overdue; no aircraft is higher than the configuration allows; at most three clients
  -- are connected, no address twice, and they are counted right; and the position is not locked.
  pub run-of_configuration :
      (re : Regexes) (utc : Tm) (c : Configuration W P) (es : List (Event W S))
      → All (IsPossible c.max_height) es
      → let v = run re c.max_height es (of_configuration utc c) in
        IsSound v.aircraft_data
        × All (IsLow c.max_height) v.aircraft_data.container
        × (v.server.active ≡ live v.server.connections)
        × (v.server.active ≤ max_clients)
        × IsDistinct v.server.connections
        × (v.gps_data.position_locked ≡ false)
  run-of_configuration re utc c es p =
      let v = run re c.max_height es (of_configuration utc c) in
      let s = run-IsSane c.max_height re es _ p (of_configuration-IsSane utc c) in
      (
        s.aircraft.sound,
        s.aircraft.low,
        s.server.counted,
        omega (arith, s.server.counted, s.server.sized, live-le-length v.server.connections),
        s.server.distinct,
        s.unlocked,
      )
