-- ===== src/Vfrb.antt =====
-- src/VFRB.cpp: the containers and the server together, and a round of the main loop. A call of a
-- round that throws would end the loop; none is modelled to. A shutdown ends it between two rounds.
pub mod Quiet
pub mod System
pub mod Relay
pub mod Wire
pub mod Clients
pub mod Program
use virtual_flight_radar_bac.Common.{ℕ, ◌/◌, ◌%◌, Bool, List, [], ◌∷◌, ◌++◌}
use virtual_flight_radar_bac.Common.Text.{Str, codes}
use virtual_flight_radar_bac.Common.Print.{show_nat}
use virtual_flight_radar_bac.Double.{Double}
use virtual_flight_radar_bac.Object.Atmosphere
use virtual_flight_radar_bac.Object.Wind
use virtual_flight_radar_bac.Data.Processor.GpsProcessor.{Tm}
use virtual_flight_radar_bac.Data.AircraftData
use virtual_flight_radar_bac.Data.AircraftData.{AircraftData}
use virtual_flight_radar_bac.Data.GpsData
use virtual_flight_radar_bac.Data.GpsData.{GpsData}
use virtual_flight_radar_bac.Data.AtmosphereData
use virtual_flight_radar_bac.Data.AtmosphereData.{AtmosphereData}
use virtual_flight_radar_bac.Data.WindData
use virtual_flight_radar_bac.Data.WindData.{WindData}
use virtual_flight_radar_bac.Server
use virtual_flight_radar_bac.Server.{Server, Answer}
use virtual_flight_radar_bac.Config.{Configuration}

pub record Vfrb (W S : Type 0) : Type 0 where
  pub aircraft_data : AircraftData W
  pub atmosphere_data : AtmosphereData W
  pub gps_data : GpsData W
  pub wind_data : WindData
  pub server : Server S

module _ {W S : Type 0} ⦃d : Double W⦄ where
  -- The constructor up to `createFeeds`.
  unfoldable pub of_configuration : {P : Type 0} → Tm → Configuration W P → Vfrb W S
  of_configuration utc c = record {
    aircraft_data = AircraftData.of_max_distance c.max_distance;
    atmosphere_data = record { atmosphere = Atmosphere.of_pressure c.atm_pressure 0 };
    gps_data = GpsData.of_position utc c.position c.ground_mode;
    wind_data = record { wind = Wind.of_priority 0 };
    server = Server.initial;
  }

  -- The body of the loop up to `send`: the text of a round.
  unfoldable pub message : Tm → Vfrb W S → Vfrb W S × Str
  message utc v =
      let aircraft_data =
        AircraftData.process_aircrafts v.aircraft_data (GpsData.get_position v.gps_data)
          (AtmosphereData.get_atm_pressure v.atmosphere_data) in
      let text = AircraftData.get_serialized aircraft_data [] in
      let (gps_data, text_gps) = GpsData.get_serialized utc v.gps_data text in
      let (atmosphere_data, text_atm) = AtmosphereData.get_serialized v.atmosphere_data text_gps in
      let (wind_data, text_wind) = WindData.get_serialized v.wind_data text_atm in
      (
        record {
          aircraft_data = aircraft_data;
          atmosphere_data = atmosphere_data;
          gps_data = gps_data;
          wind_data = wind_data;
          server = v.server;
        },
        text_wind,
      )

  -- A round of `serve`.
  unfoldable pub serve_round : (S → Str → Answer Bool) → Tm → Vfrb W S → Vfrb W S
  serve_round write utc v =
      let (v', text) = message utc v in record v' { server = Server.send write text v'.server }

  -- Rounds without a report between them, each with what the clock shows.
  unfoldable pub serve : (S → Str → Answer Bool) → List Tm → Vfrb W S → Vfrb W S
  unfolding serve_round
  serve write [] v = v
  serve write (utc ∷ rest) v = serve write rest (serve_round write utc v)

-- `get_duration`, for a run of so many minutes.
unfoldable pub get_duration : ℕ → Str
get_duration minutes =
    show_nat 0 (minutes / 60 / 24)
    ++ codes " days, "
    ++ show_nat 0 (minutes / 60)
    ++ codes " hours, "
    ++ show_nat 0 (minutes % 60)
    ++ codes " minutes"
