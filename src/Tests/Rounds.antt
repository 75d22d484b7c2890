-- ===== src/Tests/Rounds.antt =====
-- Reports and the rounds that send them.
use virtual_flight_radar_bac.Common.{ℕ, ◌≡◌, refl, inl, some, true, [], ◌++◌, arith}
use virtual_flight_radar_bac.Common.Int.{ℤ}
use virtual_flight_radar_bac.Common.Text
use virtual_flight_radar_bac.Math
use virtual_flight_radar_bac.Feed.Parser.Nmea
use virtual_flight_radar_bac.Common.Text.{Str, codes, contains}
use virtual_flight_radar_bac.Object.Wind
use virtual_flight_radar_bac.Object.Base
use virtual_flight_radar_bac.Data.WindData
use virtual_flight_radar_bac.Data.AircraftData.{update, of_max_distance}
use virtual_flight_radar_bac.Data.AircraftData.Index.{find}
use virtual_flight_radar_bac.Data.AircraftData.Places.{IsValid, lookup}
use virtual_flight_radar_bac.Data.AircraftData.Update.{merged}
use virtual_flight_radar_bac.Feed.Feeds.{process_wind}
use virtual_flight_radar_bac.Feed.Parser.Nmea.{checksum_matches}
use virtual_flight_radar_bac.Vfrb.{Vfrb, message, of_configuration}
use virtual_flight_radar_bac.Vfrb.Relay.{
  StandsIn, sentence_of, processor_of, message-update, message-wind,
}
use virtual_flight_radar_bac.Tests.Sample.{whole, glider}
use virtual_flight_radar_bac.Tests.Program.{utc}
use virtual_flight_radar_bac.Tests.Whole.{configuration, receiver}

abbrev pub new_program : Vfrb ℤ ℕ
new_program = of_configuration utc configuration

new_program-IsValid : IsValid new_program.aircraft_data
unfolding of_configuration of_max_distance find
new_program-IsValid = record { unique = tt; placed = λ k. refl }

new_program-takes : (update new_program.aircraft_data glider).1 ≡ true
unfolding of_configuration of_max_distance find update
new_program-takes = refl

message-update_example :
    StandsIn
      (sentence_of
        (processor_of new_program)
        (merged (lookup new_program.aircraft_data glider.id) glider))
      (message utc
        (record new_program { aircraft_data = (update new_program.aircraft_data glider).0 })).1
message-update_example =
    message-update utc new_program glider new_program-IsValid refl new_program-takes

abbrev wind_line : Str
wind_line = codes "$WIMWV,242.8,R,6.9,N,A*20\r\n"

wind_line-sum : checksum_matches wind_line ≡ some true
unfolding checksum_matches Text.substr Nmea.after_star Text.rfind_char Text.stoi Math.checksum
wind_line-sum = refl

wind_line-mwv : contains (codes "MWV") wind_line ≡ true
unfolding contains
wind_line-mwv = refl

wind_line-turn : new_program.wind_data.wind.last_priority ≡ 0
unfolding of_configuration Wind.of_priority Base.of_priority
wind_line-turn = refl

message-wind_example :
    let v = record new_program {
      wind_data = (process_wind receiver wind_line new_program.wind_data).0;
    } in
    let calm = record new_program {
      wind_data = (WindData.get_serialized new_program.wind_data []).0;
    } in
    ((message utc v).1 ≡ (message utc calm).1 ++ wind_line)
    × ((message utc (message utc v).0).1 ≡ (message utc (message utc calm).0).1)
message-wind_example =
    message-wind utc utc new_program receiver wind_line wind_line-sum wind_line-mwv
      (inl (omega (arith, wind_line-turn)))
