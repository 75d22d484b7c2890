-- ===== src/Tests/Clients.antt =====
-- Clients with the feeds of the program.
use virtual_flight_radar_bac.Common.{
  ◌≡◌, refl, some, none, false, ◌&&◌, [], ◌∷◌, ◌++◌, if◌then◌else◌,
}
use virtual_flight_radar_bac.Common.Int.{ℤ, pos, negsuc}
use virtual_flight_radar_bac.Common.Text
use virtual_flight_radar_bac.Common.Text.{Str, codes}
use virtual_flight_radar_bac.Math
use virtual_flight_radar_bac.TimeStamp
use virtual_flight_radar_bac.Object.Base
use virtual_flight_radar_bac.Object.GpsPosition
use virtual_flight_radar_bac.Object.GpsPosition.{GpsPosition}
use virtual_flight_radar_bac.Data.GpsData
use virtual_flight_radar_bac.Data.GpsData.{is_position_good}
use virtual_flight_radar_bac.Feed.Parser.Regex.{Regexes}
use virtual_flight_radar_bac.Feed.Parser.Nmea
use virtual_flight_radar_bac.Feed.Parser.GpsParser
use virtual_flight_radar_bac.Feed.Factory.{gps_feed}
use virtual_flight_radar_bac.Client
use virtual_flight_radar_bac.Client.{success, running, sbs, gpsd, handle_read, read_actions}
use virtual_flight_radar_bac.Vfrb.{of_configuration}
use virtual_flight_radar_bac.Vfrb.Clients.{takes, handle_read-gps}
use virtual_flight_radar_bac.Tests.Sample.{whole}
use virtual_flight_radar_bac.Tests.Feeds.{clock, groups}
use virtual_flight_radar_bac.Tests.Whole.{receiver, moment}
use virtual_flight_radar_bac.Tests.Rounds.{new_program}

-- An expression that takes every sentence for this position.
abbrev gps_expressions : Regexes
gps_expressions = record {
  aprs = λ s. none;
  aprs_ext = λ s. none;
  gpgga = λ s. some (
      groups (
        []
        ∷ codes "112233"
        ∷ codes "4"
        ∷ codes "S"
        ∷ codes "8"
        ∷ codes "E"
        ∷ codes "1"
        ∷ codes "8"
        ∷ codes "1"
        ∷ codes "100"
        ∷ codes "48"
        ∷ []));
}

abbrev fix : GpsPosition ℤ
fix = record {
  base = record { last_priority = 1; update_age = 0; serialized = [] };
  position = record { latitude = negsuc 3; longitude = pos 8; altitude = pos 105 };
  geoid = pos 48;
  time_stamp = record { value = pos 40953000; day = 58000 };
  dilution = pos 1;
  nr_of_satellites = 8;
  fix_quality = pos 1;
}

abbrev sentence : Str
sentence = codes "$WIMWV,242.8,R,6.9,N,A*20\r\n"

accepts_fix : GpsParser.unpack gps_expressions clock sentence (GpsPosition.of_priority 1) ≡ some fix
unfolding GpsParser.unpack GpsParser.parse_position GpsParser.match_position GpsPosition.of_priority
    Nmea.checksum_matches Text.substr Nmea.after_star Text.rfind_char Text.stoi Math.checksum
    GpsParser.coordinate TimeStamp.make TimeStamp.parts Base.of_priority Math.dm_to_deg
    Math.double_to_int GpsParser.to_uint8 GpsParser.to_int8
accepts_fix = refl

abbrev gps_client : Client.Client
gps_client = record { kind = gpsd; state = running }

unlocked : new_program.gps_data.position_locked ≡ false
unfolding of_configuration GpsData.of_position
unlocked = refl

handle_read-gps_example :
    (handle_read
      (takes gps_expressions (pos 5000) moment)
      ((gps_feed, receiver) ∷ [])
      success
      sentence
      new_program
      gps_client).1
    ≡ (if new_program.gps_data.ground_mode
          && (GpsPosition.can_update fix new_program.gps_data.position && is_position_good fix)
        then ((Client.stop gps_client).0, (Client.stop gps_client).1 ++ read_actions gpsd)
        else (gps_client, read_actions gpsd))
handle_read-gps_example =
    handle_read-gps gps_expressions (pos 5000) moment receiver sentence new_program fix gps_client
      accepts_fix unlocked refl
