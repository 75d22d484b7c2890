-- ===== src/Tests/Feeds.antt =====
-- Parsing what the feeds receive.
use virtual_flight_radar_bac.Common.{
  ℕ, ◌≡◌, refl, true, none, some, List, [], ◌∷◌, arith, get_elem?,
}
use virtual_flight_radar_bac.Common.Int.{ℤ, pos, negsuc}
use virtual_flight_radar_bac.Common.Text.{Str, codes, substr, stoi, find_char}
use virtual_flight_radar_bac.TimeStamp.{Clock, make, parts, hh_mm_ss_fff, ◌>>=◌}
use virtual_flight_radar_bac.Feed.Parser.SbsParser.Message.{
  message_of, is_low, position_of, unpack-message_of,
}
use virtual_flight_radar_bac.Object.Position.{Position}
use virtual_flight_radar_bac.Object.Aircraft
use virtual_flight_radar_bac.Object.Aircraft.{Aircraft, flarm, transponder}
use virtual_flight_radar_bac.Data.Processor.Sentence.{sentence}
use virtual_flight_radar_bac.Math.{double_to_int, dm_to_deg}
use virtual_flight_radar_bac.Feed.Parser.Regex.{Regexes}
use virtual_flight_radar_bac.Feed.Parser.Nmea.{checksum_matches}
use virtual_flight_radar_bac.Feed.Parser.Nmea.RoundTrip.{checksum_matches-sentence}
use virtual_flight_radar_bac.Feed.Parser.GpsParser.{coordinate}
use virtual_flight_radar_bac.Feed.Parser.SbsParser
use virtual_flight_radar_bac.Feed.Parser.SbsParser.Fields.{unpack-garbage}
use virtual_flight_radar_bac.Feed.Parser.AprsParser
use virtual_flight_radar_bac.Feed.Parser.Reports.{IsAprsReport, unpack_aprs-IsAprsReport}
use virtual_flight_radar_bac.Tests.Sample.{whole, place, glider}

checksum_matches-sentence_example : checksum_matches (sentence (codes "$PFLAU,,,*")) ≡ some true
checksum_matches-sentence_example =
    checksum_matches-sentence b'$' (codes "PFLAU,,,") (ground arith) (omega arith)

abbrev pub clock : Clock
clock = record { day = 58000; now = pos 80000000 }

abbrev pub message : Str
message =
    codes "MSG,3,0,0,AAAAAA,0,2017/02/16,20:11:30.772,2017/02/16,20:11:30.772,,100,,,49,8,,,,,,0"

unpack-message_of_example :
    SbsParser.unpack
      (pos 5000)
      clock
      place
      (message_of
        (codes "0"
          ∷ codes "0"
          ∷ codes "AAAAAA"
          ∷ codes "0"
          ∷ codes "2017/02/16"
          ∷ codes "20:11:30.772"
          ∷ codes "2017/02/16"
          ∷ codes "20:11:30.772"
          ∷ []
          ∷ codes "100"
          ∷ []
          ∷ []
          ∷ codes "49"
          ∷ codes "8"
          ∷ [])
        (codes ",,,,,0"))
      glider
    ≡ is_low (pos 5000) (
        make clock (codes "20:11:30.772") hh_mm_ss_fff >>= λ t.
        position_of (codes "100") (codes "49") (codes "8") >>= λ p. some (record glider {
          id = codes "AAAAAA";
          time_stamp = t;
          position = p;
          target_type = transponder;
          aircraft_type = 8;
          id_type = 1;
        }))
unpack-message_of_example =
    unpack-message_of (pos 5000) clock place glider (codes "0") (codes "0") (codes "AAAAAA")
      (codes "0") (codes "2017/02/16") (codes "20:11:30.772") (codes "2017/02/16")
      (codes "20:11:30.772") [] (codes "100") [] [] (codes "49") (codes "8") (codes ",,,,,0")
      (ground arith)

abbrev pub elsewhere : Position ℤ
elsewhere = record { latitude = pos 1; longitude = pos 2; altitude = pos 3 }

unpack-garbage_example :
    SbsParser.unpack (pos 100000000) clock place message glider
    ≡ SbsParser.unpack (pos 100000000) clock elsewhere message glider
unpack-garbage_example = unpack-garbage (pos 100000000) clock place elsewhere message glider

abbrev unpacked : Aircraft ℤ
unpacked = record {
  base = record { last_priority = 1; update_age = 0; serialized = [] };
  id = codes "AAAAAA";
  id_type = 1;
  aircraft_type = 8;
  target_type = transponder;
  position = record { latitude = pos 49; longitude = pos 8; altitude = pos 304805 };
  movement = record { gnd_speed = pos 30; heading = pos 90; climb_rate = pos 1 };
  time_stamp = record { value = pos 72690772; day = 58000 };
  full_info = true;
}

accepts_message : SbsParser.unpack (pos 100000000) clock place message glider ≡ some unpacked
unfolding SbsParser.unpack SbsParser.is_position_message SbsParser.finish SbsParser.fields
    SbsParser.parse_field find_char make parts substr stoi Aircraft.set_id_type
    Aircraft.set_aircraft_type double_to_int
accepts_message = refl

-- Expressions that split a report at its blanks into nine groups.
abbrev pub groups : List Str → ℕ → Str
groups l n = elim (get_elem? l n) [ none ↦ [] | some s ↦ s ]

abbrev group : ℕ → Str
group = groups (
    []
    ∷ codes "112233"
    ∷ codes "4"
    ∷ codes "S"
    ∷ codes "8"
    ∷ codes "E"
    ∷ codes "90"
    ∷ codes "30"
    ∷ codes "100"
    ∷ codes "id06DDA85C"
    ∷ [])

abbrev ext_group : ℕ → Str
ext_group = groups ([] ∷ codes "06" ∷ codes "DDA85C" ∷ codes "5" ∷ [])

abbrev pub expressions : Regexes
expressions = record { aprs = λ s. some group; aprs_ext = λ s. some ext_group; gpgga = λ s. none }

abbrev pub report : Str
report = codes "FLRDDA85C>APRS"

abbrev reported_glider : Aircraft ℤ
reported_glider = record {
  base = record { last_priority = 1; update_age = 0; serialized = [] };
  id = codes "DDA85C";
  id_type = 2;
  aircraft_type = 1;
  target_type = flarm;
  position = record { latitude = negsuc 3; longitude = pos 8; altitude = pos 304805 };
  movement = record { gnd_speed = pos 15433320; heading = pos 90; climb_rate = pos 2540 };
  time_stamp = record { value = pos 40953000; day = 58000 };
  full_info = true;
}

accepts_report :
    AprsParser.unpack expressions (pos 100000000) clock report glider ≡ some reported_glider
unfolding AprsParser.unpack AprsParser.parse_match AprsParser.parse_position
    AprsParser.parse_time_stamp AprsParser.parse_comment AprsParser.parse_movement
    AprsParser.movement_of AprsParser.id_type_of AprsParser.aircraft_type_of coordinate dm_to_deg
    double_to_int make parts substr stoi Aircraft.set_id_type Aircraft.set_aircraft_type
accepts_report = refl

unpack_aprs-IsAprsReport_example : IsAprsReport (pos 100000000) reported_glider
unpack_aprs-IsAprsReport_example =
    unpack_aprs-IsAprsReport expressions (pos 100000000) clock report glider reported_glider
      accepts_report
