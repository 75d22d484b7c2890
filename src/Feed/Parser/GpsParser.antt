-- ===== src/Feed/Parser/GpsParser.antt =====
-- src/feed/parser/GpsParser.cpp. `none` is `false`; the caller then drops the object.
use virtual_flight_radar_bac.Common.{
  ℕ, ◌-◌, ◌%◌, true, false, Option, none, some, ltb, if◌then◌else◌,
}
use virtual_flight_radar_bac.Common.Int.{ℤ, pos, negsuc}
use virtual_flight_radar_bac.Common.Text.{Str, codes, str_eq, stoi}
use virtual_flight_radar_bac.Double.{Double}
use virtual_flight_radar_bac.Math.{double_to_int, dm_to_deg}
use virtual_flight_radar_bac.TimeStamp
use virtual_flight_radar_bac.TimeStamp.{Clock, hhmmss, ◌>>=◌}
use virtual_flight_radar_bac.Object.Position.{Position}
use virtual_flight_radar_bac.Object.GpsPosition.{GpsPosition}
use virtual_flight_radar_bac.Feed.Parser.Nmea.{checksum_matches}
use virtual_flight_radar_bac.Feed.Parser.Regex.{Match, Regexes}

-- `static_cast` of an `int` to `int8_t` and to `uint8_t`.
unfoldable pub to_int8 : ℤ → ℤ
to_int8 (pos n) = let m = n % 256 in if ltb m 128 then pos m else negsuc (255 - m)
to_int8 (negsuc n) = let m = 255 - n % 256 in if ltb m 128 then pos m else negsuc (255 - m)

unfoldable pub to_uint8 : ℤ → ℕ
to_uint8 (pos n) = n % 256
to_uint8 (negsuc n) = 255 - n % 256

-- The groups of a match.
abbrev re_gga_time : ℕ
re_gga_time = 1

abbrev re_gga_lat : ℕ
re_gga_lat = 2

abbrev re_gga_lat_dir : ℕ
re_gga_lat_dir = 3

abbrev re_gga_lon : ℕ
re_gga_lon = 4

abbrev re_gga_lon_dir : ℕ
re_gga_lon_dir = 5

abbrev re_gga_fix : ℕ
re_gga_fix = 6

abbrev re_gga_sat : ℕ
re_gga_sat = 7

abbrev re_gga_dil : ℕ
re_gga_dil = 8

abbrev re_gga_alt : ℕ
re_gga_alt = 9

abbrev re_gga_geoid : ℕ
re_gga_geoid = 10

module _ {W : Type 0} ⦃d : Double W⦄ where
  -- `std::stod` without its second result.
  abbrev pub stod : Str → Option W
  stod s = elim (d.stod s) [ none ↦ none | some (w, n) ↦ some w ]

  -- A coordinate of a match: its value, negative where the direction is the given one.
  unfoldable pub coordinate : Str → Str → Str → Option W
  coordinate value direction negative = do
    w ← stod value
    let deg = dm_to_deg w
    some (if str_eq direction negative then d.opposite deg else deg)

  -- `parsePosition` up to `set_position`.
  unfoldable pub match_position : Match → Option (Position W)
  match_position m = do
    latitude ← coordinate (m re_gga_lat) (m re_gga_lat_dir) (codes "S")
    longitude ← coordinate (m re_gga_lon) (m re_gga_lon_dir) (codes "W")
    altitude ← stod (m re_gga_alt)
    some (record { latitude = latitude; longitude = longitude; altitude = double_to_int altitude })

  unfoldable pub parse_position : Clock → Match → GpsPosition W → Option (GpsPosition W)
  parse_position clock m position = do
    p ← match_position m
    stamp ← TimeStamp.make clock (m re_gga_time) hhmmss
    fix ← stoi 10 (m re_gga_fix)
    satellites ← stoi 10 (m re_gga_sat)
    dilution ← stod (m re_gga_dil)
    geoid ← stod (m re_gga_geoid)
    some (record position {
      position = p;
      time_stamp = stamp;
      fix_quality = to_int8 fix;
      nr_of_satellites = to_uint8 satellites;
      dilution = dilution;
      geoid = geoid;
    })

  unfoldable pub unpack : Regexes → Clock → Str → GpsPosition W → Option (GpsPosition W)
  unpack re clock sentence position = elim (checksum_matches sentence) [
    | none ↦ none
    | some false ↦ none
    | some true ↦ elim (re.gpgga sentence) [
      | none ↦ none
      | some m ↦ parse_position clock m position
    ]
  ]
