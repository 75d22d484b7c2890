-- ===== src/Feed/Parser/WindParser.antt =====
-- src/feed/parser/WindParser.cpp. `none` is `false`; the caller then drops the object.
use virtual_flight_radar_bac.Common.{true, false, Option, none, some, if◌then◌else◌}
use virtual_flight_radar_bac.Common.Text.{Str, codes, contains}
use virtual_flight_radar_bac.Object.Wind
use virtual_flight_radar_bac.Object.Wind.{Wind}
use virtual_flight_radar_bac.Feed.Parser.Nmea.{checksum_matches}

unfoldable pub unpack : Str → Wind → Option Wind
unpack sentence wind = elim (checksum_matches sentence) [
  | none ↦ none
  | some false ↦ none
  | some true ↦
      if contains (codes "MWV") sentence then some (Wind.set_serialized wind sentence) else none
]
