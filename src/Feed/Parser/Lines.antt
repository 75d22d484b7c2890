-- ===== src/Feed/Parser/Lines.antt =====
-- What the parsers of NMEA sentences keep of a line.
use virtual_flight_radar_bac.Common.{◌≡◌, inl, inr, true, some, arith, Option-cases}
use virtual_flight_radar_bac.Common.Text.{Str}
use virtual_flight_radar_bac.Double.{Double}
use virtual_flight_radar_bac.Math.{double_to_int}
use virtual_flight_radar_bac.TimeStamp.{Clock}
use virtual_flight_radar_bac.Object.Base
use virtual_flight_radar_bac.Object.Position.{Position}
use virtual_flight_radar_bac.Object.GpsPosition.{GpsPosition}
use virtual_flight_radar_bac.Object.Atmosphere
use virtual_flight_radar_bac.Object.Atmosphere.{Atmosphere}
use virtual_flight_radar_bac.Object.Wind
use virtual_flight_radar_bac.Object.Wind.{Wind}
use virtual_flight_radar_bac.Feed.Parser.Nmea.{checksum_matches}
use virtual_flight_radar_bac.Feed.Parser.Regex.{Match, Regexes}
use virtual_flight_radar_bac.Feed.Parser.GpsParser
use virtual_flight_radar_bac.Feed.Parser.GpsParser.{match_position}
use virtual_flight_radar_bac.Feed.Parser.WindParser
use virtual_flight_radar_bac.Feed.Parser.AtmosphereParser

pub unpack_wind-line :
    (s : Str) (w u : Wind)
    → WindParser.unpack s w ≡ some u
    → (checksum_matches s ≡ some true) × (u.serialized ≡ s)
unfolding WindParser.unpack Wind.set_serialized Base.set_serialized
unpack_wind-line s w u e = ground arith

module _ {W : Type 0} ⦃d : Double W⦄ where
  pub unpack_atmosphere-line :
      (s : Str) (a b : Atmosphere W)
      → AtmosphereParser.unpack s a ≡ some b
      → (checksum_matches s ≡ some true) × (b.serialized ≡ s)
  unfolding AtmosphereParser.unpack Atmosphere.set_serialized Base.set_serialized
  unpack_atmosphere-line s a b e = ground arith

  match_position-altitude :
      (m : Match) (p : Position W)
      → match_position m ≡ some p
      → (w : W) × (p.altitude ≡ double_to_int w)
  unfolding match_position
  match_position-altitude m p e = elim (Option-cases (GpsParser.stod {W = W} (m 9))) [
    | inl bad ↦ absurd (ground (arith, bad))
    | inr (w, read) ↦ (w, ground (arith, read))
  ]

  pub unpack_gps-altitude :
      (re : Regexes) (clock : Clock) (s : Str) (a b : GpsPosition W)
      → GpsParser.unpack re clock s a ≡ some b
      → (w : W) × (b.position.altitude ≡ double_to_int w)
  unfolding GpsParser.unpack GpsParser.parse_position
  unpack_gps-altitude re clock s a b e = elim (Option-cases (re.gpgga s)) [
    | inl bad ↦ absurd (ground (arith, bad))
    | inr (m, found) ↦ elim (Option-cases (match_position {W = W} m)) [
      | inl bad ↦ absurd (ground (arith, found, bad))
      | inr (p, read) ↦
          let (w, same) = match_position-altitude m p read in (w, ground (arith, found, read, same))
    ]
  ]
