-- ===== src/Feed/Parser/AprsParser.antt =====
-- src/feed/parser/AprsParser.cpp. `none` is `false`; the caller then drops the object.
use Prim.Native.Nat.{bit_and}
use virtual_flight_radar_bac.Common.{
  ℕ, ◌-◌, ◌/◌, Bool, true, false, Option, none, some, [], ◌∷◌, ◌==◌, if◌then◌else◌,
}
use virtual_flight_radar_bac.Common.Int.{ℤ, pos, negsuc, leb_ℤ}
use virtual_flight_radar_bac.Common.Text.{Str, codes, stoi}
use virtual_flight_radar_bac.Double.{Double}
use virtual_flight_radar_bac.Math.{double_to_int, feet_2_m, kts_2_ms, fpm_2_ms}
use virtual_flight_radar_bac.TimeStamp
use virtual_flight_radar_bac.TimeStamp.{Clock, hhmmss, ◌>>=◌}
use virtual_flight_radar_bac.Object.Aircraft
use virtual_flight_radar_bac.Object.Aircraft.{Aircraft, Movement, flarm}
use virtual_flight_radar_bac.Feed.Parser.Regex.{Match, Regexes}
use virtual_flight_radar_bac.Feed.Parser.GpsParser.{coordinate, stod}

-- The groups of a match, and those of the match of its comment.
abbrev re_aprs_time : ℕ
re_aprs_time = 1

abbrev re_aprs_lat : ℕ
re_aprs_lat = 2

abbrev re_aprs_lat_dir : ℕ
re_aprs_lat_dir = 3

abbrev re_aprs_lon : ℕ
re_aprs_lon = 4

abbrev re_aprs_lon_dir : ℕ
re_aprs_lon_dir = 5

abbrev re_aprs_head : ℕ
re_aprs_head = 6

abbrev re_aprs_gnd_spd : ℕ
re_aprs_gnd_spd = 7

abbrev re_aprs_alt : ℕ
re_aprs_alt = 8

abbrev re_aprs_com : ℕ
re_aprs_com = 9

abbrev re_aprs_com_type : ℕ
re_aprs_com_type = 1

abbrev re_aprs_com_id : ℕ
re_aprs_com_id = 2

abbrev re_aprs_com_cr : ℕ
re_aprs_com_cr = 3

-- The 32-bit pattern of an `int`.
abbrev pub pattern32 : ℤ → ℕ
pattern32 (pos n) = n
pattern32 (negsuc n) = 0xffffffff - n

-- The id type and the aircraft type that the two hexadecimal digits before the id hold.
unfoldable pub id_type_of : ℤ → ℕ
id_type_of z = bit_and (pattern32 z) 0x03

unfoldable pub aircraft_type_of : ℤ → ℕ
aircraft_type_of z = bit_and (pattern32 z) 0x7c / 4

is_comment : Str → Bool
is_comment [] = false
is_comment (c ∷ s) = c == b'#'

module _ {W : Type 0} where
  -- `parseComment`.
  unfoldable pub parse_comment : Match → Aircraft W → Option (Aircraft W)
  unfolding id_type_of aircraft_type_of
  parse_comment m a = do
    z ← stoi 16 (m re_aprs_com_type)
    some (
        Aircraft.set_aircraft_type
          (Aircraft.set_id_type (record a { id = m re_aprs_com_id }) (id_type_of z))
          (aircraft_type_of z))

  -- `parseTimeStamp`.
  unfoldable pub parse_time_stamp : Clock → Match → Aircraft W → Option (Aircraft W)
  parse_time_stamp clock m a = do
    t ← TimeStamp.make clock (m re_aprs_time) hhmmss
    some (record a { time_stamp = t })

module _ {W : Type 0} ⦃d : Double W⦄ where
  -- `parsePosition`. `max_height` is `s_maxHeight`.
  unfoldable pub parse_position : ℤ → Match → Aircraft W → Option (Aircraft W)
  parse_position max_height m a = do
    latitude ← coordinate (m re_aprs_lat) (m re_aprs_lat_dir) (codes "S")
    longitude ← coordinate (m re_aprs_lon) (m re_aprs_lon_dir) (codes "W")
    feet ← stod (m re_aprs_alt)
    let altitude = double_to_int (d.mul feet feet_2_m)
    if leb_ℤ altitude max_height
        then some (record a {
          position = record { latitude = latitude; longitude = longitude; altitude = altitude };
        })
        else none

  -- The movement, if all of its three parts are there.
  unfoldable pub movement_of : Match → Match → Option (Movement W)
  movement_of m ext = do
    heading ← stod (m re_aprs_head)
    speed ← stod (m re_aprs_gnd_spd)
    climb ← stod (ext re_aprs_com_cr)
    some (record {
      heading = heading;
      gnd_speed = d.mul speed kts_2_ms;
      climb_rate = d.mul climb fpm_2_ms;
    })

  -- `parseMovement` and `set_fullInfo` of its result.
  unfoldable pub parse_movement : Match → Match → Aircraft W → Aircraft W
  unfolding movement_of
  parse_movement m ext a = elim (movement_of m ext) [
    | none ↦ record a { full_info = false }
    | some move ↦ record a { movement = move; full_info = true }
  ]

  -- The position, the time stamp and the comment, in this order.
  unfoldable pub parse_match : Regexes → ℤ → Clock → Match → Aircraft W → Option (Aircraft W)
  parse_match re max_height clock m a = do
    b ← parse_position max_height m a
    c ← parse_time_stamp clock m b
    ext ← re.aprs_ext (m re_aprs_com)
    e ← parse_comment ext c
    some (record (parse_movement m ext e) { target_type = flarm })

  unfoldable pub unpack : Regexes → ℤ → Clock → Str → Aircraft W → Option (Aircraft W)
  unfolding is_comment
  unpack re max_height clock sentence a =
      if is_comment sentence
      then none
      else (re.aprs sentence >>= λ m. parse_match re max_height clock m a)
