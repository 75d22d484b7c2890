-- ===== src/Feed/Parser/SbsParser.antt =====
-- src/feed/parser/SbsParser.cpp. `none` is `false`; the caller then drops the object.
pub mod Fields
pub mod Message
use virtual_flight_radar_bac.Common.{
  ℕ, zero, suc, ◌+◌, ◌-◌, Bool, true, false, ◌&&◌, Option, none, some, List, [], ◌∷◌, ltb, ◌==◌,
  if◌then◌else◌, length, take, drop, get_elem?,
}
use virtual_flight_radar_bac.Common.Int.{ℤ, pos, leb_ℤ}
use virtual_flight_radar_bac.Common.Text.{Str, find_char}
use virtual_flight_radar_bac.Double.{Double}
use virtual_flight_radar_bac.Math.{double_to_int, feet_2_m}
use virtual_flight_radar_bac.TimeStamp
use virtual_flight_radar_bac.TimeStamp.{Clock, hh_mm_ss_fff, ◌>>=◌}
use virtual_flight_radar_bac.Object.Position.{Position}
use virtual_flight_radar_bac.Object.Aircraft
use virtual_flight_radar_bac.Object.Aircraft.{Aircraft, transponder, powered_aircraft, id_icao}
use virtual_flight_radar_bac.Feed.Parser.GpsParser.{stod}

-- The first guard: a comma from place 6 on, and '3' at place 4.
unfoldable pub is_position_message : Str → Bool
is_position_message sentence = elim (find_char b',' (drop 6 sentence)) [
  | none ↦ false
  | some k ↦ elim (get_elem? sentence 4) [ none ↦ false | some c ↦ c == b'3' ]
]

abbrev pub State : Type 0 → Type 0
State W = Position W × Aircraft W

-- The numbers of the fields.
abbrev sbs_field_id : ℕ
sbs_field_id = 4

abbrev sbs_field_time : ℕ
sbs_field_time = 7

abbrev sbs_field_alt : ℕ
sbs_field_alt = 11

abbrev sbs_field_lat : ℕ
sbs_field_lat = 14

abbrev sbs_field_lon : ℕ
sbs_field_lon = 15

module _ {W : Type 0} ⦃d : Double W⦄ where
  -- `parseField`. SBS_FIELD_ID, TIME, ALT, LAT and LON are 4, 7, 11, 14 and 15.
  unfoldable pub parse_field : Clock → ℕ → Str → State W → Option (State W)
  parse_field clock nr field (p, a) =
      if nr == sbs_field_id
      then some (p, record a { id = field })
      else if nr == sbs_field_time
      then (TimeStamp.make clock field hh_mm_ss_fff >>= λ t. some (p, record a { time_stamp = t }))
      else if nr == sbs_field_alt
      then (stod field >>= λ w. some (record p { altitude = double_to_int (d.mul w feet_2_m) }, a))
      else if nr == sbs_field_lat
      then (stod field >>= λ w. some (record p { latitude = w }, a))
      else if nr == sbs_field_lon
      then (stod field >>= λ w. some (record p { longitude = w }, a))
      else some (p, a)

  -- The `while` loop over what stands from `p` on, with the number of fields up to 16 as `left`;
  -- with the state it gives how many were not read.
  unfoldable pub fields : Clock → ℕ → Str → State W → Option (State W × ℕ)
  unfolding parse_field
  fields clock zero rest s = some (s, 0)
  fields clock (suc left) rest s = elim (find_char b',' rest) [
    | none ↦ some (s, suc left)
    | some k ↦ elim (parse_field clock (15 - left) (take k rest) s) [
      | none ↦ none
      | some s' ↦ fields clock left (drop (suc k) rest) s'
    ]
  ]

  -- The assignments after the loop, and the result. `max_height` is `s_maxHeight`.
  unfoldable pub finish : ℤ → State W × ℕ → Option (Aircraft W)
  finish max_height ((p, a), left) =
      let a' =
        record (Aircraft.set_id_type (Aircraft.set_aircraft_type a powered_aircraft) id_icao) {
          position = p;
          target_type = transponder;
        } in
      if (left == 0) && leb_ℤ p.altitude max_height then some a' else none

  -- `pos` is not initialised: it starts as some `garbage`.
  unfoldable pub unpack : ℤ → Clock → Position W → Str → Aircraft W → Option (Aircraft W)
  unpack max_height clock garbage sentence a =
      if is_position_message sentence
      then elim (fields clock 14 (drop 6 sentence) (garbage, a)) [
        | none ↦ none
        | some r ↦ finish max_height r
      ]
      else none
