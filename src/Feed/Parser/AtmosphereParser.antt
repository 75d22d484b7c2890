-- ===== src/Feed/Parser/AtmosphereParser.antt =====
-- src/feed/parser/AtmosphereParser.cpp. `none` is `false`; the caller then drops the object.
use virtual_flight_radar_bac.Common.{
  ℕ, ◌+◌, ◌-◌, ◌%◌, ◌^◌, true, false, Option, none, some, ◌==◌, if◌then◌else◌,
}
use virtual_flight_radar_bac.Common.Int.{pos}
use virtual_flight_radar_bac.Common.Text.{Str, codes, contains, find_char, rfind_char, substr}
use virtual_flight_radar_bac.Double.{Double}
use virtual_flight_radar_bac.Object.Atmosphere
use virtual_flight_radar_bac.Object.Atmosphere.{Atmosphere}
use virtual_flight_radar_bac.Feed.Parser.Nmea.{checksum_matches}

-- A position as a `size_t`, with `npos`, and the subtraction on `size_t`.
abbrev position_of : Option ℕ → ℕ
position_of none = 2 ^ 64 - 1
position_of (some i) = i

abbrev sub64 : ℕ → ℕ → ℕ
sub64 a b = (a + 2 ^ 64 - b) % 2 ^ 64

-- The text between the last comma before the first 'B' and the character before that 'B', and its
-- length; the exceptions of `substr` are those of the caller.
unfoldable pub pressure_field : Str → Option (Str × ℕ)
pressure_field sentence =
    let tmp_b = sub64 (position_of (find_char b'B' sentence)) 1 in
    elim (substr sentence 0 tmp_b) [
      | none ↦ none
      | some front ↦
          let tmp_s = (position_of (rfind_char b',' front) + 1) % 2 ^ 64 in
          let sub_len = sub64 tmp_b tmp_s in
          elim (substr sentence tmp_s sub_len) [ none ↦ none | some field ↦ some (field, sub_len) ]
    ]

module _ {W : Type 0} ⦃d : Double W⦄ where
  -- The pressure in hPa, if the whole field is a number.
  unfoldable pub pressure_of : Str → Option W
  unfolding pressure_field
  pressure_of sentence = elim (pressure_field sentence) [
    | none ↦ none
    | some (field, sub_len) ↦ elim (d.stod field) [
      | none ↦ none
      | some (value, num_idx) ↦
          if num_idx == sub_len then some (d.mul value (d.dec (pos 1000) 0)) else none
    ]
  ]

  unfoldable pub unpack : Str → Atmosphere W → Option (Atmosphere W)
  unpack sentence atmosphere = elim (checksum_matches sentence) [
    | none ↦ none
    | some false ↦ none
    | some true ↦
        if contains (codes "MDA") sentence
        then elim (pressure_of sentence) [
          | none ↦ none
          | some p ↦ some (record (Atmosphere.set_serialized atmosphere sentence) { pressure = p })
        ]
        else none
  ]
