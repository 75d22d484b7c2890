-- ===== src/Feed/Parser/SbsParser/Message.antt =====
-- What the parser makes of a whole message.
use virtual_flight_radar_bac.Common.{
  ℕ, suc, ◌-◌, ◌≡◌, refl, ap, Option, none, some, List, [], ◌∷◌, ◌++◌, arith, length, take, drop,
  All, Option-cases, inl, inr, if◌then◌else◌,
}
use virtual_flight_radar_bac.Common.Int.{ℤ, leb_ℤ}
use virtual_flight_radar_bac.Common.Text.{Str, codes, find_char}
use virtual_flight_radar_bac.Double.{Double}
use virtual_flight_radar_bac.Math.{double_to_int, feet_2_m}
use virtual_flight_radar_bac.Math.Checksum.{Lacks}
use virtual_flight_radar_bac.TimeStamp
use virtual_flight_radar_bac.TimeStamp.{Clock, hh_mm_ss_fff, ◌>>=◌}
use virtual_flight_radar_bac.Object.Position.{Position}
use virtual_flight_radar_bac.Object.Aircraft
use virtual_flight_radar_bac.Object.Aircraft.{Aircraft, transponder, powered_aircraft, id_icao}
use virtual_flight_radar_bac.Feed.Parser.GpsParser.{stod}
use virtual_flight_radar_bac.Feed.Parser.SbsParser.{
  State, is_position_message, parse_field, fields, finish, unpack,
}

find_char-first : (c : ℕ) (s t : Str) → Lacks c s → find_char c (s ++ c ∷ t) ≡ some (length s)
unfolding find_char
find_char-first c [] t h = ground arith
find_char-first c (d ∷ s) t h = ground (arith, h.0, find_char-first c s t h.1)

take-first : (s t : Str) → take (length s) (s ++ t) ≡ s
take-first [] t = refl
take-first (c ∷ s) t = ap (λ r. c ∷ r) (take-first s t)

drop-first : (c : ℕ) (s t : Str) → drop (suc (length s)) (s ++ c ∷ t) ≡ t
drop-first c [] t = refl
drop-first c (d ∷ s) t = drop-first c s t

-- Texts with a comma behind each, and then the rest.
abbrev pub joined : List Str → Str → Str
joined [] rest = rest
joined (f ∷ fs) rest = f ++ b',' ∷ joined fs rest

-- A report of the kind 3, and what stands behind its first sixteen fields.
abbrev pub message_of : List Str → Str → Str
message_of fs rest = codes "MSG,3," ++ joined fs rest

module _ {W : Type 0} ⦃d : Double W⦄ where
  -- The fields one after another, with the number that each has where the last one has 15.
  read_all : Clock → List Str → State W → Option (State W × ℕ)
  read_all clock [] s = some (s, 0)
  read_all clock (f ∷ fs) s = elim (parse_field clock (15 - length fs) f s) [
    | none ↦ none
    | some s' ↦ read_all clock fs s'
  ]

  fields-joined :
      (clock : Clock) (fs : List Str) (rest : Str) (s : State W)
      → All (Lacks b',') fs
      → fields clock (length fs) (joined fs rest) s ≡ read_all clock fs s
  unfolding fields read_all
  fields-joined clock [] rest s h = refl
  fields-joined clock (f ∷ fs) rest s h =
      let found = find_char-first b',' f (joined fs rest) h.0 in
      elim (Option-cases (parse_field clock (15 - length fs) f s)) [
        | inl bad ↦ rw (found, fields, take-first f (b',' ∷ joined fs rest), bad, read_all) refl
        | inr (s', good) ↦
            rw
              (
                found,
                fields,
                take-first f (b',' ∷ joined fs rest),
                good,
                read_all,
                drop-first b',' f (joined fs rest),
              )
              (fields-joined clock fs rest s' h.1)
      ]

  -- The position that three texts spell.
  abbrev pub position_of : Str → Str → Str → Option (Position W)
  position_of f11 f14 f15 = do
    feet ← stod f11
    latitude ← stod f14
    longitude ← stod f15
    some (record {
      latitude = latitude;
      longitude = longitude;
      altitude = double_to_int (d.mul feet feet_2_m);
    })

  read_all-fields :
      (clock : Clock) (f2 f3 f4 f5 f6 f7 f8 f9 f10 f11 f12 f13 f14 f15 : Str) (p : Position W)
      (a : Aircraft W)
      → read_all clock
          (f2 ∷ f3 ∷ f4 ∷ f5 ∷ f6 ∷ f7 ∷ f8 ∷ f9 ∷ f10 ∷ f11 ∷ f12 ∷ f13 ∷ f14 ∷ f15 ∷ [])
          (p, a)
        ≡ (TimeStamp.make clock f7 hh_mm_ss_fff >>= λ t.
            position_of f11 f14 f15 >>= λ q. some ((q, record a { id = f4; time_stamp = t }), 0))
  unfolding read_all parse_field
  read_all-fields clock f2 f3 f4 f5 f6 f7 f8 f9 f10 f11 f12 f13 f14 f15 p a = ground arith

  abbrev pub is_low : ℤ → Option (Aircraft W) → Option (Aircraft W)
  is_low max_height none = none
  is_low max_height (some b) = if leb_ℤ b.position.altitude max_height then some b else none

  -- A message of the kind 3 whose fields 2 to 15 are given, none of them with a comma: it is accepted
  -- exactly when the time in field 7 and the numbers in the fields 11, 14 and 15 can be read and the
  -- altitude is not above the height that is set, and it makes of the object a transponder target
  -- with the id in field 4 at this time and place; the other fields do not count.
  pub unpack-message_of :
      (max_height : ℤ) (clock : Clock) (garbage : Position W) (a : Aircraft W)
      (f2 f3 f4 f5 f6 f7 f8 f9 f10 f11 f12 f13 f14 f15 rest : Str)
      → let fs = f2 ∷ f3 ∷ f4 ∷ f5 ∷ f6 ∷ f7 ∷ f8 ∷ f9 ∷ f10 ∷ f11 ∷ f12 ∷ f13 ∷ f14 ∷ f15 ∷ [] in
        All (Lacks b',') fs
        → unpack max_height clock garbage (message_of fs rest) a
          ≡ is_low max_height (
              TimeStamp.make clock f7 hh_mm_ss_fff >>= λ t. position_of f11 f14 f15 >>= λ p.
              some (record a {
                id = f4;
                time_stamp = t;
                position = p;
                target_type = transponder;
                aircraft_type = powered_aircraft;
                id_type = id_icao;
              }))
  unfolding unpack is_position_message finish Aircraft.set_id_type Aircraft.set_aircraft_type
  unpack-message_of max_height clock garbage a f2 f3 f4 f5 f6 f7 f8 f9 f10 f11 f12 f13 f14 f15 rest
        h =
      let fs = f2 ∷ f3 ∷ f4 ∷ f5 ∷ f6 ∷ f7 ∷ f8 ∷ f9 ∷ f10 ∷ f11 ∷ f12 ∷ f13 ∷ f14 ∷ f15 ∷ [] in
      rw
        (
          find_char-first b',' f2
              (joined (f3 ∷ f4 ∷ f5 ∷ f6 ∷ f7 ∷ f8 ∷ f9 ∷ f10 ∷ f11 ∷ f12 ∷ f13 ∷ f14 ∷ f15 ∷ [])
                rest)
              h.0,
          is_position_message,
          fields-joined clock fs rest (garbage, a) h,
          read_all-fields clock f2 f3 f4 f5 f6 f7 f8 f9 f10 f11 f12 f13 f14 f15 garbage a,
        )
        (ground arith)
