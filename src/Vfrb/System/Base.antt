-- ===== src/Vfrb/System/Base.antt =====
-- What the parsers leave of the object that they are given: its age.
use virtual_flight_radar_bac.Common.{
  ℕ, zero, suc, ◌-◌, ◌≡◌, ◌∙◌, inl, inr, some, arith, take, drop, Option-cases,
}
use virtual_flight_radar_bac.Common.Int.{ℤ}
use virtual_flight_radar_bac.Common.Text.{Str, find_char}
use virtual_flight_radar_bac.Double.{Double}
use virtual_flight_radar_bac.TimeStamp.{Clock}
use virtual_flight_radar_bac.Object.Position.{Position}
use virtual_flight_radar_bac.Object.Aircraft
use virtual_flight_radar_bac.Object.Aircraft.{Aircraft}
use virtual_flight_radar_bac.Feed.Parser.Regex.{Match, Regexes}
use virtual_flight_radar_bac.Feed.Parser.SbsParser
use virtual_flight_radar_bac.Feed.Parser.AprsParser
use virtual_flight_radar_bac.Feed.Parser.Reports.{parse_match-parts}

module _ {W : Type 0} ⦃d : Double W⦄ where
  parse_field-base :
      (clock : Clock) (nr : ℕ) (field : Str) (s t : SbsParser.State W)
      → SbsParser.parse_field clock nr field s ≡ some t
      → t.1.base ≡ s.1.base
  unfolding SbsParser.parse_field
  parse_field-base clock nr field s t e = ground arith

  fields-base :
      (clock : Clock) (left : ℕ) (rest : Str) (s : SbsParser.State W) (r : SbsParser.State W × ℕ)
      → SbsParser.fields clock left rest s ≡ some r
      → r.0.1.base ≡ s.1.base
  unfolding SbsParser.fields
  fields-base clock zero rest s r e = ground arith
  fields-base clock (suc left) rest s r e = elim (Option-cases (find_char b',' rest)) [
    | inl last ↦ ground (arith, last)
    | inr (k, found) ↦
        elim (Option-cases (SbsParser.parse_field clock (15 - left) (take k rest) s)) [
          | inl broken ↦ absurd (ground (arith, found, broken))
          | inr (t, read) ↦
              fields-base clock left (drop (suc k) rest) t r (ground (arith, found, read))
              ∙ parse_field-base clock (15 - left) (take k rest) s t read
        ]
  ]

  finish-base :
      (max_height : ℤ) (r : SbsParser.State W × ℕ) (b : Aircraft W)
      → SbsParser.finish max_height r ≡ some b
      → b.base ≡ r.0.1.base
  unfolding SbsParser.finish Aircraft.set_aircraft_type Aircraft.set_id_type
  finish-base max_height r b e = ground arith

  pub unpack_sbs-base :
      (max_height : ℤ) (clock : Clock) (garbage : Position W) (sentence : Str) (a b : Aircraft W)
      → SbsParser.unpack max_height clock garbage sentence a ≡ some b
      → b.base ≡ a.base
  unfolding SbsParser.unpack
  unpack_sbs-base max_height clock garbage sentence a b e =
      elim (Option-cases (SbsParser.fields clock 14 (drop 6 sentence) (garbage, a))) [
        | inl broken ↦ absurd (ground (arith, broken))
        | inr (r, read) ↦
            finish-base max_height r b (ground arith)
            ∙ fields-base clock 14 (drop 6 sentence) (garbage, a) r read
      ]

  parse_position-base :
      (max_height : ℤ) (m : Match) (a b : Aircraft W)
      → AprsParser.parse_position max_height m a ≡ some b
      → b.base ≡ a.base
  unfolding AprsParser.parse_position
  parse_position-base max_height m a b e = ground arith

  parse_time_stamp-base :
      (clock : Clock) (m : Match) (a b : Aircraft W)
      → AprsParser.parse_time_stamp clock m a ≡ some b
      → b.base ≡ a.base
  unfolding AprsParser.parse_time_stamp
  parse_time_stamp-base clock m a b e = ground arith

  parse_comment-base :
      (m : Match) (a b : Aircraft W) → AprsParser.parse_comment m a ≡ some b → b.base ≡ a.base
  unfolding AprsParser.parse_comment Aircraft.set_aircraft_type Aircraft.set_id_type
  parse_comment-base m a b e = ground arith

  parse_movement-base :
      (m ext : Match) (a : Aircraft W) → (AprsParser.parse_movement m ext a).base ≡ a.base
  unfolding AprsParser.parse_movement
  parse_movement-base m ext a = ground arith

  parse_match-base :
      (re : Regexes) (max_height : ℤ) (clock : Clock) (m : Match) (a b : Aircraft W)
      → AprsParser.parse_match re max_height clock m a ≡ some b
      → b.base ≡ a.base
  parse_match-base re max_height clock m a b e =
      let (a1, a2, a3, ext, e1, e2, e3, e4, whole) =
        parse_match-parts re max_height clock m a b e in
      ground (
        arith,
        whole,
        parse_movement-base m ext a3,
        parse_comment-base ext a2 a3 e4,
        parse_time_stamp-base clock m a1 a2 e2,
        parse_position-base max_height m a a1 e1,
      )

  pub unpack_aprs-base :
      (re : Regexes) (max_height : ℤ) (clock : Clock) (sentence : Str) (a b : Aircraft W)
      → AprsParser.unpack re max_height clock sentence a ≡ some b
      → b.base ≡ a.base
  unfolding AprsParser.unpack
  unpack_aprs-base re max_height clock sentence a b e = elim (Option-cases (re.aprs sentence)) [
    | inl none0 ↦ absurd (ground (arith, none0))
    | inr (m, read) ↦ parse_match-base re max_height clock m a b (ground arith)
  ]
