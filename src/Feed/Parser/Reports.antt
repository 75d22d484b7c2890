-- ===== src/Feed/Parser/Reports.antt =====
-- What the two parsers of aircraft promise to their feeds.
use virtual_flight_radar_bac.Common.{
  ℕ, ◌≤◌, ◌≡◌, sym, ap, inl, inr, some, arith, drop, Option-cases,
}
use virtual_flight_radar_bac.Common.Int.{ℤ, ◌≤ℤ◌}
use virtual_flight_radar_bac.Common.Text.{Str}
use virtual_flight_radar_bac.Double.{Double}
use virtual_flight_radar_bac.TimeStamp.{Clock}
use virtual_flight_radar_bac.Object.Position.{Position}
use virtual_flight_radar_bac.Object.Aircraft
use virtual_flight_radar_bac.Object.Aircraft.{
  Aircraft, flarm, transponder, is_flarm, is_transponder, id_ogn, static_object,
}
use virtual_flight_radar_bac.Feed.Parser.Regex.{Match, Regexes}
use virtual_flight_radar_bac.Feed.Parser.SbsParser
use virtual_flight_radar_bac.Feed.Parser.AprsParser

module _ {W : Type 0} ⦃d : Double W⦄ where
  finish-height :
      (max_height : ℤ) (r : SbsParser.State W × ℕ) (b : Aircraft W)
      → SbsParser.finish max_height r ≡ some b
      → (b.position.altitude ≤ℤ max_height)
        × (b.target_type ≡ transponder)
        × (b.id_type ≡ 1)
        × (b.aircraft_type ≡ 8)
  unfolding SbsParser.finish Aircraft.set_aircraft_type Aircraft.set_id_type
  finish-height max_height r b e = ground arith

  -- An accepted SBS message gives a transponder target with the ICAO id type and the type of a
  -- powered aircraft, not above the height that is set.
  pub unpack_sbs-height :
      (max_height : ℤ) (clock : Clock) (garbage : Position W) (sentence : Str) (a b : Aircraft W)
      → SbsParser.unpack max_height clock garbage sentence a ≡ some b
      → (b.position.altitude ≤ℤ max_height)
        × (b.target_type ≡ transponder)
        × (b.id_type ≡ 1)
        × (b.aircraft_type ≡ 8)
  unfolding SbsParser.unpack
  unpack_sbs-height max_height clock garbage sentence a b e =
      elim (Option-cases (SbsParser.fields clock 14 (drop 6 sentence) (garbage, a))) [
        | inl broken ↦ absurd (ground (arith, broken))
        | inr (r, read) ↦ finish-height max_height r b (ground arith)
      ]

  parse_position-height :
      (max_height : ℤ) (m : Match) (a b : Aircraft W)
      → AprsParser.parse_position max_height m a ≡ some b
      → b.position.altitude ≤ℤ max_height
  unfolding AprsParser.parse_position
  parse_position-height max_height m a b e = ground arith

  parse_time_stamp-position :
      (clock : Clock) (m : Match) (a b : Aircraft W)
      → AprsParser.parse_time_stamp clock m a ≡ some b
      → b.position ≡ a.position
  unfolding AprsParser.parse_time_stamp
  parse_time_stamp-position clock m a b e = ground arith

  parse_comment-types :
      (m : Match) (a b : Aircraft W)
      → AprsParser.parse_comment m a ≡ some b
      → (b.position ≡ a.position) × (b.id_type ≤ id_ogn) × (b.aircraft_type ≤ static_object)
  unfolding AprsParser.parse_comment Aircraft.set_aircraft_type Aircraft.set_id_type
  parse_comment-types m a b e = ground arith

  parse_movement-rest :
      (m ext : Match) (a : Aircraft W)
      → let b = AprsParser.parse_movement m ext a in
        (b.position ≡ a.position) × (b.id_type ≡ a.id_type) × (b.aircraft_type ≡ a.aircraft_type)
  unfolding AprsParser.parse_movement
  parse_movement-rest m ext a = ground arith

  -- What an APRS report is like, once accepted.
  pub record IsAprsReport (max_height : ℤ) (b : Aircraft W) : Type 0 where
    pub low : b.position.altitude ≤ℤ max_height
    pub target : b.target_type ≡ flarm
    pub id_known : b.id_type ≤ id_ogn
    pub type_known : b.aircraft_type ≤ static_object

  movement-IsAprsReport :
      (max_height : ℤ) (m ext : Match) (a b : Aircraft W)
      → a.position.altitude ≤ℤ max_height
      → a.id_type ≤ id_ogn
      → a.aircraft_type ≤ static_object
      → some (record (AprsParser.parse_movement m ext a) { target_type = flarm }) ≡ some b
      → IsAprsReport max_height b
  movement-IsAprsReport max_height m ext a b low id_known type_known e = record {
    low = ground (arith, parse_movement-rest m ext a);
    target = ground arith;
    id_known = ground (arith, parse_movement-rest m ext a);
    type_known = ground (arith, parse_movement-rest m ext a);
  }

  -- The steps that a match which is accepted has gone through.
  pub parse_match-parts :
      (re : Regexes) (max_height : ℤ) (clock : Clock) (m : Match) (a b : Aircraft W)
      → AprsParser.parse_match re max_height clock m a ≡ some b
      → (a1 a2 a3 : Aircraft W) × (ext : Match) × (AprsParser.parse_position max_height m a
          ≡ some a1)
        × (AprsParser.parse_time_stamp clock m a1 ≡ some a2)
        × (re.aprs_ext (m 9) ≡ some ext)
        × (AprsParser.parse_comment ext a2 ≡ some a3)
        × (b ≡ record (AprsParser.parse_movement m ext a3) { target_type = flarm })
  unfolding AprsParser.parse_match
  parse_match-parts re max_height clock m a b e =
      elim (Option-cases (AprsParser.parse_position max_height m a)) [
        | inl none0 ↦ absurd (ground (arith, none0))
        | inr (a1, e1) ↦ elim (Option-cases (AprsParser.parse_time_stamp clock m a1)) [
          | inl none1 ↦ absurd (ground (arith, none1))
          | inr (a2, e2) ↦ elim (Option-cases (re.aprs_ext (m 9))) [
            | inl none2 ↦ absurd (ground (arith, none2))
            | inr (ext, e3) ↦ elim (Option-cases (AprsParser.parse_comment ext a2)) [
              | inl none3 ↦ absurd (ground (arith, none3))
              | inr (a3, e4) ↦ (a1, a2, a3, ext, e1, e2, e3, e4, ground (arith, e1, e2, e3, e4))
            ]
          ]
        ]
      ]

  parse_match-IsAprsReport :
      (re : Regexes) (max_height : ℤ) (clock : Clock) (m : Match) (a b : Aircraft W)
      → AprsParser.parse_match re max_height clock m a ≡ some b
      → IsAprsReport max_height b
  parse_match-IsAprsReport re max_height clock m a b e =
      let (a1, a2, a3, ext, e1, e2, e3, e4, whole) =
        parse_match-parts re max_height clock m a b e in
      movement-IsAprsReport max_height m ext a3 b
        (ground (
          arith,
          parse_position-height max_height m a a1 e1,
          parse_time_stamp-position clock m a1 a2 e2,
          parse_comment-types ext a2 a3 e4,
        ))
        (ground (arith, parse_comment-types ext a2 a3 e4))
        (ground (arith, parse_comment-types ext a2 a3 e4)) (ap some (sym whole))

  -- An accepted APRS message gives a FLARM target not above the height that is set, with an id type
  -- and an aircraft type inside their enumerations' ranges.
  pub unpack_aprs-IsAprsReport :
      (re : Regexes) (max_height : ℤ) (clock : Clock) (sentence : Str) (a b : Aircraft W)
      → AprsParser.unpack re max_height clock sentence a ≡ some b
      → IsAprsReport max_height b
  unfolding AprsParser.unpack
  unpack_aprs-IsAprsReport re max_height clock sentence a b e =
      elim (Option-cases (re.aprs sentence)) [
        | inl none0 ↦ absurd (ground (arith, none0))
        | inr (m, read) ↦ parse_match-IsAprsReport re max_height clock m a b (ground arith)
      ]
