-- ===== src/Feed/Parser/Ids.antt =====
-- The ids that the parsers of aircraft find are parts of what they parse.
use virtual_flight_radar_bac.Common.{
  ℕ, zero, suc, ◌-◌, ◌≡◌, inl, inr, some, [], ◌∷◌, arith, take, drop, Option-cases,
}
use virtual_flight_radar_bac.Common.Int.{ℤ}
use virtual_flight_radar_bac.Common.Text.{Str, find_char}
use virtual_flight_radar_bac.Common.Print.Digits.{IsPlain}
use virtual_flight_radar_bac.Double.{Double}
use virtual_flight_radar_bac.TimeStamp.{Clock}
use virtual_flight_radar_bac.Object.Position.{Position}
use virtual_flight_radar_bac.Object.Aircraft
use virtual_flight_radar_bac.Object.Aircraft.{Aircraft}
use virtual_flight_radar_bac.Feed.Parser.Regex.{Match, Regexes}
use virtual_flight_radar_bac.Feed.Parser.SbsParser
use virtual_flight_radar_bac.Feed.Parser.AprsParser
use virtual_flight_radar_bac.Feed.Parser.Reports.{parse_match-parts}

-- What Boost.Regex promises: a group of a match is a part of the text.
pub record IsCutting (re : Regexes) : Type 0 where
  pub aprs : (n k : ℕ) (s : Str) (m : Match) → re.aprs s ≡ some m → IsPlain n s → IsPlain n (m k)
  pub aprs_ext :
      (n k : ℕ) (s : Str) (m : Match) → re.aprs_ext s ≡ some m → IsPlain n s → IsPlain n (m k)

take-IsPlain : (n k : ℕ) (s : Str) → IsPlain n s → IsPlain n (take k s)
take-IsPlain n zero s p = record { ascii = tt; short = omega arith }
take-IsPlain n (suc k) [] p = p
take-IsPlain zero (suc k) (c ∷ s) p = absurd (omega (arith, p.short))
take-IsPlain (suc n) (suc k) (c ∷ s) p =
    let rest = take-IsPlain n k s (record { ascii = p.ascii.1; short = omega (arith, p.short) }) in
    record { ascii = (p.ascii.0, rest.ascii); short = omega (arith, rest.short) }

drop-IsPlain : (n k : ℕ) (s : Str) → IsPlain n s → IsPlain n (drop k s)
drop-IsPlain n zero s p = p
drop-IsPlain n (suc k) [] p = p
drop-IsPlain n (suc k) (c ∷ s) p =
    drop-IsPlain n k s (record { ascii = p.ascii.1; short = omega (arith, p.short) })

module _ {W : Type 0} ⦃d : Double W⦄ where
  parse_field-id :
      (n : ℕ) (clock : Clock) (nr : ℕ) (field : Str) (s t : SbsParser.State W)
      → SbsParser.parse_field clock nr field s ≡ some t
      → IsPlain n field
      → IsPlain n s.1.id
      → IsPlain n t.1.id
  unfolding SbsParser.parse_field
  parse_field-id n clock nr field s t e p q = ground arith

  fields-id :
      (n : ℕ) (clock : Clock) (left : ℕ) (rest : Str) (s : SbsParser.State W)
      (r : SbsParser.State W × ℕ)
      → SbsParser.fields clock left rest s ≡ some r
      → IsPlain n rest
      → IsPlain n s.1.id
      → IsPlain n r.0.1.id
  unfolding SbsParser.fields
  fields-id n clock zero rest s r e p q = ground arith
  fields-id n clock (suc left) rest s r e p q = elim (Option-cases (find_char b',' rest)) [
    | inl last ↦ ground (arith, last)
    | inr (k, found) ↦
        elim (Option-cases (SbsParser.parse_field clock (15 - left) (take k rest) s)) [
          | inl broken ↦ absurd (ground (arith, found, broken))
          | inr (t, read) ↦
              fields-id n clock left (drop (suc k) rest) t r (ground (arith, found, read))
                (drop-IsPlain n (suc k) rest p)
                (parse_field-id n clock (15 - left) (take k rest) s t read (take-IsPlain n k rest p)
                  q)
        ]
  ]

  finish-id :
      (max_height : ℤ) (r : SbsParser.State W × ℕ) (b : Aircraft W)
      → SbsParser.finish max_height r ≡ some b
      → b.id ≡ r.0.1.id
  unfolding SbsParser.finish Aircraft.set_aircraft_type Aircraft.set_id_type
  finish-id max_height r b e = ground arith

  pub unpack_sbs-id :
      (n : ℕ) (max_height : ℤ) (clock : Clock) (garbage : Position W) (sentence : Str)
      (a b : Aircraft W)
      → SbsParser.unpack max_height clock garbage sentence a ≡ some b
      → IsPlain n sentence
      → IsPlain n a.id
      → IsPlain n b.id
  unfolding SbsParser.unpack
  unpack_sbs-id n max_height clock garbage sentence a b e p q =
      elim (Option-cases (SbsParser.fields clock 14 (drop 6 sentence) (garbage, a))) [
        | inl broken ↦ absurd (ground (arith, broken))
        | inr (r, read) ↦ rw (finish-id max_height r b (ground arith)) (
            fields-id n clock 14 (drop 6 sentence) (garbage, a) r read (drop-IsPlain n 6 sentence p)
              q)
      ]

  parse_comment-id :
      (m : Match) (a b : Aircraft W) → AprsParser.parse_comment m a ≡ some b → b.id ≡ m 2
  unfolding AprsParser.parse_comment Aircraft.set_aircraft_type Aircraft.set_id_type
  parse_comment-id m a b e = ground arith

  parse_movement-id :
      (m ext : Match) (a : Aircraft W) → (AprsParser.parse_movement m ext a).id ≡ a.id
  unfolding AprsParser.parse_movement
  parse_movement-id m ext a = ground arith

  parse_match-id :
      (n : ℕ) (re : Regexes) (max_height : ℤ) (clock : Clock) (m : Match) (a b : Aircraft W)
      → AprsParser.parse_match re max_height clock m a ≡ some b
      → IsCutting re
      → IsPlain n (m 9)
      → IsPlain n b.id
  parse_match-id n re max_height clock m a b e c p =
      let (a1, a2, a3, ext, e1, e2, e3, e4, whole) =
        parse_match-parts re max_height clock m a b e in
      rw (whole, parse_movement-id m ext a3, parse_comment-id ext a2 a3 e4)
        (c.aprs_ext n 2 (m 9) ext e3 p)

  pub unpack_aprs-id :
      (n : ℕ) (re : Regexes) (max_height : ℤ) (clock : Clock) (sentence : Str) (a b : Aircraft W)
      → AprsParser.unpack re max_height clock sentence a ≡ some b
      → IsCutting re
      → IsPlain n sentence
      → IsPlain n b.id
  unfolding AprsParser.unpack
  unpack_aprs-id n re max_height clock sentence a b e c p = elim (Option-cases (re.aprs sentence)) [
    | inl nothing ↦ absurd (ground (arith, nothing))
    | inr (m, read) ↦
        parse_match-id n re max_height clock m a b (ground arith) c (c.aprs n 9 sentence m read p)
  ]
