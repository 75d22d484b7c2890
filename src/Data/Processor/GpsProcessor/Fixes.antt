-- ===== src/Data/Processor/GpsProcessor/Fixes.antt =====
-- What GpsProcessor puts out are sentences that pass the guard of the NMEA parsers.
use mathlib.Core.List.{append_assoc}
use virtual_flight_radar_bac.Common.{
  ℕ, ◌+◌, ◌%◌, ◌≤◌, ◌<◌, ◌≡◌, refl, true, some, [], ◌∷◌, ◌++◌, arith,
}
use virtual_flight_radar_bac.Common.Int.{◌-ℤ◌, pos}
use virtual_flight_radar_bac.Common.Text.{Str, codes}
use virtual_flight_radar_bac.Common.Print.Digits.{IsInt32, show_nat-IsPlain}
use virtual_flight_radar_bac.Double.{Double}
use virtual_flight_radar_bac.Object.Base
use virtual_flight_radar_bac.Object.GpsPosition
use virtual_flight_radar_bac.Object.GpsPosition.{GpsPosition}
use virtual_flight_radar_bac.Data.Processor.Sentence.{sentence}
use virtual_flight_radar_bac.Data.Processor.GpsProcessor.{
  Tm, Evaluated, two, clock_time, eval_position, coordinates, gpgga, gprmc, process,
}
use virtual_flight_radar_bac.Data.Processor.Body.{
  prefix-IsBody, widen-IsBody, guarded, says-IsBody, prints-IsBody, star-IsBody, IsBody,
}
use virtual_flight_radar_bac.Data.Processor.Wellformed.{IsPrintable}
use virtual_flight_radar_bac.Feed.Parser.Nmea.{checksum_matches}

-- What `std::gmtime` promises, as far as it is needed: numbers that fit an `int`, with room for the
-- counts from 0 and from 1900.
pub record IsCalendar (utc : Tm) : Type 0 where
  pub hour : utc.tm_hour < 24
  pub minute : utc.tm_min < 60
  pub second : utc.tm_sec < 61
  pub day : utc.tm_mday < 32
  pub month : utc.tm_mon < 12
  pub year : utc.tm_year < 0x80000000

two-IsBody : (n k : ℕ) (s : Str) → k < 0x80000000 → IsBody n s → IsBody (14 + n) (two k ++ s)
unfolding two
two-IsBody n k s h b = prints-IsBody n 2 (pos k) s (omega arith) (omega arith) b

clock_time-IsBody :
    (n : ℕ) (utc : Tm) (s : Str)
    → IsCalendar utc
    → IsBody n s
    → IsBody (42 + n) (clock_time utc ++ s)
unfolding clock_time
clock_time-IsBody n utc s c b =
    rw (append_assoc, append_assoc)
      (widen-IsBody _ (42 + n) _ (omega arith) (
        two-IsBody _ utc.tm_hour _ (omega (arith, c.hour)) (
          two-IsBody _ utc.tm_min _ (omega (arith, c.minute))
            (two-IsBody n utc.tm_sec s (omega (arith, c.second)) b))))

year-IsInt32 : (y : ℕ) → y < 0x80000000 → IsInt32 (pos y -ℤ pos 100)
unfolding ◌-ℤ◌
year-IsInt32 y h = ground arith

module _ {W : Type 0} ⦃d : Double W⦄ where
  -- The direction is a letter.
  record IsAimed (e : Evaluated W) : Type 0 where
    north : e.direction_sn < 128
    east : e.direction_ew < 128

  eval_position-IsAimed : (latitude longitude : W) → IsAimed (eval_position latitude longitude)
  unfolding eval_position
  eval_position-IsAimed latitude longitude = record { north = ground arith; east = ground arith }

  zeros-IsBody :
      (n w p : ℕ) (x : W) (s : Str)
      → w ≤ 7
      → p ≤ 4
      → IsPrintable W
      → IsBody n s
      → IsBody (400 + n) (d.zero_padded w p x ++ s)
  zeros-IsBody n w p x s hw hp h b = prefix-IsBody 400 n _ s (h.zeros w p x hw hp) b

  coordinates-IsBody :
      (n w p : ℕ) (e : Evaluated W) (s : Str)
      → w ≤ 7
      → p ≤ 4
      → IsPrintable W
      → IsAimed e
      → IsBody n s
      → IsBody (1605 + n) (coordinates w p e ++ s)
  unfolding coordinates
  coordinates-IsBody n w p e s hw hp h a b = simp (append_assoc) (
      widen-IsBody _ (1605 + n) _ (omega arith) (
        zeros-IsBody _ 2 0 _ _ (omega arith) (omega arith) h (
          zeros-IsBody _ w p _ _ hw hp h (
            says-IsBody _ (codes ",") _ refl (
              prefix-IsBody 2 _ (e.direction_sn ∷ codes ",") _
                (record { ascii = (a.north, (omega arith, tt)); short = omega arith })
                (zeros-IsBody _ 3 0 _ _ (omega arith) (omega arith) h (
                  zeros-IsBody _ w p _ _ hw hp h (
                    says-IsBody _ (codes ",") _ refl (
                      prefix-IsBody 1 n (e.direction_ew ∷ []) s
                        (record { ascii = (a.east, tt); short = omega arith }) b)))))))))

  gpgga-IsBody :
      (e : Evaluated W) (position : GpsPosition W) (utc : Tm)
      → IsPrintable W
      → IsCalendar utc
      → IsAimed e
      → IsInt32 position.position.altitude
      → IsBody 3000 (gpgga e position utc)
  unfolding gpgga
  gpgga-IsBody e position utc h c a i = widen-IsBody _ 3000 _ (omega arith) (
      says-IsBody _ (codes "$GPGGA,") _ refl (
        clock_time-IsBody _ utc _ c (
          says-IsBody _ (codes ",") _ refl (
            coordinates-IsBody _ 7 4 e _ (omega arith) (omega arith) h a (
              says-IsBody _ (codes ",1,") _ refl (
                prefix-IsBody 12 _ _ _
                  (show_nat-IsPlain 2 (position.nr_of_satellites % 256) (omega arith))
                  (says-IsBody _ (codes ",1,") _ refl (
                    prints-IsBody _ 0 _ _ (omega arith) i (
                      says-IsBody _ (codes ",M,") _ refl (
                        prefix-IsBody 400 _ _ _ (h.blanks 0 1 _ (omega arith) (omega arith))
                          (says-IsBody 0 (codes ",M,,") _ refl star-IsBody)))))))))))

  gprmc-IsBody :
      (e : Evaluated W) (utc : Tm)
      → IsPrintable W
      → IsCalendar utc
      → IsAimed e
      → IsBody 3000 (gprmc e utc)
  unfolding gprmc
  gprmc-IsBody e utc h c a = widen-IsBody _ 3000 _ (omega arith) (
      says-IsBody _ (codes "$GPRMC,") _ refl (
        clock_time-IsBody _ utc _ c (
          says-IsBody _ (codes ",A,") _ refl (
            coordinates-IsBody _ 5 2 e _ (omega arith) (omega arith) h a (
              says-IsBody _ (codes ",0,0,") _ refl (
                two-IsBody _ utc.tm_mday _ (omega (arith, c.day)) (
                  two-IsBody _ (utc.tm_mon + 1) _ (omega (arith, c.month)) (
                    prints-IsBody _ 2 _ _ (omega arith) (year-IsInt32 utc.tm_year c.year)
                      (says-IsBody 0 (codes ",001.0,W") _ refl star-IsBody)))))))))

  -- What the processor puts out for the own position: two sentences, each of which passes the guard
  -- of the parsers. The altitude is to be an `int32_t`, the calendar time what `std::gmtime` gives,
  -- and the conversions of `double`s as C++ promises them.
  pub process-guarded :
      (utc : Tm) (position : GpsPosition W)
      → IsPrintable W
      → IsCalendar utc
      → IsInt32 position.position.altitude
      → let e = eval_position position.position.latitude position.position.longitude in
        ((process utc position).serialized
          ≡ sentence (gpgga e position utc) ++ sentence (gprmc e utc))
        × (checksum_matches (sentence (gpgga e position utc)) ≡ some true)
        × (checksum_matches (sentence (gprmc e utc)) ≡ some true)
  unfolding process GpsPosition.set_serialized Base.set_serialized gpgga gprmc
  process-guarded utc position h c i =
      let e = eval_position position.position.latitude position.position.longitude in
      let a = eval_position-IsAimed position.position.latitude position.position.longitude in
      (
        refl,
        guarded b'$' _ refl (gpgga-IsBody e position utc h c a i),
        guarded b'$' _ refl (gprmc-IsBody e utc h c a),
      )
