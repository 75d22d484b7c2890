-- ===== src/Data/Processor/GpsProcessor.antt =====
-- include/data/processor/GpsProcessor.h and src/data/processor/GpsProcessor.cpp.
-- `std::time` and `std::gmtime` enter as the calendar time that they return. The members that
-- `evalPosition` sets anew before anything reads them are its result.
pub mod Fixes
use virtual_flight_radar_bac.Common.{ℕ, ◌+◌, ◌%◌, [], ◌∷◌, ◌++◌, if◌then◌else◌}
use virtual_flight_radar_bac.Common.Int.{pos, ◌-ℤ◌}
use virtual_flight_radar_bac.Common.Text.{Str, codes}
use virtual_flight_radar_bac.Common.Print.{show_int, show_nat}
use virtual_flight_radar_bac.Double.{Double}
use virtual_flight_radar_bac.Object.GpsPosition
use virtual_flight_radar_bac.Object.GpsPosition.{GpsPosition}
use virtual_flight_radar_bac.Data.Processor.Sentence.{sentence}

-- The fields of `std::tm` that are read: years count from 1900, months from 0.
pub record Tm : Type 0 where
  pub tm_hour : ℕ
  pub tm_min : ℕ
  pub tm_sec : ℕ
  pub tm_mday : ℕ
  pub tm_mon : ℕ
  pub tm_year : ℕ

pub record Evaluated (W : Type 0) : Type 0 where
  pub direction_sn : ℕ
  pub direction_ew : ℕ
  pub deg_latitude : W
  pub min_latitude : W
  pub deg_longitude : W
  pub min_longitude : W

two : ℕ → Str
two n = show_int 2 (pos n)

clock_time : Tm → Str
unfolding two
clock_time utc = two utc.tm_hour ++ (two utc.tm_min ++ two utc.tm_sec)

module _ {W : Type 0} ⦃d : Double W⦄ where
  abbrev degrees_of : W → W
  degrees_of x = d.abs (d.floor x)

  abbrev minutes_of : W → W
  minutes_of x = d.abs (d.mul (d.dec (pos 60) 0) (d.sub x (degrees_of x)))

  unfoldable pub eval_position : W → W → Evaluated W
  eval_position latitude longitude = record {
    direction_sn = if d.lt latitude (d.dec (pos 0) 0) then b'S' else b'N';
    direction_ew = if d.lt longitude (d.dec (pos 0) 0) then b'W' else b'E';
    deg_latitude = degrees_of latitude;
    min_latitude = minutes_of latitude;
    deg_longitude = degrees_of longitude;
    min_longitude = minutes_of longitude;
  }

  -- `%02.0lf%0w.plf,%c,%03.0lf%0w.plf,%c`.
  coordinates : ℕ → ℕ → Evaluated W → Str
  coordinates w p e =
      d.zero_padded 2 0 e.deg_latitude
      ++ (d.zero_padded w p e.min_latitude
          ++ (codes ","
              ++ (e.direction_sn ∷ codes ","
                  ++ (d.zero_padded 3 0 e.deg_longitude
                      ++ (d.zero_padded w p e.min_longitude
                          ++ (codes "," ++ (e.direction_ew ∷ [])))))))

  unfoldable pub gpgga : Evaluated W → GpsPosition W → Tm → Str
  unfolding clock_time coordinates two
  gpgga e position utc =
      codes "$GPGGA,"
      ++ (clock_time utc
          ++ (codes ","
              ++ (coordinates 7 4 e
                  ++ (codes ",1,"
                      ++ (show_nat 2 (position.nr_of_satellites % 256)
                          ++ (codes ",1,"
                              ++ (show_int 0 position.position.altitude
                                  ++ (codes ",M,"
                                      ++ (d.blank_padded 0 1 position.geoid
                                          ++ codes ",M,,*")))))))))

  unfoldable pub gprmc : Evaluated W → Tm → Str
  unfolding clock_time coordinates two
  gprmc e utc =
      codes "$GPRMC,"
      ++ (clock_time utc
          ++ (codes ",A,"
              ++ (coordinates 5 2 e
                  ++ (codes ",0,0,"
                      ++ (two utc.tm_mday
                          ++ (two (utc.tm_mon + 1)
                              ++ (show_int 2 (pos utc.tm_year -ℤ pos 100)
                                  ++ codes ",001.0,W*")))))))

  unfoldable pub process : Tm → GpsPosition W → GpsPosition W
  process utc position =
      let e = eval_position position.position.latitude position.position.longitude in
      GpsPosition.set_serialized position
        (sentence (gpgga e position utc) ++ sentence (gprmc e utc))
