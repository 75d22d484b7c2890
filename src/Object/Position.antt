-- ===== src/Object/Position.antt =====
-- The struct Position of include/object/GpsPosition.h; the altitude is an `int32_t`.
use virtual_flight_radar_bac.Common.Int.{ℤ}

pub record Position (W : Type 0) : Type 0 where
  pub latitude : W
  pub longitude : W
  pub altitude : ℤ
