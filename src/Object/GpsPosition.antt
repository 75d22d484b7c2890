-- ===== src/Object/GpsPosition.antt =====
-- include/object/GpsPosition.h and src/object/GpsPosition.cpp.
use virtual_flight_radar_bac.Common.{ℕ, Bool, true, false, ◌&&◌, if◌then◌else◌}
use virtual_flight_radar_bac.Common.Int.{ℤ, pos}
use virtual_flight_radar_bac.Common.Text.{Str}
use virtual_flight_radar_bac.Double.{Double}
use virtual_flight_radar_bac.TimeStamp
use virtual_flight_radar_bac.TimeStamp.{TimeStamp, newer}
use virtual_flight_radar_bac.Object.Base
use virtual_flight_radar_bac.Object.Base.{Object}
use virtual_flight_radar_bac.Object.Position.{Position}

-- `nr_of_satellites` is a `uint8_t`, `fix_quality` an `int8_t`.
pub record GpsPosition (W : Type 0) : Type 0 where
  pub base : Object
  pub open base use *
  pub position : Position W
  pub geoid : W
  pub time_stamp : TimeStamp
  pub dilution : W
  pub nr_of_satellites : ℕ
  pub fix_quality : ℤ

module _ {W : Type 0} ⦃d : Double W⦄ where
  -- The constructor from a priority.
  unfoldable pub of_priority : ℕ → GpsPosition W
  of_priority p = record {
    base = Base.of_priority p;
    position = record { latitude = zero; longitude = zero; altitude = pos 0 };
    geoid = zero;
    time_stamp = TimeStamp.initial;
    dilution = zero;
    nr_of_satellites = 1;
    fix_quality = pos 5;
  }
    where
      zero : W
      zero = d.dec (pos 0) 0

  -- The constructor from a position and a geoid separation.
  unfoldable pub of_position : Position W → W → GpsPosition W
  unfolding of_priority
  of_position p g = record (of_priority 0) { position = p; geoid = g }

module _ {W : Type 0} where
  -- `assign`, where the cast of the argument succeeds.
  unfoldable pub assign : GpsPosition W → GpsPosition W → GpsPosition W
  assign self other = record self {
    base = Base.assign self.base other.base;
    position = other.position;
    time_stamp = other.time_stamp;
    nr_of_satellites = other.nr_of_satellites;
    fix_quality = other.fix_quality;
    geoid = other.geoid;
    dilution = other.dilution;
  }

  -- `self.canUpdate(other)`: `self` is the new report.
  unfoldable pub can_update : GpsPosition W → GpsPosition W → Bool
  can_update self other =
      newer self.time_stamp other.time_stamp && Base.can_update self.base other.base

  -- `self.tryUpdate(other)`.
  unfoldable pub try_update : GpsPosition W → GpsPosition W → GpsPosition W × Bool
  unfolding can_update assign
  try_update self other = if can_update other self then (assign self other, true) else (self, false)

  unfoldable pub increment : GpsPosition W → GpsPosition W
  increment g = record g { base = Base.increment g.base }

  unfoldable pub set_serialized : GpsPosition W → Str → GpsPosition W
  set_serialized g s = record g { base = Base.set_serialized g.base s }
