-- ===== src/Object/Atmosphere.antt =====
-- include/object/Atmosphere.h and src/object/Atmosphere.cpp.
use virtual_flight_radar_bac.Common.{ℕ, Bool, true, false, if◌then◌else◌}
use virtual_flight_radar_bac.Common.Int.{pos}
use virtual_flight_radar_bac.Common.Text.{Str}
use virtual_flight_radar_bac.Double.{Double}
use virtual_flight_radar_bac.Object.Base
use virtual_flight_radar_bac.Object.Base.{Object}

pub record Atmosphere (W : Type 0) : Type 0 where
  pub base : Object
  pub open base use *
  pub pressure : W

module _ {W : Type 0} ⦃d : Double W⦄ where
  -- The constructor from a priority. ICAO_STD_A is 1013.25.
  unfoldable pub of_priority : ℕ → Atmosphere W
  of_priority p = record { base = Base.of_priority p; pressure = d.dec (pos 101325) 2 }

module _ {W : Type 0} where
  -- The constructor from a pressure and a priority.
  unfoldable pub of_pressure : W → ℕ → Atmosphere W
  of_pressure w p = record { base = Base.of_priority p; pressure = w }

  -- `assign`, where the cast of the argument succeeds.
  unfoldable pub assign : Atmosphere W → Atmosphere W → Atmosphere W
  assign self other = record self {
    base = Base.assign self.base other.base;
    pressure = other.pressure;
  }

  -- `self.tryUpdate(other)`, with the base class's `canUpdate`.
  unfoldable pub try_update : Atmosphere W → Atmosphere W → Atmosphere W × Bool
  unfolding assign
  try_update self other =
      if Base.can_update other.base self.base then (assign self other, true) else (self, false)

  unfoldable pub increment : Atmosphere W → Atmosphere W
  increment a = record a { base = Base.increment a.base }

  unfoldable pub set_serialized : Atmosphere W → Str → Atmosphere W
  set_serialized a s = record a { base = Base.set_serialized a.base s }
