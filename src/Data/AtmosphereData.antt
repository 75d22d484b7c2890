-- ===== src/Data/AtmosphereData.antt =====
-- include/data/AtmosphereData.h and src/data/AtmosphereData.cpp.
use virtual_flight_radar_bac.Common.{Bool, ◌++◌}
use virtual_flight_radar_bac.Common.Text.{Str}
use virtual_flight_radar_bac.Object.Atmosphere
use virtual_flight_radar_bac.Object.Atmosphere.{Atmosphere}

pub record AtmosphereData (W : Type 0) : Type 0 where
  pub atmosphere : Atmosphere W

module _ {W : Type 0} where
  unfoldable pub get_serialized : AtmosphereData W → Str → AtmosphereData W × Str
  get_serialized s dest =
      let a = Atmosphere.increment s.atmosphere in (record { atmosphere = a }, dest ++ a.serialized)

  unfoldable pub update : AtmosphereData W → Atmosphere W → AtmosphereData W × Bool
  update s a =
      let (a', done) = Atmosphere.try_update s.atmosphere a in (record { atmosphere = a' }, done)

  -- `get_atmPressure`.
  unfoldable pub get_atm_pressure : AtmosphereData W → W
  get_atm_pressure s = s.atmosphere.pressure
