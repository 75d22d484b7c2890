-- ===== src/Data/WindData.antt =====
-- include/data/WindData.h and src/data/WindData.cpp.
use virtual_flight_radar_bac.Common.{Bool, [], ◌++◌}
use virtual_flight_radar_bac.Common.Text.{Str}
use virtual_flight_radar_bac.Object.Wind
use virtual_flight_radar_bac.Object.Wind.{Wind}

pub record WindData : Type 0 where
  pub wind : Wind

-- A sentence is given out once.
unfoldable pub get_serialized : WindData → Str → WindData × Str
get_serialized s dest =
    let w = Wind.increment s.wind in
    (record { wind = Wind.set_serialized w [] }, dest ++ w.serialized)

unfoldable pub update : WindData → Wind → WindData × Bool
update s w = let (w', done) = Wind.try_update s.wind w in (record { wind = w' }, done)
