-- ===== src/Object/Wind.antt =====
-- include/object/Wind.h and src/object/Wind.cpp: the base class and nothing more.
use virtual_flight_radar_bac.Common.{ℕ, Bool, true, false, if◌then◌else◌}
use virtual_flight_radar_bac.Common.Text.{Str}
use virtual_flight_radar_bac.Object.Base
use virtual_flight_radar_bac.Object.Base.{Object}

pub record Wind : Type 0 where
  pub base : Object
  pub open base use *

unfoldable pub of_priority : ℕ → Wind
of_priority p = record { base = Base.of_priority p }

-- `self.tryUpdate(other)`, with the base class's `assign` and `canUpdate`.
unfoldable pub try_update : Wind → Wind → Wind × Bool
try_update self other =
    if Base.can_update other.base self.base
    then (record { base = Base.assign self.base other.base }, true)
    else (self, false)

unfoldable pub increment : Wind → Wind
increment w = record { base = Base.increment w.base }

unfoldable pub set_serialized : Wind → Str → Wind
set_serialized w s = record { base = Base.set_serialized w.base s }
