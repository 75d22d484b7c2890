-- ===== src/Tests/Mixed.antt =====
-- Reports in two orders.
use mathlib.Core.List.{Perm, flatten}
use virtual_flight_radar_bac.Common.{◌≡◌, refl, List, [], ◌∷◌, map, arith, Bool-cases, inl, inr}
use virtual_flight_radar_bac.Common.Int.{ℤ, pos}
use virtual_flight_radar_bac.Common.Text.{Str, str_eq, str_eq_iff}
use virtual_flight_radar_bac.Data.AircraftData.{of_max_distance, get_serialized}
use virtual_flight_radar_bac.Data.AircraftData.Places.{lookup}
use virtual_flight_radar_bac.Data.AircraftData.Runs.{Call, report, pass, run}
use virtual_flight_radar_bac.Data.AircraftData.Order.{course, contribution, run-course}
use virtual_flight_radar_bac.Tests.Sample.{whole, place, glider, airliner}

abbrev glider_first : List (Call ℤ)
glider_first = report glider ∷ report airliner ∷ pass place (pos 1013) ∷ []

abbrev airliner_first : List (Call ℤ)
airliner_first = report airliner ∷ report glider ∷ pass place (pos 1013) ∷ []

same_courses : (k : Str) → course k glider_first ≡ course k airliner_first
same_courses k = elim (Bool-cases (str_eq glider.id k)) [
  | inl here ↦ elim (Bool-cases (str_eq airliner.id k)) [
    | inl there ↦
        absurd (ground (arith, (str_eq_iff glider.id k).0 here, (str_eq_iff airliner.id k).0 there))
    | inr other ↦ rw (here, other) refl
  ]
  | inr other ↦ rw other refl
]

run-course_example :
    let s = run (of_max_distance (pos 10000)) glider_first in
    let t = run (of_max_distance (pos 10000)) airliner_first in
    ((k : Str) → lookup s k ≡ lookup t k)
    × Perm (map contribution s.container) (map contribution t.container)
    × (get_serialized s [] ≡ flatten (map contribution s.container))
    × (get_serialized t [] ≡ flatten (map contribution t.container))
run-course_example = run-course (pos 10000) glider_first airliner_first same_courses
