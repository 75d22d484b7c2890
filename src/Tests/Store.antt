-- ===== src/Tests/Store.antt =====
-- The container of the aircraft.
use virtual_flight_radar_bac.Common.{◌≡◌, refl, some, [], ◌∷◌, arith}
use virtual_flight_radar_bac.Common.Int.{ℤ, pos}
use virtual_flight_radar_bac.Common.Text.{codes}
use virtual_flight_radar_bac.Object.Aircraft.{flarm}
use virtual_flight_radar_bac.Data.Processor.AircraftProcessor
use virtual_flight_radar_bac.Data.AircraftData.{
  AircraftData, of_max_distance, process_aircrafts, update, insert,
}
use virtual_flight_radar_bac.Data.AircraftData.Index.{find, emplace}
use virtual_flight_radar_bac.Data.AircraftData.Places.{lookup}
use virtual_flight_radar_bac.Data.AircraftData.Process.{outcome, lookup-process_aircrafts}
use virtual_flight_radar_bac.Data.AircraftData.Update.{accepted, lookup-update}
use virtual_flight_radar_bac.Data.AircraftData.Runs.{
  report, pass, run, IsSound, run-of_max_distance-IsSound,
}
use virtual_flight_radar_bac.Data.AircraftData.Silence.{passes, age_of, age_of-passes}
use virtual_flight_radar_bac.Tests.Sample.{whole, place, reported, glider, airliner}

abbrev two : AircraftData ℤ
two = run (of_max_distance (pos 10000)) (report glider ∷ report airliner ∷ [])

run-of_max_distance-IsSound_example : IsSound (
    run
      (of_max_distance (pos 10000))
      (report glider ∷ report airliner ∷ pass place (pos 1013) ∷ []))
run-of_max_distance-IsSound_example =
    run-of_max_distance-IsSound (pos 10000)
      (report glider ∷ report airliner ∷ pass place (pos 1013) ∷ []) (refl, (refl, (tt, tt)))

two-IsSound : IsSound two
two-IsSound =
    run-of_max_distance-IsSound (pos 10000) (report glider ∷ report airliner ∷ [])
      (refl, (refl, tt))

known_glider : lookup two (codes "DDA85C") ≡ some glider
unfolding lookup run of_max_distance update insert find emplace
known_glider = refl

lookup-process_aircrafts_example :
    lookup (process_aircrafts two place (pos 1013)) (codes "DDA85C")
    ≡ outcome
        (AircraftProcessor.refer_to two.processor place (pos 1013))
        (lookup two (codes "DDA85C"))
lookup-process_aircrafts_example =
    lookup-process_aircrafts two place (pos 1013) (codes "DDA85C") two-IsSound.valid

lookup-update_example :
    (lookup (update two (reported (codes "DDA85C") flarm 1 3000)).0 (codes "3C6586")
      ≡ lookup two (codes "3C6586"))
    × ((update two (reported (codes "DDA85C") flarm 1 3000)).1
        ≡ accepted (lookup two (codes "DDA85C")) (reported (codes "DDA85C") flarm 1 3000))
lookup-update_example =
    lookup-update two (reported (codes "DDA85C") flarm 1 3000) (codes "3C6586") two-IsSound.valid

age_of-passes_example :
    age_of (lookup (passes ((place, pos 1013) ∷ (place, pos 1012) ∷ []) two) (codes "DDA85C"))
    ≡ some 2
age_of-passes_example =
    age_of-passes ((place, pos 1013) ∷ (place, pos 1012) ∷ []) two (codes "DDA85C") 0
      two-IsSound.valid (omega arith) (rw known_glider refl)
