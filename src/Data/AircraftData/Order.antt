-- ===== src/Data/AircraftData/Order.antt =====
-- The order in which different aircraft are reported: the feeds run in threads of their own.
use mathlib.Core.List.{Perm, flatten}
use mathlib.Core.List.Perm
use virtual_flight_radar_bac.Common.{
  ◌≡◌, refl, sym, ap, ◌∙◌, List, [], ◌∷◌, ◌++◌, map, ltb, if◌then◌else◌, Bool-cases, inl, inr,
}
use virtual_flight_radar_bac.Common.Int.{ℤ}
use virtual_flight_radar_bac.Common.Text.{Str, str_eq}
use virtual_flight_radar_bac.Double.{Double}
use virtual_flight_radar_bac.Object.Base.{obj_outdated}
use virtual_flight_radar_bac.Object.Aircraft.{Aircraft}
use virtual_flight_radar_bac.Data.AircraftData.{
  AircraftData, of_max_distance, serialize, get_serialized,
}
use virtual_flight_radar_bac.Data.AircraftData.Index.{find}
use virtual_flight_radar_bac.Data.AircraftData.Places.{IsValid, lookup, lookup-known}
use virtual_flight_radar_bac.Data.AircraftData.Runs.{Call, report, pass, step, run}
use virtual_flight_radar_bac.Data.AircraftData.Track.{
  Track, track, track_step, unseen, run-track, step-IsValid,
}
use virtual_flight_radar_bac.Data.AircraftData.Known.{known-perm}

module _ {W : Type 0} where
  -- The reports of one aircraft, and the passes.
  abbrev pub course : Str → List (Call W) → List (Call W)
  course k [] = []
  course k (report a ∷ cs) = if str_eq a.id k then report a ∷ course k cs else course k cs
  course k (pass position atm_press ∷ cs) = pass position atm_press ∷ course k cs

  -- What an aircraft contributes to the text.
  abbrev pub contribution : Aircraft W → Str
  contribution a = if ltb a.update_age obj_outdated then a.serialized else []

  serialize-flatten : (l : List (Aircraft W)) → serialize l ≡ flatten (map contribution l)
  unfolding serialize flatten
  serialize-flatten [] = refl
  serialize-flatten (a ∷ l) = ap (λ t. contribution a ++ t) (serialize-flatten l)

module _ {W : Type 0} ⦃d : Double W⦄ where
  track-course :
      (k : Str) (cs : List (Call W)) (t : Track W) → track k t cs ≡ track k t (course k cs)
  unfolding track track_step
  track-course k [] t = refl
  track-course k (report a ∷ cs) t = elim (Bool-cases (str_eq a.id k)) [
    | inl here ↦ rw here (rw (here, track) (track-course k cs _))
    | inr other ↦ rw other (track-course k cs t)
  ]
  track-course k (pass position atm_press ∷ cs) t = track-course k cs _

  run-IsValid : (s : AircraftData W) (cs : List (Call W)) → IsValid s → IsValid (run s cs)
  unfolding run
  run-IsValid s [] v = v
  run-IsValid s (c ∷ cs) v = run-IsValid (step s c) cs (step-IsValid s c v)

  of_max_distance-IsValid : (max : ℤ) → IsValid {W = W} (of_max_distance max)
  unfolding of_max_distance find
  of_max_distance-IsValid max = record { unique = tt; placed = λ k. refl }

  abbrev after : ℤ → List (Call W) → AircraftData W
  after max cs = run (of_max_distance max) cs

  lookup-course :
      (max : ℤ) (cs ds : List (Call W)) (k : Str)
      → course k cs ≡ course k ds
      → lookup (after max cs) k ≡ lookup (after max ds) k
  lookup-course max cs ds k same =
      ap (λ t. t.aircraft)
        (run-track k max cs
          ∙ track-course k cs (unseen max)
          ∙ ap (track k (unseen max)) same
          ∙ sym (track-course k ds (unseen max))
          ∙ sym (run-track k max ds))

  -- Where the reports of each aircraft by itself, and the passes, come in the same order, it does not
  -- matter how the reports of different aircraft are mixed: the same is known under each id, and the
  -- same sentences are given out, in another order at most.
  pub run-course :
      (max : ℤ) (cs ds : List (Call W))
      → ((k : Str) → course k cs ≡ course k ds)
      → let s = run (of_max_distance max) cs in
        let t = run (of_max_distance max) ds in
        ((k : Str) → lookup s k ≡ lookup t k)
        × Perm (map contribution s.container) (map contribution t.container)
        × (get_serialized s [] ≡ flatten (map contribution s.container))
        × (get_serialized t [] ≡ flatten (map contribution t.container))
  unfolding get_serialized
  run-course max cs ds same =
      let s = after max cs in
      let t = after max ds in
      let v = run-IsValid (of_max_distance max) cs (of_max_distance-IsValid max) in
      let w = run-IsValid (of_max_distance max) ds (of_max_distance-IsValid max) in
      let alike = λ (k : Str). lookup-course max cs ds k (same k) in
      (
        alike,
        Perm.map contribution (
            known-perm s.container t.container v.unique w.unique
              (λ k. sym (lookup-known s k v) ∙ alike k ∙ lookup-known t k w)),
        serialize-flatten s.container,
        serialize-flatten t.container,
      )
