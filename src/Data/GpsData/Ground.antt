-- ===== src/Data/GpsData/Ground.antt =====
-- The ground mode of the position.
use virtual_flight_radar_bac.Common.{
  ◌≡◌, refl, ◌∙◌, Bool, false, ◌&&◌, List, [], ◌∷◌, arith, if◌then◌else◌,
}
use virtual_flight_radar_bac.Common.Text.{Str}
use virtual_flight_radar_bac.Double.{Double}
use virtual_flight_radar_bac.Object.GpsPosition
use virtual_flight_radar_bac.Object.GpsPosition.{GpsPosition}
use virtual_flight_radar_bac.Data.Processor.GpsProcessor
use virtual_flight_radar_bac.Data.Processor.GpsProcessor.{Tm}
use virtual_flight_radar_bac.Data.GpsData.{
  GpsData, updated, received_good, update, after_update, get_serialized, is_position_good,
  of_position,
}

pub data Call (W : Type 0) : Type 0 where
  updates : Tm → GpsPosition W → Call W
  serializes : Tm → Str → Call W

module _ {W : Type 0} ⦃d : Double W⦄ where
  unfoldable pub step : GpsData W → Call W → GpsData W
  step s (updates utc p) = (update utc s p).0
  step s (serializes utc dest) = (get_serialized utc s dest).0

  unfoldable pub run : GpsData W → List (Call W) → GpsData W
  unfolding step
  run s [] = s
  run s (c ∷ cs) = run (step s c) cs

  step-position_locked :
      (s : GpsData W) (c : Call W)
      → ((step s c).position_locked ≡ s.position_locked) × ((step s c).ground_mode ≡ s.ground_mode)
  unfolding step update after_update get_serialized
  step-position_locked s (updates utc p) = ground arith
  step-position_locked s (serializes utc dest) = (refl, refl)

  run-position_locked :
      (s : GpsData W) (cs : List (Call W))
      → ((run s cs).position_locked ≡ s.position_locked) × ((run s cs).ground_mode ≡ s.ground_mode)
  unfolding run
  run-position_locked s [] = (refl, refl)
  run-position_locked s (c ∷ cs) =
      ground (arith, run-position_locked (step s c) cs, step-position_locked s c)

  process-good :
      (utc : Tm) (p : GpsPosition W)
      → is_position_good (GpsProcessor.process utc p) ≡ is_position_good p
  unfolding is_position_good GpsProcessor.process GpsPosition.set_serialized
  process-good utc p = refl

  assign-good :
      (old new : GpsPosition W)
      → is_position_good (GpsPosition.assign old new) ≡ is_position_good new
  unfolding is_position_good GpsPosition.assign
  assign-good old new = refl

  pub update-outcome :
      (now : Tm) (s : GpsData W) (p : GpsPosition W)
      → s.position_locked ≡ false
      → (update now s p).1 ≡ (
          let taken = GpsPosition.can_update p s.position in
          if s.ground_mode && (taken && is_position_good p) then received_good else updated taken)
  unfolding update after_update GpsPosition.try_update
  update-outcome now s p unlocked =
      ground (arith, process-good now (GpsPosition.assign s.position p), assign-good s.position p)

  -- However the container is used after its construction, the position is never locked: an update
  -- throws exactly when ground mode is on and the report is taken over and is good, and then only
  -- to say so; it never throws for a position that was locked before.
  pub update-run :
      (utc now : Tm) (first p : GpsPosition W) (on_ground : Bool) (cs : List (Call W))
      → let s = run (of_position utc first on_ground) cs in
        (update now s p).1 ≡ (
          let taken = GpsPosition.can_update p s.position in
          if on_ground && (taken && is_position_good p) then received_good else updated taken)
  unfolding of_position
  update-run utc now first p on_ground cs =
      let s = run (of_position utc first on_ground) cs in
      let (unlocked, same) = run-position_locked (of_position utc first on_ground) cs in
      update-outcome now s p unlocked ∙ rw same
