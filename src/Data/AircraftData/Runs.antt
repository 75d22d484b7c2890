-- ===== src/Data/AircraftData/Runs.antt =====
-- What holds after any sequence of reports and passes.
use virtual_flight_radar_bac.Common.{◌<◌, ◌≡◌, refl, true, false, List, [], ◌∷◌, arith, All}
use virtual_flight_radar_bac.Common.Int.{ℤ}
use virtual_flight_radar_bac.Double.{Double}
use virtual_flight_radar_bac.Object.Base.{obj_outdated}
use virtual_flight_radar_bac.Object.Base
use virtual_flight_radar_bac.Object.Position.{Position}
use virtual_flight_radar_bac.Object.Aircraft
use virtual_flight_radar_bac.Object.Aircraft.{Aircraft, TargetType, is_flarm, flarm, transponder}
use virtual_flight_radar_bac.Data.Processor.AircraftProcessor
use virtual_flight_radar_bac.Data.Processor.AircraftProcessor.{AircraftProcessor}
use virtual_flight_radar_bac.Data.AircraftData.{
  AircraftData, aged, refreshed, process_aircrafts, update, delete_threshold, of_max_distance,
}
use virtual_flight_radar_bac.Data.AircraftData.Index.{find}
use virtual_flight_radar_bac.Data.AircraftData.Places.{IsValid}
use virtual_flight_radar_bac.Data.AircraftData.Survivors.{survives, survivors}
use virtual_flight_radar_bac.Data.AircraftData.Process.{
  process_from-survivors, process_aircrafts-IsValid,
}
use virtual_flight_radar_bac.Data.AircraftData.Update.{updated, container-update, update-IsValid}

module _ {W : Type 0} where
  -- Not yet to be deleted, and no longer a FLARM target once outdated.
  pub record IsFresh (a : Aircraft W) : Type 0 where
    pub young : a.update_age < delete_threshold
    pub tracked : is_flarm a.target_type ≡ true → a.update_age < obj_outdated

  -- A new report.
  abbrev pub IsReport : Aircraft W → Type 0
  IsReport a = a.update_age ≡ 0

  try_update-IsFresh :
      (b a : Aircraft W) → IsFresh b → IsReport a → IsFresh (Aircraft.try_update b a).0
  unfolding Aircraft.try_update Base.assign
  try_update-IsFresh b a f r = ground arith

  updated-IsFresh :
      (l : List (Aircraft W)) (a : Aircraft W)
      → All IsFresh l
      → IsReport a
      → All IsFresh (updated l a)
  unfolding updated
  updated-IsFresh [] a f r = (record { young = omega arith; tracked = λ _. omega arith }, tt)
  updated-IsFresh (b ∷ rest) a f r =
      ground (arith, try_update-IsFresh b a f.0 r, updated-IsFresh rest a f.1 r)

  update-IsFresh :
      (s : AircraftData W) (a : Aircraft W)
      → IsValid s
      → IsReport a
      → All IsFresh s.container
      → All IsFresh (update s a).0.container
  update-IsFresh s a v r f = rw (container-update s a v) (updated-IsFresh s.container a f r)

pub data Call (W : Type 0) : Type 0 where
  report : Aircraft W → Call W
  pass : Position W → W → Call W

module _ {W : Type 0} ⦃d : Double W⦄ where
  refreshed-IsFresh :
      (p : AircraftProcessor W) (a : Aircraft W) → IsFresh a → IsFresh (refreshed p a)
  unfolding refreshed AircraftProcessor.process Aircraft.set_serialized Base.set_serialized
  refreshed-IsFresh p a f = ground arith

  aged-IsFresh : (a : Aircraft W) → IsFresh a → survives a ≡ true → IsFresh (aged a)
  unfolding survives aged Aircraft.increment Base.increment
  aged-IsFresh a f h = ground arith

  survivors-IsFresh :
      (p : AircraftProcessor W) (l : List (Aircraft W))
      → All IsFresh l
      → All IsFresh (survivors p l)
  unfolding survivors
  survivors-IsFresh p [] f = tt
  survivors-IsFresh p (a ∷ rest) f =
      ground (arith, survivors-IsFresh p rest f.1, aged-IsFresh a f.0, refreshed-IsFresh p (aged a))

  process_aircrafts-IsFresh :
      (s : AircraftData W) (position : Position W) (atm_press : W)
      → All IsFresh s.container
      → All IsFresh (process_aircrafts s position atm_press).container
  unfolding process_aircrafts
  process_aircrafts-IsFresh s position atm_press f =
      let p = AircraftProcessor.refer_to s.processor position atm_press in
      rw (process_from-survivors p s.container 0 false s.index) (survivors-IsFresh p s.container f)

  unfoldable pub step : AircraftData W → Call W → AircraftData W
  step s (report a) = (update s a).0
  step s (pass position atm_press) = process_aircrafts s position atm_press

  unfoldable pub run : AircraftData W → List (Call W) → AircraftData W
  unfolding step
  run s [] = s
  run s (c ∷ cs) = run (step s c) cs

  abbrev pub IsCall : Call W → Type 0
  IsCall (report a) = IsReport a
  IsCall (pass position atm_press) = Unit {0}

  pub record IsSound (s : AircraftData W) : Type 0 where
    pub valid : IsValid s
    pub fresh : All IsFresh s.container

  pub step-IsSound : (s : AircraftData W) (c : Call W) → IsCall c → IsSound s → IsSound (step s c)
  unfolding step
  step-IsSound s (report a) r v = record {
    valid = update-IsValid s a v.valid;
    fresh = update-IsFresh s a v.valid r v.fresh;
  }
  step-IsSound s (pass position atm_press) r v = record {
    valid = process_aircrafts-IsValid s position atm_press v.valid;
    fresh = process_aircrafts-IsFresh s position atm_press v.fresh;
  }

  run-IsSound :
      (s : AircraftData W) (cs : List (Call W)) → All IsCall cs → IsSound s → IsSound (run s cs)
  unfolding run
  run-IsSound s [] r v = v
  run-IsSound s (c ∷ cs) r v = run-IsSound (step s c) cs r.1 (step-IsSound s c r.0 v)

  -- After any sequence of new reports and passes over an empty container, no two aircraft share an
  -- id, the map has the place of every aircraft and nothing else, no aircraft has reached the age of
  -- deletion, and none that is outdated counts as a FLARM target.
  pub run-of_max_distance-IsSound :
      (max : ℤ) (cs : List (Call W)) → All IsCall cs → IsSound (run (of_max_distance max) cs)
  unfolding of_max_distance find
  run-of_max_distance-IsSound max cs r =
      run-IsSound (of_max_distance max) cs r
        (record { valid = record { unique = tt; placed = λ k. refl }; fresh = tt })
