-- ===== src/Data/AircraftData/Track.antt =====
-- What the container promises about one id, without a vector and a map: the course of one aircraft.
use virtual_flight_radar_bac.Common.{
  ◌≡◌, refl, ap, ◌∙◌, inl, inr, Bool-cases, Option, none, some, List, [], ◌∷◌, if◌then◌else◌, arith,
}
use virtual_flight_radar_bac.Common.Int.{ℤ}
use virtual_flight_radar_bac.Common.Text.{Str, str_eq, str_eq_iff}
use virtual_flight_radar_bac.Double.{Double}
use virtual_flight_radar_bac.Object.Aircraft.{Aircraft}
use virtual_flight_radar_bac.Object.Position.{Position}
use virtual_flight_radar_bac.Data.Processor.AircraftProcessor
use virtual_flight_radar_bac.Data.Processor.AircraftProcessor.{AircraftProcessor}
use virtual_flight_radar_bac.Data.AircraftData.{
  AircraftData, of_max_distance, insert, update, process_aircrafts,
}
use virtual_flight_radar_bac.Data.AircraftData.Index.{find}
use virtual_flight_radar_bac.Data.AircraftData.Places.{IsValid, lookup}
use virtual_flight_radar_bac.Data.AircraftData.Process.{
  outcome, process_aircrafts-IsValid, lookup-process_aircrafts,
}
use virtual_flight_radar_bac.Data.AircraftData.Update.{merged, update-IsValid, lookup-update}
use virtual_flight_radar_bac.Data.AircraftData.Runs.{Call, report, pass, step, run}

-- What there is of the aircraft with an id, and what the processor refers to.
pub record Track (W : Type 0) : Type 0 where
  pub processor : AircraftProcessor W
  pub aircraft : Option (Aircraft W)

module _ {W : Type 0} ⦃d : Double W⦄ where
  -- Reports of others change nothing.
  unfoldable pub track_step : Str → Track W → Call W → Track W
  track_step k t (report a) =
      if str_eq a.id k then record t { aircraft = some (merged t.aircraft a) } else t
  track_step k t (pass position atm_press) =
      let p = AircraftProcessor.refer_to t.processor position atm_press in
      record { processor = p; aircraft = outcome p t.aircraft }

  unfoldable pub track : Str → Track W → List (Call W) → Track W
  unfolding track_step
  track k t [] = t
  track k t (c ∷ cs) = track k (track_step k t c) cs

  abbrev pub track_of : Str → AircraftData W → Track W
  track_of k s = record { processor = s.processor; aircraft = lookup s k }

  abbrev pub unseen : ℤ → Track W
  unseen max = record { processor = AircraftProcessor.of_max_distance max; aircraft = none }

  pub step-IsValid : (s : AircraftData W) (c : Call W) → IsValid s → IsValid (step s c)
  unfolding step
  step-IsValid s (report a) v = update-IsValid s a v
  step-IsValid s (pass position atm_press) v = process_aircrafts-IsValid s position atm_press v

  pub update-processor :
      (s : AircraftData W) (a : Aircraft W) → (update s a).0.processor ≡ s.processor
  unfolding update insert
  update-processor s a = ground arith

  pass-processor :
      (s : AircraftData W) (position : Position W) (atm_press : W)
      → (process_aircrafts s position atm_press).processor
        ≡ AircraftProcessor.refer_to s.processor position atm_press
  unfolding process_aircrafts
  pass-processor s position atm_press = refl

  make :
      {p q : AircraftProcessor W} {a b : Option (Aircraft W)}
      → p ≡ q
      → a ≡ b
      → ◌≡◌ {A = Track W}
          (record { processor = p; aircraft = a })
          (record { processor = q; aircraft = b })
  make e f = cc

  track_of-step :
      (k : Str) (s : AircraftData W) (c : Call W)
      → IsValid s
      → track_of k (step s c) ≡ track_step k (track_of k s) c
  unfolding step track_step
  track_of-step k s (report a) v = elim (Bool-cases (str_eq a.id k)) [
    | inl here ↦ rw here (
        make (update-processor s a)
          ((lookup-update s a k v).0 ∙ ground (arith, here, str_eq_iff a.id k)))
    | inr other ↦
        rw other (make (update-processor s a) ((lookup-update s a k v).0 ∙ ground (arith, other)))
  ]
  track_of-step k s (pass position atm_press) v =
      make (pass-processor s position atm_press) (lookup-process_aircrafts s position atm_press k v)

  track_of-run :
      (k : Str) (s : AircraftData W) (cs : List (Call W))
      → IsValid s
      → track_of k (run s cs) ≡ track k (track_of k s) cs
  unfolding run track
  track_of-run k s [] v = refl
  track_of-run k s (c ∷ cs) v =
      track_of-run k (step s c) cs (step-IsValid s c v)
      ∙ ap (λ t. track k t cs) (track_of-step k s c v)

  -- Whatever is reported and however often the container is passed over, what is found under an id
  -- is what the course of this one aircraft gives: no report and no deletion of another aircraft
  -- shows in it.
  pub run-track :
      (k : Str) (max : ℤ) (cs : List (Call W))
      → track_of k (run (of_max_distance max) cs) ≡ track k (unseen max) cs
  unfolding of_max_distance find lookup
  run-track k max cs =
      track_of-run k (of_max_distance max) cs (record { unique = tt; placed = λ k. refl })
