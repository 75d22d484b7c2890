-- ===== src/Vfrb/System/Fit.antt =====
-- The containers under the feeds: the aircraft stay sound, and below the height that is set.
use virtual_flight_radar_bac.Common.{
  ◌≡◌, ap, inl, inr, false, List, [], ◌∷◌, arith, All, Option-cases,
}
use virtual_flight_radar_bac.Common.Int.{ℤ, ◌≤ℤ◌}
use virtual_flight_radar_bac.Common.Text.{Str}
use virtual_flight_radar_bac.Double.{Double}
use virtual_flight_radar_bac.Object.Aircraft
use virtual_flight_radar_bac.Object.Aircraft.{Aircraft}
use virtual_flight_radar_bac.Object.Base
use virtual_flight_radar_bac.Object.Position.{Position}
use virtual_flight_radar_bac.Data.Processor.AircraftProcessor
use virtual_flight_radar_bac.Data.Processor.AircraftProcessor.{AircraftProcessor}
use virtual_flight_radar_bac.Data.AircraftData.{
  AircraftData, aged, refreshed, update, process_aircrafts,
}
use virtual_flight_radar_bac.Data.AircraftData.Survivors.{survivors}
use virtual_flight_radar_bac.Data.AircraftData.Process.{process_from-survivors}
use virtual_flight_radar_bac.Data.AircraftData.Update.{updated, container-update}
use virtual_flight_radar_bac.Data.AircraftData.Runs
use virtual_flight_radar_bac.Data.AircraftData.Runs.{
  IsSound, Call, IsCall, report, pass, step-IsSound, run-of_max_distance-IsSound,
}
use virtual_flight_radar_bac.Data.GpsData
use virtual_flight_radar_bac.Data.GpsData.{GpsData}
use virtual_flight_radar_bac.Feed.Parser.Regex.{Regexes}
use virtual_flight_radar_bac.Feed.Parser.AprsParser
use virtual_flight_radar_bac.Feed.Parser.SbsParser
use virtual_flight_radar_bac.Feed.Parser.Reports.{unpack_sbs-height, unpack_aprs-IsAprsReport}
use virtual_flight_radar_bac.Feed.Feeds.{Feed, process_aprsc, process_sbs, process_gps}
use virtual_flight_radar_bac.Vfrb.System.{Moment}
use virtual_flight_radar_bac.Vfrb.System.Base.{unpack_sbs-base, unpack_aprs-base}

module _ {W : Type 0} (max_height : ℤ) where
  abbrev pub IsLow : Aircraft W → Type 0
  IsLow a = a.position.altitude ≤ℤ max_height

  try_update-IsLow : (b a : Aircraft W) → IsLow b → IsLow a → IsLow (Aircraft.try_update b a).0
  unfolding Aircraft.try_update Aircraft.assign
  try_update-IsLow b a p q = ground arith

  updated-IsLow :
      (l : List (Aircraft W)) (a : Aircraft W) → All IsLow l → IsLow a → All IsLow (updated l a)
  unfolding updated
  updated-IsLow [] a p q = (q, tt)
  updated-IsLow (b ∷ rest) a p q =
      ground (arith, try_update-IsLow b a p.0 q, updated-IsLow rest a p.1 q)

module _ {W : Type 0} ⦃d : Double W⦄ (max_height : ℤ) where
  -- The aircraft: the container is sound, and none is too high.
  pub record IsFit (s : AircraftData W) : Type 0 where
    pub sound : IsSound s
    pub low : All (IsLow max_height) s.container

  survivors-IsLow :
      (p : AircraftProcessor W) (l : List (Aircraft W))
      → All (IsLow max_height) l
      → All (IsLow max_height) (survivors p l)
  unfolding survivors aged refreshed Aircraft.increment AircraftProcessor.process
      Aircraft.set_serialized
  survivors-IsLow p [] h = tt
  survivors-IsLow p (a ∷ rest) h = ground (arith, survivors-IsLow p rest h.1, h.0)

  pub process_aircrafts-IsFit :
      (s : AircraftData W) (position : Position W) (atm_press : W)
      → IsFit s
      → IsFit (process_aircrafts s position atm_press)
  unfolding process_aircrafts Runs.step
  process_aircrafts-IsFit s position atm_press f =
      let p = AircraftProcessor.refer_to s.processor position atm_press in
      record {
        sound = step-IsSound s (pass position atm_press) tt f.sound;
        low =
            rw (process_from-survivors p s.container 0 false s.index)
              (survivors-IsLow p s.container f.low);
      }

  update-IsFit :
      (s : AircraftData W) (a : Aircraft W)
      → a.update_age ≡ 0
      → IsLow max_height a
      → IsFit s
      → IsFit (update s a).0
  unfolding Runs.step
  update-IsFit s a new low f = record {
    sound = step-IsSound s (report a) new f.sound;
    low =
        rw (container-update s a f.sound.valid) (updated-IsLow max_height s.container a f.low low);
  }

  pub process_aprsc-IsFit :
      (re : Regexes) (m : Moment W) (f : Feed) (response : Str) (s : AircraftData W)
      → IsFit s
      → IsFit (process_aprsc re max_height m.clock f response s).0
  unfolding process_aprsc Aircraft.of_priority Base.of_priority
  process_aprsc-IsFit re m f response s fit =
      let a : Aircraft W = Aircraft.of_priority f.priority in
      elim (Option-cases (AprsParser.unpack re max_height m.clock response a)) [
        | inl bad ↦ rw (bad, process_aprsc) fit
        | inr (b, good) ↦
            rw (good, process_aprsc)
              (update-IsFit s b
                (ap (λ o. o.update_age) (unpack_aprs-base re max_height m.clock response a b good))
                (unpack_aprs-IsAprsReport re max_height m.clock response a b good).low fit)
      ]

  pub process_sbs-IsFit :
      (m : Moment W) (f : Feed) (response : Str) (s : AircraftData W)
      → IsFit s
      → IsFit (process_sbs max_height m.clock m.garbage f response s).0
  unfolding process_sbs Aircraft.of_priority Base.of_priority
  process_sbs-IsFit m f response s fit =
      let a : Aircraft W = Aircraft.of_priority f.priority in
      elim (Option-cases (SbsParser.unpack max_height m.clock m.garbage response a)) [
        | inl bad ↦ rw (bad, process_sbs) fit
        | inr (b, good) ↦
            rw (good, process_sbs)
              (update-IsFit s b
                (ap (λ o. o.update_age)
                  (unpack_sbs-base max_height m.clock m.garbage response a b good))
                (unpack_sbs-height max_height m.clock m.garbage response a b good).0 fit)
      ]

  pub process_gps-position_locked :
      (re : Regexes) (m : Moment W) (f : Feed) (response : Str) (s : GpsData W)
      → (process_gps re m.clock m.utc f response s).0.position_locked ≡ s.position_locked
  unfolding process_gps GpsData.update GpsData.after_update
  process_gps-position_locked re m f response s = ground arith
