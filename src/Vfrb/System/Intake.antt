-- ===== src/Vfrb/System/Intake.antt =====
-- What the feeds leave in the containers: sentences, and aircraft with ids that can be printed.
use virtual_flight_radar_bac.Common.{inl, inr, arith, Option-cases, Bool-cases}
use virtual_flight_radar_bac.Common.Int.{ℤ}
use virtual_flight_radar_bac.Common.Text.{Str}
use virtual_flight_radar_bac.Common.Print.Digits.{IsPlain, IsInt32}
use virtual_flight_radar_bac.Double.{Double}
use virtual_flight_radar_bac.Object.Base
use virtual_flight_radar_bac.Object.Aircraft
use virtual_flight_radar_bac.Object.Aircraft.{Aircraft}
use virtual_flight_radar_bac.Object.GpsPosition
use virtual_flight_radar_bac.Object.GpsPosition.{GpsPosition}
use virtual_flight_radar_bac.Object.Atmosphere
use virtual_flight_radar_bac.Object.Wind
use virtual_flight_radar_bac.Data.Processor.Wellformed.{IsPrintable, double_to_int-IsInt32}
use virtual_flight_radar_bac.Data.Processor.GpsProcessor
use virtual_flight_radar_bac.Data.Processor.GpsProcessor.{Tm}
use virtual_flight_radar_bac.Data.AircraftData.{AircraftData}
use virtual_flight_radar_bac.Data.AircraftData.Sentences.{AreVoiced, update-AreVoiced}
use virtual_flight_radar_bac.Data.GpsData
use virtual_flight_radar_bac.Data.GpsData.{GpsData}
use virtual_flight_radar_bac.Data.AtmosphereData
use virtual_flight_radar_bac.Data.AtmosphereData.{AtmosphereData}
use virtual_flight_radar_bac.Data.WindData
use virtual_flight_radar_bac.Data.WindData.{WindData}
use virtual_flight_radar_bac.Feed.Parser.Nmea.Guarded.{
  AreGuarded, empty-AreGuarded, single-AreGuarded,
}
use virtual_flight_radar_bac.Feed.Parser.Regex.{Regexes}
use virtual_flight_radar_bac.Feed.Parser.AprsParser
use virtual_flight_radar_bac.Feed.Parser.SbsParser
use virtual_flight_radar_bac.Feed.Parser.GpsParser
use virtual_flight_radar_bac.Feed.Parser.WindParser
use virtual_flight_radar_bac.Feed.Parser.AtmosphereParser
use virtual_flight_radar_bac.Feed.Parser.Lines.{
  unpack_wind-line, unpack_atmosphere-line, unpack_gps-altitude,
}
use virtual_flight_radar_bac.Feed.Parser.Ids.{IsCutting, unpack_sbs-id, unpack_aprs-id}
use virtual_flight_radar_bac.Feed.Feeds.{
  Feed, process_aprsc, process_sbs, process_gps, process_wind, process_atmosphere,
}
use virtual_flight_radar_bac.Vfrb.System.{Moment}
use virtual_flight_radar_bac.Vfrb.System.Base.{unpack_sbs-base, unpack_aprs-base}
use virtual_flight_radar_bac.Vfrb.System.Fit.{IsFit}

module _ {W : Type 0} ⦃d : Double W⦄ where
  pub process_aprsc-AreVoiced :
      (re : Regexes) (max_height : ℤ) (m : Moment W) (f : Feed) (response : Str)
      (s : AircraftData W)
      → IsCutting re
      → IsPlain 1000 response
      → IsFit max_height s
      → AreVoiced s
      → AreVoiced (process_aprsc re max_height m.clock f response s).0
  unfolding process_aprsc Aircraft.of_priority Base.of_priority
  process_aprsc-AreVoiced re max_height m f response s c p fit v =
      let a : Aircraft W = Aircraft.of_priority f.priority in
      elim (Option-cases (AprsParser.unpack re max_height m.clock response a)) [
        | inl bad ↦ rw (bad, process_aprsc) v
        | inr (b, good) ↦
            rw (good, process_aprsc)
              (update-AreVoiced s b fit.sound.valid
                (record {
                  named = unpack_aprs-id 1000 re max_height m.clock response a b good c p;
                  spoken =
                      rw (unpack_aprs-base re max_height m.clock response a b good)
                        empty-AreGuarded;
                })
                v)
      ]

  pub process_sbs-AreVoiced :
      (max_height : ℤ) (m : Moment W) (f : Feed) (response : Str) (s : AircraftData W)
      → IsPlain 1000 response
      → IsFit max_height s
      → AreVoiced s
      → AreVoiced (process_sbs max_height m.clock m.garbage f response s).0
  unfolding process_sbs Aircraft.of_priority Base.of_priority
  process_sbs-AreVoiced max_height m f response s p fit v =
      let a : Aircraft W = Aircraft.of_priority f.priority in
      elim (Option-cases (SbsParser.unpack max_height m.clock m.garbage response a)) [
        | inl bad ↦ rw (bad, process_sbs) v
        | inr (b, good) ↦
            rw (good, process_sbs)
              (update-AreVoiced s b fit.sound.valid
                (record {
                  named =
                      unpack_sbs-id 1000 max_height m.clock m.garbage response a b good p
                        (record { ascii = tt; short = omega arith });
                  spoken =
                      rw (unpack_sbs-base max_height m.clock m.garbage response a b good)
                        empty-AreGuarded;
                })
                v)
      ]

  abbrev pub IsPlaced : GpsPosition W → Type 0
  IsPlaced p = IsInt32 p.position.altitude

  try_update-IsPlaced :
      (p q : GpsPosition W) → IsPlaced p → IsPlaced q → IsPlaced (GpsPosition.try_update p q).0
  unfolding GpsPosition.try_update GpsPosition.assign
  try_update-IsPlaced p q h k = ground arith

  update-IsPlaced :
      (utc : Tm) (s : GpsData W) (p : GpsPosition W)
      → IsPlaced s.position
      → IsPlaced p
      → IsPlaced (GpsData.update utc s p).0.position
  unfolding GpsData.update GpsData.after_update GpsProcessor.process GpsPosition.set_serialized
  update-IsPlaced utc s p h k = ground (arith, try_update-IsPlaced s.position p h k)

  pub process_gps-IsPlaced :
      (re : Regexes) (m : Moment W) (f : Feed) (response : Str) (s : GpsData W)
      → IsPrintable W
      → IsPlaced s.position
      → IsPlaced (process_gps re m.clock m.utc f response s).0.position
  unfolding process_gps
  process_gps-IsPlaced re m f response s h q =
      let a : GpsPosition W = GpsPosition.of_priority f.priority in
      elim (Option-cases (GpsParser.unpack re m.clock response a)) [
        | inl bad ↦ rw (bad, process_gps) q
        | inr (p, good) ↦
            let (w, same) = unpack_gps-altitude re m.clock response a p good in
            rw (good, process_gps)
              (update-IsPlaced m.utc s p q (rw same (double_to_int-IsInt32 w h)))
      ]

  pub process_atmosphere-AreGuarded :
      (f : Feed) (response : Str) (s : AtmosphereData W)
      → AreGuarded s.atmosphere.serialized
      → AreGuarded (process_atmosphere f response s).0.atmosphere.serialized
  unfolding process_atmosphere AtmosphereData.update Atmosphere.try_update Atmosphere.assign
      Base.assign
  process_atmosphere-AreGuarded f response s g =
      let a : Atmosphere.Atmosphere W = Atmosphere.of_priority f.priority in
      elim (Option-cases (AtmosphereParser.unpack response a)) [
        | inl bad ↦ rw (bad, process_atmosphere) g
        | inr (b, good) ↦
            let (star, same) = unpack_atmosphere-line response a b good in
            elim (Bool-cases (Base.can_update b.base s.atmosphere.base)) [
              | inl taken ↦
                  rw (good, process_atmosphere, taken, same) (single-AreGuarded response star)
              | inr refused ↦ rw (good, process_atmosphere, refused) g
            ]
      ]

pub process_wind-AreGuarded :
    (f : Feed) (response : Str) (s : WindData)
    → AreGuarded s.wind.serialized
    → AreGuarded (process_wind f response s).0.wind.serialized
unfolding process_wind WindData.update Wind.try_update Base.assign
process_wind-AreGuarded f response s g =
    let a : Wind.Wind = Wind.of_priority f.priority in
    elim (Option-cases (WindParser.unpack response a)) [
      | inl bad ↦ rw (bad, process_wind) g
      | inr (b, good) ↦
          let (star, same) = unpack_wind-line response a b good in
          elim (Bool-cases (Base.can_update b.base s.wind.base)) [
            | inl taken ↦ rw (good, process_wind, taken, same) (single-AreGuarded response star)
            | inr refused ↦ rw (good, process_wind, refused) g
          ]
    ]
