-- ===== src/Vfrb/System/Clear.antt =====
-- What the text of a round is made of is in order: it is a sequence of sentences.
use virtual_flight_radar_bac.Common.Int.{ℤ}
use virtual_flight_radar_bac.Common.Text.{Str}
use virtual_flight_radar_bac.Common.Print.Digits.{IsPlain, IsInt32}
use virtual_flight_radar_bac.Double.{Double}
use virtual_flight_radar_bac.Object.Base
use virtual_flight_radar_bac.Object.GpsPosition
use virtual_flight_radar_bac.Object.Atmosphere
use virtual_flight_radar_bac.Object.Wind
use virtual_flight_radar_bac.Data.Processor.Wellformed.{IsPrintable}
use virtual_flight_radar_bac.Data.Processor.GpsProcessor
use virtual_flight_radar_bac.Data.Processor.GpsProcessor.{Tm}
use virtual_flight_radar_bac.Data.Processor.GpsProcessor.Fixes.{IsCalendar, process-guarded}
use virtual_flight_radar_bac.Data.AircraftData.{of_max_distance}
use virtual_flight_radar_bac.Data.AircraftData.Sentences.{
  AreVoiced, process_aircrafts-AreVoiced, get_serialized-AreGuarded,
}
use virtual_flight_radar_bac.Data.GpsData
use virtual_flight_radar_bac.Data.GpsData.{GpsData}
use virtual_flight_radar_bac.Data.AtmosphereData
use virtual_flight_radar_bac.Data.WindData
use virtual_flight_radar_bac.Feed.Parser.Nmea.Guarded.{
  AreGuarded, empty-AreGuarded, single-AreGuarded, append-AreGuarded,
}
use virtual_flight_radar_bac.Feed.Parser.Regex.{Regexes}
use virtual_flight_radar_bac.Feed.Parser.Ids.{IsCutting}
use virtual_flight_radar_bac.Feed.Feeds.{Feed}
use virtual_flight_radar_bac.Feed.Factory.{
  FeedClass, aprsc_feed, sbs_feed, gps_feed, wind_feed, atmosphere_feed,
}
use virtual_flight_radar_bac.Config.{Configuration}
use virtual_flight_radar_bac.Vfrb.{Vfrb, of_configuration, message}
use virtual_flight_radar_bac.Vfrb.System.{Moment, process}
use virtual_flight_radar_bac.Vfrb.System.Fit.{
  IsFit, process_aircrafts-IsFit, process_aprsc-IsFit, process_sbs-IsFit,
}
use virtual_flight_radar_bac.Vfrb.System.Reach.{of_configuration-IsSane}
use virtual_flight_radar_bac.Vfrb.System.Intake.{
  IsPlaced, process_aprsc-AreVoiced, process_sbs-AreVoiced, process_gps-IsPlaced,
  process_atmosphere-AreGuarded, process_wind-AreGuarded,
}

module _ {W : Type 0} ⦃d : Double W⦄ where
  position-AreGuarded :
      (utc : Tm) (v : GpsData W) (text : Str)
      → IsPrintable W
      → IsCalendar utc
      → IsPlaced v.position
      → AreGuarded text
      → AreGuarded (GpsData.get_serialized utc v text).1
  unfolding GpsData.get_serialized GpsPosition.increment Base.increment
  position-AreGuarded utc v text h c p g =
      let (whole, first, second) = process-guarded utc v.position h c p in
      append-AreGuarded text _ g
        (rw whole (append-AreGuarded _ _ (single-AreGuarded _ first) (single-AreGuarded _ second)))

module _ {W S : Type 0} ⦃d : Double W⦄ (max_height : ℤ) where
  pub record IsClear (v : Vfrb W S) : Type 0 where
    pub fit : IsFit max_height v.aircraft_data
    pub voiced : AreVoiced v.aircraft_data
    pub placed : IsPlaced v.gps_data.position
    pub air : AreGuarded v.atmosphere_data.atmosphere.serialized
    pub wind : AreGuarded v.wind_data.wind.serialized

  pub process-IsClear :
      (re : Regexes) (m : Moment W) (c : FeedClass) (f : Feed) (response : Str) (v : Vfrb W S)
      → IsCutting re
      → IsPrintable W
      → IsPlain 1000 response
      → IsClear v
      → IsClear (process re max_height m c f response v).0
  unfolding process
  process-IsClear re m aprsc_feed f response v cut h p k = record {
    fit = process_aprsc-IsFit max_height re m f response v.aircraft_data k.fit;
    voiced =
        process_aprsc-AreVoiced re max_height m f response v.aircraft_data cut p k.fit k.voiced;
    placed = k.placed;
    air = k.air;
    wind = k.wind;
  }
  process-IsClear re m sbs_feed f response v cut h p k = record {
    fit = process_sbs-IsFit max_height m f response v.aircraft_data k.fit;
    voiced = process_sbs-AreVoiced max_height m f response v.aircraft_data p k.fit k.voiced;
    placed = k.placed;
    air = k.air;
    wind = k.wind;
  }
  process-IsClear re m gps_feed f response v cut h p k = record {
    fit = k.fit;
    voiced = k.voiced;
    placed = process_gps-IsPlaced re m f response v.gps_data h k.placed;
    air = k.air;
    wind = k.wind;
  }
  process-IsClear re m wind_feed f response v cut h p k = record {
    fit = k.fit;
    voiced = k.voiced;
    placed = k.placed;
    air = k.air;
    wind = process_wind-AreGuarded f response v.wind_data k.wind;
  }
  process-IsClear re m atmosphere_feed f response v cut h p k = record {
    fit = k.fit;
    voiced = k.voiced;
    placed = k.placed;
    air = process_atmosphere-AreGuarded f response v.atmosphere_data k.air;
    wind = k.wind;
  }

  pub message-IsClear :
      (utc : Tm) (v : Vfrb W S) → IsPrintable W → IsClear v → IsClear (message utc v).0
  unfolding message GpsData.get_serialized AtmosphereData.get_serialized WindData.get_serialized
      GpsProcessor.process GpsPosition.set_serialized GpsPosition.increment Atmosphere.increment
      Wind.increment Wind.set_serialized Base.increment Base.set_serialized
  message-IsClear utc v h k = record {
    fit = process_aircrafts-IsFit max_height v.aircraft_data _ _ k.fit;
    voiced = process_aircrafts-AreVoiced v.aircraft_data _ _ h k.voiced;
    placed = k.placed;
    air = k.air;
    wind = empty-AreGuarded;
  }

  pub message-AreGuarded :
      (utc : Tm) (v : Vfrb W S)
      → IsPrintable W
      → IsCalendar utc
      → IsClear v
      → AreGuarded (message utc v).1
  unfolding message AtmosphereData.get_serialized WindData.get_serialized Atmosphere.increment
      Wind.increment Base.increment
  message-AreGuarded utc v h c k =
      append-AreGuarded _ _
        (append-AreGuarded _ _
          (position-AreGuarded utc v.gps_data _ h c k.placed (
            get_serialized-AreGuarded _ (
              process_aircrafts-AreVoiced v.aircraft_data (GpsData.get_position v.gps_data)
                (AtmosphereData.get_atm_pressure v.atmosphere_data) h k.voiced)))
          k.air)
        k.wind

module _ {W S P : Type 0} ⦃d : Double W⦄ where
  pub of_configuration-IsClear :
      (utc : Tm) (c : Configuration W P)
      → IsInt32 c.position.position.altitude
      → IsClear {S = S} c.max_height (of_configuration utc c)
  unfolding of_configuration GpsData.of_position GpsProcessor.process GpsPosition.set_serialized
      of_max_distance Atmosphere.of_pressure Wind.of_priority Base.of_priority
  of_configuration-IsClear utc c i = record {
    fit = (of_configuration-IsSane {S = S} utc c).aircraft;
    voiced = tt;
    placed = i;
    air = empty-AreGuarded;
    wind = empty-AreGuarded;
  }
