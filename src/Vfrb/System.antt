-- ===== src/Vfrb/System.antt =====
-- The whole program at work: the lines that the feeds process, the rounds of the main loop of
-- src/VFRB.cpp and what happens to the server, in any order. The mutexes of the containers and of the
-- server make each a step.
mod Base
pub mod Fit
pub mod Reach
mod Intake
pub mod Clear
pub mod Sentences
use virtual_flight_radar_bac.Common.{Bool, List, [], ◌∷◌}
use virtual_flight_radar_bac.Common.Int.{ℤ}
use virtual_flight_radar_bac.Common.Text.{Str}
use virtual_flight_radar_bac.Double.{Double}
use virtual_flight_radar_bac.TimeStamp.{Clock}
use virtual_flight_radar_bac.Object.Position.{Position}
use virtual_flight_radar_bac.Data.Processor.GpsProcessor.{Tm}
use virtual_flight_radar_bac.Feed.Parser.Regex.{Regexes}
use virtual_flight_radar_bac.Feed.Feeds.{
  Feed, process_aprsc, process_sbs, process_gps, process_wind, process_atmosphere,
}
use virtual_flight_radar_bac.Feed.Factory.{
  FeedClass, aprsc_feed, sbs_feed, gps_feed, wind_feed, atmosphere_feed,
}
use virtual_flight_radar_bac.Server.{Answer}
use virtual_flight_radar_bac.Server.Invariant
use virtual_flight_radar_bac.Vfrb.{Vfrb, serve_round}

-- What a feed finds when it processes a line: the clocks, and the garbage in a local variable.
pub record Moment (W : Type 0) : Type 0 where
  pub clock : Clock
  pub utc : Tm
  pub garbage : Position W

pub data Event (W S : Type 0) : Type 0 where
  receives : Moment W → FeedClass → Feed → Str → Event W S
  rounds : (S → Str → Answer Bool) → Tm → Event W S
  serves : Invariant.Event S → Event W S

module _ {W S : Type 0} ⦃d : Double W⦄ (re : Regexes) (max_height : ℤ) where
  -- `process`, virtual: each feed has the container that the factory gave to it.
  unfoldable pub process : Moment W → FeedClass → Feed → Str → Vfrb W S → Vfrb W S × Bool
  process m aprsc_feed f response v =
      let (store, goes_on) = process_aprsc re max_height m.clock f response v.aircraft_data in
      (record v { aircraft_data = store }, goes_on)
  process m sbs_feed f response v =
      let (store, goes_on) = process_sbs max_height m.clock m.garbage f response v.aircraft_data in
      (record v { aircraft_data = store }, goes_on)
  process m gps_feed f response v =
      let (store, goes_on) = process_gps re m.clock m.utc f response v.gps_data in
      (record v { gps_data = store }, goes_on)
  process m wind_feed f response v =
      let (store, goes_on) = process_wind f response v.wind_data in
      (record v { wind_data = store }, goes_on)
  process m atmosphere_feed f response v =
      let (store, goes_on) = process_atmosphere f response v.atmosphere_data in
      (record v { atmosphere_data = store }, goes_on)

  unfoldable pub step : Event W S → Vfrb W S → Vfrb W S
  unfolding process
  step (receives m c f response) v = (process m c f response v).0
  step (rounds write utc) v = serve_round write utc v
  step (serves e) v = record v { server = Invariant.step v.server e }

  unfoldable pub run : List (Event W S) → Vfrb W S → Vfrb W S
  unfolding step
  run [] v = v
  run (e ∷ es) v = run es (step e v)
