-- ===== src/Vfrb/Clients.antt =====
-- A client with the feeds of the program: which lines end it.
use virtual_flight_radar_bac.Common.{
  ◌≡◌, refl, Bool, true, false, ◌&&◌, some, List, [], ◌∷◌, ◌++◌, arith, All, if◌then◌else◌,
}
use virtual_flight_radar_bac.Common.Int.{ℤ}
use virtual_flight_radar_bac.Common.Text.{Str}
use virtual_flight_radar_bac.Double.{Double}
use virtual_flight_radar_bac.Object.GpsPosition
use virtual_flight_radar_bac.Object.GpsPosition.{GpsPosition}
use virtual_flight_radar_bac.Data.GpsData.{GpsData, is_position_good}
use virtual_flight_radar_bac.Data.GpsData.Ground.{update-outcome}
use virtual_flight_radar_bac.Feed.Parser.Regex.{Regexes}
use virtual_flight_radar_bac.Feed.Parser.GpsParser
use virtual_flight_radar_bac.Feed.Feeds.{
  Feed, process_aprsc, process_sbs, process_gps, process_wind, process_atmosphere,
}
use virtual_flight_radar_bac.Feed.Factory.{
  FeedClass, aprsc_feed, sbs_feed, gps_feed, wind_feed, atmosphere_feed,
}
use virtual_flight_radar_bac.Client
use virtual_flight_radar_bac.Client.{
  running, stopping, success, stop_connector, handle_read, feed_all, read_actions,
}
use virtual_flight_radar_bac.Vfrb.{Vfrb}
use virtual_flight_radar_bac.Vfrb.System.{Moment, process}

-- No feed of the position.
abbrev pub IsOther : FeedClass × Feed → Type 0
IsOther (gps_feed, f) = ⊥
IsOther _ = Unit {0}

module _ {W : Type 0} ⦃d : Double W⦄ (re : Regexes) (m : Moment W) where
  process_gps-goes_on :
      (f : Feed) (response : Str) (s : GpsData W) (p : GpsPosition W)
      → GpsParser.unpack re m.clock response (GpsPosition.of_priority f.priority) ≡ some p
      → s.position_locked ≡ false
      → (process_gps re m.clock m.utc f response s).1 ≡ (
          if s.ground_mode && (GpsPosition.can_update p s.position && is_position_good p)
          then false
          else true)
  unfolding process_gps
  process_gps-goes_on f response s p e unlocked =
      ground (arith, e, update-outcome m.utc s p unlocked)

module _ {W S : Type 0} ⦃d : Double W⦄ (re : Regexes) (max_height : ℤ) (m : Moment W) where
  abbrev pub takes : FeedClass × Feed → Str → Vfrb W S → Vfrb W S × Bool
  takes (c, f) response v = process re max_height m c f response v

  takes-goes_on :
      (f : FeedClass × Feed) (response : Str) (v : Vfrb W S)
      → IsOther f
      → (takes f response v).1 ≡ true
  unfolding process process_aprsc process_sbs process_wind process_atmosphere
  takes-goes_on (aprsc_feed, f) response v o = ground arith
  takes-goes_on (sbs_feed, f) response v o = ground arith
  takes-goes_on (gps_feed, f) response v o = absurd o
  takes-goes_on (wind_feed, f) response v o = ground arith
  takes-goes_on (atmosphere_feed, f) response v o = ground arith

  feed_all-others :
      (fs : List (FeedClass × Feed)) (response : Str) (v : Vfrb W S) (c : Client.Client)
      → All IsOther fs
      → (feed_all takes fs response v c).1 ≡ (c, [])
  unfolding feed_all
  feed_all-others [] response v c o = refl
  feed_all-others (f ∷ fs) response v c o =
      rw (takes-goes_on f response v o.0, feed_all-others fs response (takes f response v).0 c o.1)
        refl

  -- A client without a feed of the position goes on reading, whatever it reads.
  pub handle_read-others :
      (fs : List (FeedClass × Feed)) (response : Str) (v : Vfrb W S) (c : Client.Client)
      → All IsOther fs
      → c.state ≡ running
      → (handle_read takes fs success response v c).1 ≡ (c, read_actions c.kind)
  unfolding handle_read
  handle_read-others fs response v c o runs =
      ground (arith, runs, feed_all-others fs response v c o)

  -- A client with one feed of the position that reads a sentence which the parser accepts: in ground
  -- mode, if the position is taken over and is good, the client stops, and its connector with it
  -- before the next read is asked for; otherwise it goes on reading.
  pub handle_read-gps :
      (f : Feed) (response : Str) (v : Vfrb W S) (p : GpsPosition W) (c : Client.Client)
      → GpsParser.unpack re m.clock response (GpsPosition.of_priority f.priority) ≡ some p
      → v.gps_data.position_locked ≡ false
      → c.state ≡ running
      → (handle_read takes ((gps_feed, f) ∷ []) success response v c).1 ≡ (
          if v.gps_data.ground_mode
            && (GpsPosition.can_update p v.gps_data.position && is_position_good p)
          then ((Client.stop c).0, (Client.stop c).1 ++ read_actions c.kind)
          else (c, read_actions c.kind))
  unfolding handle_read feed_all process
  handle_read-gps f response v p c e unlocked runs =
      ground (arith, runs, process_gps-goes_on re m f response v.gps_data p e unlocked)
