-- ===== src/Vfrb/Wire/Delivered.antt =====
-- The line of a feed from the connector of its client to the clients of the server.
use virtual_flight_radar_bac.Common.{ℕ, ◌≡◌, refl, Bool, true, some, [], ◌∷◌, All, get_elem?}
use virtual_flight_radar_bac.Common.Text.{Str}
use virtual_flight_radar_bac.Common.Int.{ℤ, leb_ℤ}
use virtual_flight_radar_bac.Math.Checksum.{Lacks}
use virtual_flight_radar_bac.Double.{Double}
use virtual_flight_radar_bac.TimeStamp
use virtual_flight_radar_bac.TimeStamp.{TimeStamp, hh_mm_ss_fff}
use virtual_flight_radar_bac.Object.Position.{Position}
use virtual_flight_radar_bac.Data.Processor.GpsProcessor.{Tm}
use virtual_flight_radar_bac.Data.AircraftData.Places.{IsValid, lookup}
use virtual_flight_radar_bac.Data.AircraftData.Update.{merged, accepted}
use virtual_flight_radar_bac.Feed.Feeds.{Feed}
use virtual_flight_radar_bac.Feed.Factory.{sbs_feed}
use virtual_flight_radar_bac.Feed.Parser.Regex.{Regexes}
use virtual_flight_radar_bac.Feed.Parser.SbsParser.Message.{message_of, position_of}
use virtual_flight_radar_bac.Vfrb.{message}
use virtual_flight_radar_bac.Vfrb.Relay.{StandsIn, sentence_of, processor_of}
use virtual_flight_radar_bac.Vfrb.Wire.{reported, message-message_of}
use virtual_flight_radar_bac.Vfrb.Program.{Site, takes_line}
use virtual_flight_radar_bac.Client.{success, running, feed_all, handle_read}
use virtual_flight_radar_bac.Client.Machine
use virtual_flight_radar_bac.Client.Connector.{receive, complete, handle_received}
use virtual_flight_radar_bac.Client.Connector.Joint.{
  Joint, completes, event_of, handle_event, handle_call, handle_calls, dispatch, next,
}
use virtual_flight_radar_bac.Client.Manager.Threads.Lines.{next_line}

-- A client that runs, with one feed, gives this the line that a read is done with.
next-world :
    {F World : Type 0} (process : F → Str → World → World × Bool) (host port : Str) (f : F)
    (now i : ℕ) (j : Joint World)
    → get_elem? j.connector.pending i ≡ some receive
    → j.client.state ≡ running
    → (next process host port (f ∷ []) (completes now i success) j).world
      ≡ (process f (next_line j.connector) j.world).0
unfolding next dispatch handle_calls handle_call handle_event event_of complete handle_received
    Machine.step handle_read feed_all
next-world process host port f now i j pending runs = rw (pending, runs) refl

module _ {W : Type 0} ⦃d : Double W⦄ where
  -- A client that runs, with one feed, an SBS feed, reads a line: a message of the kind 3 whose fields
  -- 2 to 15 are given, none of them with a comma, with a time and a position that can be read and an
  -- altitude not above the height that is set. Where the container, which is valid, does not know the
  -- aircraft yet, or what it knows takes the update, the sentence of that aircraft is in the text of
  -- the next round.
  pub next-message_of :
      (re : Regexes) (max_height : ℤ) (host port : Str) (f : Feed) (now i : ℕ) (j : Joint (Site W))
      (utc : Tm) (f2 f3 f4 f5 f6 f7 f8 f9 f10 f11 f12 f13 f14 f15 rest : Str) (t : TimeStamp)
      (p : Position W)
      → let fs = f2 ∷ f3 ∷ f4 ∷ f5 ∷ f6 ∷ f7 ∷ f8 ∷ f9 ∷ f10 ∷ f11 ∷ f12 ∷ f13 ∷ f14 ∷ f15 ∷ [] in
        let v = j.world.vfrb in
        let a = reported f f4 t p in
        get_elem? j.connector.pending i ≡ some receive
        → j.client.state ≡ running
        → next_line j.connector ≡ message_of fs rest
        → All (Lacks b',') fs
        → TimeStamp.make j.world.moment.clock f7 hh_mm_ss_fff ≡ some t
        → position_of f11 f14 f15 ≡ some p
        → leb_ℤ p.altitude max_height ≡ true
        → IsValid v.aircraft_data
        → accepted (lookup v.aircraft_data f4) a ≡ true
        → StandsIn
            (sentence_of (processor_of v) (merged (lookup v.aircraft_data f4) a))
            (message utc
              (next
                (takes_line re max_height)
                host
                port
                ((sbs_feed, f) ∷ [])
                (completes now i success)
                j).world.vfrb).1
  unfolding takes_line
  next-message_of re max_height host port f now i j utc f2 f3 f4 f5 f6 f7 f8 f9 f10 f11 f12 f13 f14
        f15 rest t p pending runs line commas time place low valid takes =
      rw (next-world (takes_line re max_height) host port (sbs_feed, f) now i j pending runs, line)
        (message-message_of re max_height j.world.moment utc f j.world.vfrb f2 f3 f4 f5 f6 f7 f8 f9
          f10 f11 f12 f13 f14 f15 rest t p commas time place low valid takes)
