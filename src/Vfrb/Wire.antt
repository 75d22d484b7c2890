-- ===== src/Vfrb/Wire.antt =====
-- What an SBS feed reads, in the text of the next round.
pub mod Delivered
use virtual_flight_radar_bac.Common.{◌≡◌, refl, ◌∙◌, true, some, [], ◌∷◌, All}
use virtual_flight_radar_bac.Common.Int.{ℤ, leb_ℤ}
use virtual_flight_radar_bac.Common.Text.{Str}
use virtual_flight_radar_bac.Math.Checksum.{Lacks}
use virtual_flight_radar_bac.Double.{Double}
use virtual_flight_radar_bac.TimeStamp
use virtual_flight_radar_bac.TimeStamp.{TimeStamp, hh_mm_ss_fff}
use virtual_flight_radar_bac.Object.Base
use virtual_flight_radar_bac.Object.Position.{Position}
use virtual_flight_radar_bac.Object.Aircraft
use virtual_flight_radar_bac.Object.Aircraft.{Aircraft}
use virtual_flight_radar_bac.Data.Processor.GpsProcessor.{Tm}
use virtual_flight_radar_bac.Data.AircraftData.{update}
use virtual_flight_radar_bac.Data.AircraftData.Places.{IsValid, lookup}
use virtual_flight_radar_bac.Data.AircraftData.Update.{merged, accepted, lookup-update}
use virtual_flight_radar_bac.Feed.Feeds.{Feed, process_sbs}
use virtual_flight_radar_bac.Feed.Factory.{sbs_feed}
use virtual_flight_radar_bac.Feed.Parser.Regex.{Regexes}
use virtual_flight_radar_bac.Feed.Parser.SbsParser.{unpack}
use virtual_flight_radar_bac.Feed.Parser.SbsParser.Message.{
  message_of, position_of, unpack-message_of,
}
use virtual_flight_radar_bac.Vfrb.{Vfrb, message}
use virtual_flight_radar_bac.Vfrb.Relay.{StandsIn, sentence_of, processor_of, message-update}
use virtual_flight_radar_bac.Vfrb.System.{Moment, process}

module _ {W : Type 0} ⦃d : Double W⦄ where
  -- A transponder target that a feed reports.
  abbrev pub reported : Feed → Str → TimeStamp → Position W → Aircraft W
  reported f id t p = record (Aircraft.of_priority f.priority) {
    id = id;
    time_stamp = t;
    position = p;
  }

  reported-update_age :
      (f : Feed) (id : Str) (t : TimeStamp) (p : Position W) → (reported f id t p).update_age ≡ 0
  unfolding Aircraft.of_priority Base.of_priority
  reported-update_age f id t p = refl

module _ {W S : Type 0} ⦃d : Double W⦄ where
  process-unpacked :
      (re : Regexes) (max_height : ℤ) (m : Moment W) (f : Feed) (response : Str) (v : Vfrb W S)
      (a : Aircraft W)
      → unpack max_height m.clock m.garbage response (Aircraft.of_priority f.priority) ≡ some a
      → (process re max_height m sbs_feed f response v).0
        ≡ record v { aircraft_data = (update v.aircraft_data a).0 }
  unfolding process process_sbs
  process-unpacked re max_height m f response v a e = rw (e, process_sbs) refl

  -- A message of the kind 3 that an SBS feed reads, whose fields 2 to 15 are given, none of them
  -- with a comma, with a time and a position that can be read and an altitude not above the height
  -- that is set: where the container, which is valid, does not know the aircraft yet, or what it
  -- knows takes the update, the sentence of that aircraft is in the text of the next round.
  pub message-message_of :
      (re : Regexes) (max_height : ℤ) (m : Moment W) (utc : Tm) (f : Feed) (v : Vfrb W S)
      (f2 f3 f4 f5 f6 f7 f8 f9 f10 f11 f12 f13 f14 f15 rest : Str) (t : TimeStamp) (p : Position W)
      → let fs = f2 ∷ f3 ∷ f4 ∷ f5 ∷ f6 ∷ f7 ∷ f8 ∷ f9 ∷ f10 ∷ f11 ∷ f12 ∷ f13 ∷ f14 ∷ f15 ∷ [] in
        let a = reported f f4 t p in
        All (Lacks b',') fs
        → TimeStamp.make m.clock f7 hh_mm_ss_fff ≡ some t
        → position_of f11 f14 f15 ≡ some p
        → leb_ℤ p.altitude max_height ≡ true
        → IsValid v.aircraft_data
        → accepted (lookup v.aircraft_data f4) a ≡ true
        → StandsIn
            (sentence_of (processor_of v) (merged (lookup v.aircraft_data f4) a))
            (message utc (process re max_height m sbs_feed f (message_of fs rest) v).0).1
  unfolding Aircraft.of_priority
  message-message_of re max_height m utc f v f2 f3 f4 f5 f6 f7 f8 f9 f10 f11 f12 f13 f14 f15 rest t
        p commas time place low valid takes =
      let fs = f2 ∷ f3 ∷ f4 ∷ f5 ∷ f6 ∷ f7 ∷ f8 ∷ f9 ∷ f10 ∷ f11 ∷ f12 ∷ f13 ∷ f14 ∷ f15 ∷ [] in
      let a = reported f f4 t p in
      let accepts =
        unpack-message_of max_height m.clock m.garbage (Aircraft.of_priority f.priority) f2 f3 f4 f5
          f6 f7 f8 f9 f10 f11 f12 f13 f14 f15 rest commas
        ∙ rw (time, place, low) refl in
      rw (process-unpacked re max_height m f (message_of fs rest) v a accepts) (
        message-update utc v a valid (reported-update_age f f4 t p)
          ((lookup-update v.aircraft_data a f4 valid).1 ∙ takes))
