-- ===== src/Vfrb/Relay.antt =====
-- What a report that is taken over does to the text of the next round.
use mathlib.Core.List.{append_assoc, append-nil}
use virtual_flight_radar_bac.Common.{
  ◌≤◌, ◌≡◌, ◌⊎◌, refl, sym, ap, ◌∙◌, inl, inr, true, false, Option, none, some, List, [], ◌∷◌, ◌++◌,
  arith, ltb, if◌then◌else◌, Bool-cases,
}
use virtual_flight_radar_bac.Common.Text.{Str, codes, str_eq, contains}
use virtual_flight_radar_bac.Double.{Double}
use virtual_flight_radar_bac.Object.Base
use virtual_flight_radar_bac.Object.Base.{obj_outdated}
use virtual_flight_radar_bac.Object.Aircraft
use virtual_flight_radar_bac.Object.Aircraft.{Aircraft}
use virtual_flight_radar_bac.Object.Wind
use virtual_flight_radar_bac.Data.Processor.GpsProcessor.{Tm}
use virtual_flight_radar_bac.Data.Processor.AircraftProcessor
use virtual_flight_radar_bac.Data.Processor.AircraftProcessor.{AircraftProcessor}
use virtual_flight_radar_bac.Data.AircraftData
use virtual_flight_radar_bac.Data.AircraftData.{
  AircraftData, aged, refreshed, serialize, update, process_aircrafts,
}
use virtual_flight_radar_bac.Data.AircraftData.Places.{IsValid, known, lookup, lookup-known}
use virtual_flight_radar_bac.Data.AircraftData.Survivors.{survives, survivors}
use virtual_flight_radar_bac.Data.AircraftData.Process.{process_from-survivors}
use virtual_flight_radar_bac.Data.AircraftData.Update.{
  updated, merged, accepted, container-update, lookup-update,
}
use virtual_flight_radar_bac.Data.AircraftData.Track.{update-processor}
use virtual_flight_radar_bac.Data.GpsData
use virtual_flight_radar_bac.Data.AtmosphereData
use virtual_flight_radar_bac.Data.WindData
use virtual_flight_radar_bac.Feed.Feeds.{Feed, process_wind}
use virtual_flight_radar_bac.Feed.Parser.Nmea.{checksum_matches}
use virtual_flight_radar_bac.Feed.Parser.WindParser
use virtual_flight_radar_bac.Vfrb.{Vfrb, message}

-- A text stands in another one.
abbrev pub StandsIn : Str → Str → Type 0
StandsIn s text = (before after : Str) × (text ≡ before ++ s ++ after)

StandsIn-before : (s text t : Str) → StandsIn s text → StandsIn s (t ++ text)
StandsIn-before s text t (before, after, e) = (
  t ++ before,
  after,
  rw e (
      sym (append_assoc t (before ++ s) after)
      ∙ ap (λ x. x ++ after) (sym (append_assoc t before s))),
)

StandsIn-after : (s text t : Str) → StandsIn s text → StandsIn s (text ++ t)
StandsIn-after s text t (before, after, e) =
    (before, after ++ t, rw e (append_assoc (before ++ s) after t))

module _ {W : Type 0} ⦃d : Double W⦄ where
  -- What is sent for an aircraft by the pass after its report.
  abbrev pub sentence_of : AircraftProcessor W → Aircraft W → Str
  sentence_of p a = (AircraftProcessor.process p (aged a)).serialized

  text_of : AircraftProcessor W → List (Aircraft W) → Str
  text_of p l = serialize (survivors p l)

  text_of-head :
      (p : AircraftProcessor W) (a : Aircraft W) (rest : List (Aircraft W))
      → a.update_age ≡ 0
      → text_of p (a ∷ rest) ≡ sentence_of p a ++ text_of p rest
  unfolding text_of survivors survives serialize aged refreshed Aircraft.increment Base.increment
      AircraftProcessor.process Aircraft.set_serialized Base.set_serialized
  text_of-head p a rest h = ground arith

  text_of-cons :
      (p : AircraftProcessor W) (a : Aircraft W) (rest : List (Aircraft W))
      → (t : Str) × (text_of p (a ∷ rest) ≡ t ++ text_of p rest)
  unfolding text_of survivors serialize
  text_of-cons p a rest = elim (Bool-cases (survives a)) [
    | inl stays ↦
        let c = refreshed p (aged a) in
        (if ltb c.update_age obj_outdated then c.serialized else [], rw stays refl)
    | inr goes ↦ ([], rw goes refl)
  ]

  text_of-updated :
      (p : AircraftProcessor W) (l : List (Aircraft W)) (a : Aircraft W)
      → (merged (known a.id l) a).update_age ≡ 0
      → StandsIn (sentence_of p (merged (known a.id l) a)) (text_of p (updated l a))
  unfolding updated
  text_of-updated p [] a h = ([], text_of p [], text_of-head p a [] h)
  text_of-updated p (b ∷ rest) a h = elim (Bool-cases (str_eq b.id a.id)) [
    | inl same ↦
        rw same ([], text_of p rest, text_of-head p (Aircraft.try_update b a).0 rest (rw same at h))
    | inr other ↦
        let (t, e) = text_of-cons p b (updated rest a) in
        rw (other, e) (StandsIn-before _ _ t (text_of-updated p rest a (rw other at h)))
  ]

  accepted-fresh :
      (old : Option (Aircraft W)) (a : Aircraft W)
      → a.update_age ≡ 0
      → accepted old a ≡ true
      → (merged old a).update_age ≡ 0
  unfolding Aircraft.try_update Aircraft.assign Base.assign
  accepted-fresh none a new e = new
  accepted-fresh (some b) a new e = ground arith

wind-taken :
    (f : Feed) (response : Str) (store : WindData.WindData)
    → checksum_matches response ≡ some true
    → contains (codes "MWV") response ≡ true
    → (store.wind.last_priority ≤ f.priority) ⊎ (obj_outdated ≤ store.wind.update_age)
    → (process_wind f response store).0.wind.serialized ≡ response
unfolding process_wind WindParser.unpack Wind.of_priority Wind.set_serialized Wind.try_update
    Base.of_priority Base.set_serialized Base.can_update Base.assign WindData.update
wind-taken f response store star mwv turn = ground (arith, star, mwv)

module _ {W S : Type 0} ⦃d : Double W⦄ where
  abbrev pub processor_of : Vfrb W S → AircraftProcessor W
  processor_of v =
      AircraftProcessor.refer_to v.aircraft_data.processor (GpsData.get_position v.gps_data)
        (AtmosphereData.get_atm_pressure v.atmosphere_data)

  message-StandsIn :
      (utc : Tm) (v : Vfrb W S) (s : Str)
      → StandsIn s (text_of (processor_of v) v.aircraft_data.container)
      → StandsIn s (message utc v).1
  unfolding message AircraftData.get_serialized GpsData.get_serialized AtmosphereData.get_serialized
      WindData.get_serialized process_aircrafts text_of
  message-StandsIn utc v s h =
      rw
        (process_from-survivors (processor_of v) v.aircraft_data.container 0 false
          v.aircraft_data.index)
        (StandsIn-after s _ _ (StandsIn-after s _ _ (StandsIn-after s _ _ h)))

  -- A new report of an aircraft that a valid container takes over is in the text of the next round:
  -- the sentence that the processor makes of the aircraft under the report's id, for the own
  -- position and air pressure of that time.
  pub message-update :
      (utc : Tm) (v : Vfrb W S) (a : Aircraft W)
      → IsValid v.aircraft_data
      → a.update_age ≡ 0
      → (update v.aircraft_data a).1 ≡ true
      → StandsIn
          (sentence_of (processor_of v) (merged (lookup v.aircraft_data a.id) a))
          (message utc (record v { aircraft_data = (update v.aircraft_data a).0 })).1
  message-update utc v a valid new taken =
      let store = v.aircraft_data in
      let v' = record v { aircraft_data = (update store a).0 } in
      let fresh =
        accepted-fresh (lookup store a.id) a new
          (sym (lookup-update store a a.id valid).1 ∙ taken) in
      let same = lookup-known store a.id valid in
      message-StandsIn utc v' _ (
        rw (container-update store a valid, update-processor store a, same)
          (text_of-updated (processor_of v) store.container a (rw same at fresh)))

  -- A line that WindParser accepts, where its feed's priority is no lower than that of the last one
  -- or that one is outdated, is the end of the next round's text, and is not in the one after it:
  -- the rest is as if no wind had been reported.
  pub message-wind :
      (utc next : Tm) (v : Vfrb W S) (f : Feed) (response : Str)
      → checksum_matches response ≡ some true
      → contains (codes "MWV") response ≡ true
      → (v.wind_data.wind.last_priority ≤ f.priority) ⊎ (obj_outdated ≤ v.wind_data.wind.update_age)
      → let v' = record v { wind_data = (process_wind f response v.wind_data).0 } in
        let calm = record v { wind_data = (WindData.get_serialized v.wind_data []).0 } in
        ((message utc v').1 ≡ (message utc calm).1 ++ response)
        × ((message next (message utc v').0).1 ≡ (message next (message utc calm).0).1)
  unfolding message process_wind WindParser.unpack Wind.of_priority Wind.set_serialized
      Wind.try_update Base.of_priority Base.set_serialized Base.can_update Base.assign
      Wind.increment Base.increment WindData.update WindData.get_serialized
  message-wind utc next v f response star mwv turn =
      rw (wind-taken f response v.wind_data star mwv turn)
        (ap (λ x. x ++ response) (sym (append-nil _)), refl)
