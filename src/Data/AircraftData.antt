-- ===== src/Data/AircraftData.antt =====
-- include/data/AircraftData.h and src/data/AircraftData.cpp: the vector of the known aircraft, and
-- the map from an aircraft's id to its place in the vector. The mutex makes each call one step.
pub mod Index
pub mod Places
pub mod Ready
pub mod Survivors
pub mod Process
pub mod Update
pub mod Runs
pub mod Silence
pub mod Track
mod Known
pub mod Order
pub mod Sentences
use virtual_flight_radar_bac.Common.{
  ℕ, zero, suc, Bool, true, false, ◌&&◌, Option, none, some, List, [], ◌∷◌, ◌++◌, ltb, leb, ◌==◌,
  if◌then◌else◌, length, get_elem?, set,
}
use virtual_flight_radar_bac.Common.Int.{ℤ}
use virtual_flight_radar_bac.Common.Text.{Str}
use virtual_flight_radar_bac.Double.{Double}
use virtual_flight_radar_bac.Object.Base.{obj_outdated}
use virtual_flight_radar_bac.Object.Position.{Position}
use virtual_flight_radar_bac.Object.Aircraft
use virtual_flight_radar_bac.Object.Aircraft.{Aircraft, transponder}
use virtual_flight_radar_bac.Data.Processor.AircraftProcessor
use virtual_flight_radar_bac.Data.Processor.AircraftProcessor.{AircraftProcessor}
use Index.{PlaceMap, find, emplace, erase, assign_at}

-- AC_DELETE_THRESHOLD and AC_NO_FLARM_THRESHOLD.
abbrev pub delete_threshold : ℕ
delete_threshold = 120

abbrev pub no_flarm_threshold : ℕ
no_flarm_threshold = obj_outdated

pub record AircraftData (W : Type 0) : Type 0 where
  pub processor : AircraftProcessor W
  pub container : List (Aircraft W)
  pub index : PlaceMap

module _ {W : Type 0} where
  -- `get_serialized(dest)`: what is appended to `dest`.
  unfoldable pub serialize : List (Aircraft W) → Str
  serialize [] = []
  serialize (a ∷ rest) =
      (if ltb a.update_age obj_outdated then a.serialized else []) ++ serialize rest

  unfoldable pub get_serialized : AircraftData W → Str → Str
  unfolding serialize
  get_serialized store dest = dest ++ serialize store.container

  unfoldable pub insert : AircraftData W → Aircraft W → AircraftData W
  insert store a = record store {
    index = emplace a.id (length store.container) store.index;
    container = store.container ++ a ∷ [];
  }

  -- `m_container[i].tryUpdate(update)`. A place beyond the end is undefined behaviour; here it
  -- changes nothing, and the invariant excludes it.
  unfoldable pub update_at : List (Aircraft W) → ℕ → Aircraft W → List (Aircraft W) × Bool
  update_at container i a = elim (get_elem? container i) [
    | none ↦ (container, false)
    | some old ↦ let (new, done) = Aircraft.try_update old a in (set container i new, done)
  ]

  unfoldable pub update : AircraftData W → Aircraft W → AircraftData W × Bool
  unfolding insert update_at
  update store a = elim (find a.id store.index) [
    | none ↦ (insert store a, true)
    | some i ↦
        let (container, done) = update_at store.container i a in
        (record store { container = container }, done)
  ]

  -- `if (del && it != end()) m_index.at(it->get_id()) = index;`, where `it` is the head of the rest.
  -- A missing key throws, and the handler does nothing.
  unfoldable pub reindex : Bool → List (Aircraft W) → ℕ → PlaceMap → PlaceMap
  reindex del [] i index = index
  reindex del (a ∷ rest) i index = if del then assign_at a.id i index else index

module _ {W : Type 0} ⦃d : Double W⦄ where
  -- The constructor.
  unfoldable pub of_max_distance : ℤ → AircraftData W
  of_max_distance max = record {
    processor = AircraftProcessor.of_max_distance max;
    container = [];
    index = [];
  }

  -- The first part of the loop's body: the age, and the loss of the FLARM status.
  unfoldable pub aged : Aircraft W → Aircraft W
  aged a =
      let b = Aircraft.increment a in
      if b.update_age == no_flarm_threshold then record b { target_type = transponder } else b

  -- What the loop does with an aircraft that stays.
  unfoldable pub refreshed : AircraftProcessor W → Aircraft W → Aircraft W
  refreshed p a = if a.update_age == 1 then AircraftProcessor.process p a else a

  -- The `while` loop on what stands from `it` on, with `index` places before it.
  unfoldable pub process_from :
      AircraftProcessor W → List (Aircraft W) → ℕ → Bool → PlaceMap → List (Aircraft W) × PlaceMap
  unfolding aged refreshed reindex
  process_from p [] i del index = ([], index)
  process_from p (a ∷ rest) i del index = elim (leb delete_threshold (aged a).update_age) [
    | true ↦ process_from p rest i true (reindex true rest i (erase (aged a).id index))
    | false ↦
        let (kept, index') = process_from p rest (suc i) del (reindex del rest (suc i) index) in
        (refreshed p (aged a) ∷ kept, index')
  ]

  unfoldable pub process_aircrafts : AircraftData W → Position W → W → AircraftData W
  unfolding process_from
  process_aircrafts store position atm_press =
      let p = AircraftProcessor.refer_to store.processor position atm_press in
      let (container, index) = process_from p store.container 0 false store.index in
      record { processor = p; container = container; index = index }
