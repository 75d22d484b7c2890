-- ===== src/Data/AircraftData/Silence.antt =====
-- What becomes of an aircraft that is not heard of again.
use virtual_flight_radar_bac.Common.{
  length, ℕ, suc, ◌+◌, ◌<◌, ◌≡◌, refl, ◌∙◌, Option, none, some, List, [], ◌∷◌, arith, ltb, ltb→lt,
  Bool-cases, inl, inr, ap, if◌then◌else◌,
}
use virtual_flight_radar_bac.Common.Text.{Str}
use virtual_flight_radar_bac.Double.{Double}
use virtual_flight_radar_bac.Object.Base
use virtual_flight_radar_bac.Object.Position.{Position}
use virtual_flight_radar_bac.Object.Aircraft
use virtual_flight_radar_bac.Object.Aircraft.{Aircraft}
use virtual_flight_radar_bac.Data.Processor.AircraftProcessor
use virtual_flight_radar_bac.Data.Processor.AircraftProcessor.{AircraftProcessor}
use virtual_flight_radar_bac.Data.AircraftData.{
  AircraftData, aged, refreshed, process_aircrafts, delete_threshold,
}
use virtual_flight_radar_bac.Data.AircraftData.Places.{IsValid, lookup}
use virtual_flight_radar_bac.Data.AircraftData.Survivors.{survives}
use virtual_flight_radar_bac.Data.AircraftData.Process.{
  outcome, process_aircrafts-IsValid, lookup-process_aircrafts,
}

-- The age that a pass leaves.
abbrev older : ℕ → Option ℕ
older n = if ltb (suc n) delete_threshold then some (suc n) else none

module _ {W : Type 0} ⦃d : Double W⦄ where
  -- A number of passes with no report between them.
  unfoldable pub passes : List (Position W × W) → AircraftData W → AircraftData W
  passes [] s = s
  passes ((position, atm_press) ∷ rest) s = passes rest (process_aircrafts s position atm_press)

  abbrev pub age_of : Option (Aircraft W) → Option ℕ
  age_of none = none
  age_of (some a) = some a.update_age

  pub aged-age :
      (a : Aircraft W) → a.update_age < delete_threshold → (aged a).update_age ≡ suc a.update_age
  unfolding aged Aircraft.increment Base.increment
  aged-age a h = ground arith

  pub refreshed-age :
      (p : AircraftProcessor W) (a : Aircraft W) → (refreshed p a).update_age ≡ a.update_age
  unfolding refreshed AircraftProcessor.process Aircraft.set_serialized Base.set_serialized
  refreshed-age p a = ground arith

  age_of-outcome :
      (p : AircraftProcessor W) (o : Option (Aircraft W)) (n : ℕ)
      → n < delete_threshold
      → age_of o ≡ some n
      → age_of (outcome p o) ≡ older n
  unfolding survives
  age_of-outcome p none n h e = cc
  age_of-outcome p (some a) n h e = ground (arith, aged-age a, refreshed-age p (aged a))

  passes-none :
      (rounds : List (Position W × W)) (s : AircraftData W) (k : Str)
      → IsValid s
      → lookup s k ≡ none
      → lookup (passes rounds s) k ≡ none
  unfolding passes
  passes-none [] s k v e = e
  passes-none ((position, atm_press) ∷ rest) s k v e =
      passes-none rest (process_aircrafts s position atm_press) k
        (process_aircrafts-IsValid s position atm_press v)
        (lookup-process_aircrafts s position atm_press k v ∙ ap (outcome _) e)

  age_of-none : (o : Option (Aircraft W)) → age_of o ≡ none → o ≡ none
  age_of-none none e = refl
  age_of-none (some a) e = cc

  -- In a valid container, an aircraft of an age below 120 that is not heard of again grows older by
  -- one with each pass, and is forgotten for good with the pass that brings its age to 120.
  pub age_of-passes :
      (rounds : List (Position W × W)) (s : AircraftData W) (k : Str) (n : ℕ)
      → IsValid s
      → n < delete_threshold
      → age_of (lookup s k) ≡ some n
      → age_of (lookup (passes rounds s) k)
        ≡ (if ltb (n + length rounds) delete_threshold then some (n + length rounds) else none)
  unfolding passes
  age_of-passes [] s k n v h e = ground arith
  age_of-passes ((position, atm_press) ∷ rest) s k n v h e =
      let p = AircraftProcessor.refer_to s.processor position atm_press in
      let next = process_aircrafts s position atm_press in
      let valid = process_aircrafts-IsValid s position atm_press v in
      let age : age_of (lookup next k) ≡ older n =
        ap age_of (lookup-process_aircrafts s position atm_press k v)
        ∙ age_of-outcome p (lookup s k) n h e in
      elim (Bool-cases (ltb (suc n) delete_threshold)) [
        | inl young ↦ ground (arith, age_of-passes rest next k (suc n) valid, ltb→lt _ _ young, age)
        | inr old ↦
            rw (passes-none rest next k valid (age_of-none (lookup next k) (ground (arith, age))))
              (ground arith)
      ]
