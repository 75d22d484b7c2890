-- ===== src/Data/AircraftData/Survivors.antt =====
-- A plain pass over the aircraft: the reference for `processAircrafts`.
use virtual_flight_radar_bac.Common.{
  ◌≡◌, refl, Bool, true, false, List, [], ◌∷◌, arith, leb, if◌then◌else◌,
}
use virtual_flight_radar_bac.Common.Text.{Str}
use virtual_flight_radar_bac.Double.{Double}
use virtual_flight_radar_bac.Object.Aircraft
use virtual_flight_radar_bac.Object.Aircraft.{Aircraft}
use virtual_flight_radar_bac.Data.Processor.AircraftProcessor
use virtual_flight_radar_bac.Data.Processor.AircraftProcessor.{AircraftProcessor}
use virtual_flight_radar_bac.Data.AircraftData.{aged, refreshed, delete_threshold}
use virtual_flight_radar_bac.Data.AircraftData.Places.{has, IsUnique}

module _ {W : Type 0} ⦃d : Double W⦄ where
  pub aged-id : (a : Aircraft W) → (aged a).id ≡ a.id
  unfolding aged Aircraft.increment
  aged-id a = ground arith

  pub refreshed-id : (p : AircraftProcessor W) (a : Aircraft W) → (refreshed p a).id ≡ a.id
  unfolding refreshed AircraftProcessor.process Aircraft.set_serialized
  refreshed-id p a = ground arith

  -- The plain pass: every aircraft ages; those that reach the threshold go.
  unfoldable pub survives : Aircraft W → Bool
  survives a = elim (leb delete_threshold (aged a).update_age) [ true ↦ false | false ↦ true ]

  unfoldable pub survivors : AircraftProcessor W → List (Aircraft W) → List (Aircraft W)
  unfolding survives
  survivors p [] = []
  survivors p (a ∷ rest) =
      if survives a then refreshed p (aged a) ∷ survivors p rest else survivors p rest

  pub has-survivors :
      (p : AircraftProcessor W) (k : Str) (l : List (Aircraft W))
      → has k l ≡ false
      → has k (survivors p l) ≡ false
  unfolding survivors
  has-survivors p k [] h = refl
  has-survivors p k (a ∷ rest) h =
      ground (arith, has-survivors p k rest, refreshed-id p (aged a), aged-id a)

  pub survivors-IsUnique :
      (p : AircraftProcessor W) (l : List (Aircraft W)) → IsUnique l → IsUnique (survivors p l)
  unfolding survivors
  survivors-IsUnique p [] h = tt
  survivors-IsUnique p (a ∷ rest) h = ground (
    arith,
    survivors-IsUnique p rest h.1,
    has-survivors p a.id rest h.0,
    refreshed-id p (aged a),
    aged-id a,
  )
