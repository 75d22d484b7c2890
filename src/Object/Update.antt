-- ===== src/Object/Update.antt =====
-- What a sequence of reports can do to an aircraft.
use virtual_flight_radar_bac.Common.{
  ◌<◌, ◌≡◌, refl, ◌⊎◌, true, false, List, [], ◌∷◌, ◌∙◌, arith, All,
}
use virtual_flight_radar_bac.TimeStamp.{newer}
use virtual_flight_radar_bac.TimeStamp.Order.{newer_irrefl, newer_trans, newer_weak}
use virtual_flight_radar_bac.Object.Base
use virtual_flight_radar_bac.Object.Base.{obj_outdated}
use virtual_flight_radar_bac.Object.Aircraft.{Aircraft, is_flarm, try_update}

module _ {W : Type 0} where
  -- The reports in the order in which they arrive.
  pub try_all : Aircraft W → List (Aircraft W) → Aircraft W
  try_all a [] = a
  try_all a (r ∷ rest) = try_all (try_update a r).0 rest

  try_update-newer : (a r : Aircraft W) → newer a.time_stamp (try_update a r).0.time_stamp ≡ false
  unfolding try_update
  try_update-newer a r =
      ground (arith, newer_irrefl a.time_stamp, newer_trans a.time_stamp r.time_stamp a.time_stamp)

  try_update-id : (a r : Aircraft W) → (try_update a r).0.id ≡ a.id
  unfolding try_update
  try_update-id a r = ground arith

  -- The time of an aircraft never goes back, and its id stays, whatever reports arrive in whatever
  -- order.
  pub try_all-newer :
      (a : Aircraft W) (rs : List (Aircraft W))
      → (newer a.time_stamp (try_all a rs).time_stamp ≡ false) × ((try_all a rs).id ≡ a.id)
  unfolding try_all
  try_all-newer a [] = (newer_irrefl a.time_stamp, refl)
  try_all-newer a (r ∷ rest) =
      let (older, same) = try_all-newer (try_update a r).0 rest in
      (
        newer_weak a.time_stamp (try_update a r).0.time_stamp _ (try_update-newer a r) older,
        same ∙ try_update-id a r,
      )

  abbrev pub IsShielded : Aircraft W → Aircraft W → Type 0
  IsShielded a r =
      (newer r.time_stamp a.time_stamp ≡ false)
      ⊎ (is_flarm r.target_type ≡ false)
      ⊎ (r.last_priority < a.last_priority)

  try_update-shielded :
      (a r : Aircraft W)
      → is_flarm a.target_type ≡ true
      → a.update_age < obj_outdated
      → IsShielded a r
      → (try_update a r).0 ≡ a
  unfolding try_update Base.can_update
  try_update-shielded a r f y s = ground arith

  -- While a FLARM target is not outdated, no sequence of reports changes it whose every report is not
  -- newer, is no FLARM report, or comes with a lower priority.
  pub try_all-shielded :
      (a : Aircraft W) (rs : List (Aircraft W))
      → is_flarm a.target_type ≡ true
      → a.update_age < obj_outdated
      → All (IsShielded a) rs
      → try_all a rs ≡ a
  unfolding try_all
  try_all-shielded a [] f y s = refl
  try_all-shielded a (r ∷ rest) f y s =
      rw (try_update-shielded a r f y s.0) (try_all-shielded a rest f y s.1)
