-- ===== src/Data/AircraftData/Ready.antt =====
-- What the loop of `processAircrafts` relies on: where the map is right, and where merely defined.
use virtual_flight_radar_bac.Common.{
  ℕ, suc, ◌≡◌, refl, Bool, true, false, some, List, [], ◌∷◌, arith,
}
use virtual_flight_radar_bac.Common.Text.{Str, str_eq_iff}
use virtual_flight_radar_bac.Object.Aircraft.{Aircraft}
use virtual_flight_radar_bac.Data.AircraftData.{reindex}
use virtual_flight_radar_bac.Data.AircraftData.Index.{
  PlaceMap, find, erase, assign_at, bound, find-erase, find-assign_at,
}
use virtual_flight_radar_bac.Data.AircraftData.Places.{has}

module _ {W : Type 0} where
  abbrev pub IsPresent : List (Aircraft W) → PlaceMap → Type 0
  IsPresent [] m = Unit {0}
  IsPresent (a ∷ rest) m = (bound (find a.id m) ≡ true) × IsPresent rest m

  abbrev pub IsPlaced : ℕ → List (Aircraft W) → PlaceMap → Type 0
  IsPlaced i [] m = Unit {0}
  IsPlaced i (a ∷ rest) m = (find a.id m ≡ some i) × IsPlaced (suc i) rest m

  abbrev pub IsHeadPlaced : ℕ → List (Aircraft W) → PlaceMap → Type 0
  IsHeadPlaced i [] m = Unit {0}
  IsHeadPlaced i (a ∷ rest) m = find a.id m ≡ some i

  -- What holds at the head of the loop: once an aircraft is deleted, only the place of the next one
  -- is right.
  abbrev pub IsReady : Bool → ℕ → List (Aircraft W) → PlaceMap → Type 0
  IsReady true i l m = IsHeadPlaced i l m × IsPresent l m
  IsReady false i l m = IsPlaced i l m

  IsPlaced→IsPresent :
      (i : ℕ) (l : List (Aircraft W)) (m : PlaceMap) → IsPlaced i l m → IsPresent l m
  IsPlaced→IsPresent i [] m h = tt
  IsPlaced→IsPresent i (a ∷ rest) m (h, hs) = (ground arith, IsPlaced→IsPresent (suc i) rest m hs)

  pub IsReady→IsPresent :
      (del : Bool) (i : ℕ) (l : List (Aircraft W)) (m : PlaceMap)
      → IsReady del i l m
      → IsPresent l m
  IsReady→IsPresent true i l m h = h.1
  IsReady→IsPresent false i l m h = IsPlaced→IsPresent i l m h

  pub erase-IsPresent :
      (k : Str) (l : List (Aircraft W)) (m : PlaceMap)
      → has k l ≡ false
      → IsPresent l m
      → IsPresent l (erase k m)
  erase-IsPresent k [] m h p = tt
  erase-IsPresent k (a ∷ rest) m h p = (
    ground (arith, find-erase k a.id m, str_eq_iff k a.id, str_eq_iff a.id k),
    erase-IsPresent k rest m (ground arith) p.1,
  )

  assign_at-IsPresent :
      (k : Str) (v : ℕ) (l : List (Aircraft W)) (m : PlaceMap)
      → bound (find k m) ≡ true
      → IsPresent l m
      → IsPresent l (assign_at k v m)
  assign_at-IsPresent k v [] m h p = tt
  assign_at-IsPresent k v (a ∷ rest) m h p =
      (ground (arith, find-assign_at k a.id v m), assign_at-IsPresent k v rest m h p.1)

  pub reindex-IsHeadPlaced :
      (i : ℕ) (l : List (Aircraft W)) (m : PlaceMap)
      → IsPresent l m
      → IsHeadPlaced i l (reindex true l i m) × IsPresent l (reindex true l i m)
  unfolding reindex
  reindex-IsHeadPlaced i [] m p = (tt, tt)
  reindex-IsHeadPlaced i (a ∷ rest) m p = (
    ground (arith, find-assign_at a.id a.id i m, str_eq_iff a.id a.id),
    assign_at-IsPresent a.id i (a ∷ rest) m p.0 p,
  )

  -- Going on to the next aircraft keeps the loop ready.
  pub reindex-IsReady :
      (del : Bool) (i : ℕ) (a : Aircraft W) (rest : List (Aircraft W)) (m : PlaceMap)
      → IsReady del i (a ∷ rest) m
      → IsReady del (suc i) rest (reindex del rest (suc i) m)
  unfolding reindex
  reindex-IsReady true i a rest m h = reindex-IsHeadPlaced (suc i) rest m h.1.1
  reindex-IsReady false i a [] m h = h.1
  reindex-IsReady false i a (b ∷ rest) m h = h.1

  pub find-reindex :
      (del : Bool) (i : ℕ) (l : List (Aircraft W)) (m : PlaceMap) (k : Str)
      → IsPresent l m
      → has k l ≡ false
      → find k (reindex del l i m) ≡ find k m
  unfolding reindex
  find-reindex del i [] m k p h = refl
  find-reindex del i (a ∷ rest) m k p h = ground (arith, find-assign_at a.id k i m)
