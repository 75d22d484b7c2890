-- ===== src/Data/AircraftData/Places.antt =====
-- Where an aircraft stands in the vector, and the invariant of the container.
use mathlib.Core.Option
use virtual_flight_radar_bac.Common.{
  ℕ, suc, ◌≡◌, refl, Bool, false, ◌||◌, Option, none, some, List, [], ◌∷◌, arith, if◌then◌else◌,
  get_elem?,
}
use virtual_flight_radar_bac.Common.Text.{Str, str_eq}
use virtual_flight_radar_bac.Object.Aircraft.{Aircraft}
use virtual_flight_radar_bac.Data.AircraftData.{AircraftData}
use virtual_flight_radar_bac.Data.AircraftData.Index.{PlaceMap, find}

module _ {W : Type 0} where
  -- The place of the first aircraft with an id, where the list starts at place `i`.
  abbrev pub place_from : ℕ → Str → List (Aircraft W) → Option ℕ
  place_from i k [] = none
  place_from i k (a ∷ rest) = if str_eq a.id k then some i else place_from (suc i) k rest

  abbrev pub has : Str → List (Aircraft W) → Bool
  has k [] = false
  has k (a ∷ rest) = str_eq a.id k || has k rest

  abbrev pub IsUnique : List (Aircraft W) → Type 0
  IsUnique [] = Unit {0}
  IsUnique (a ∷ rest) = (has a.id rest ≡ false) × IsUnique rest

  pub place_from-lacks :
      (i : ℕ) (k : Str) (l : List (Aircraft W)) → has k l ≡ false → place_from i k l ≡ none
  place_from-lacks i k [] h = refl
  place_from-lacks i k (a ∷ rest) h = ground (arith, place_from-lacks (suc i) k rest)

  -- No two aircraft share an id, and the map has the place of each aircraft and nothing else.
  pub record IsIndexed (container : List (Aircraft W)) (index : PlaceMap) : Type 0 where
    pub unique : IsUnique container
    pub placed : (k : Str) → find k index ≡ place_from 0 k container

  abbrev pub IsValid : AircraftData W → Type 0
  IsValid s = IsIndexed s.container s.index

  -- The aircraft with an id, whatever its place.
  abbrev pub known : Str → List (Aircraft W) → Option (Aircraft W)
  known k [] = none
  known k (a ∷ rest) = if str_eq a.id k then some a else known k rest

  -- The aircraft with an id, by the map as the code looks it up.
  abbrev pub elem_at : List (Aircraft W) → Option ℕ → Option (Aircraft W)
  elem_at container none = none
  elem_at container (some i) = get_elem? container i

  unfoldable pub lookup : AircraftData W → Str → Option (Aircraft W)
  lookup s k = elem_at s.container (find k s.index)

  pub place_from-suc :
      (i : ℕ) (k : Str) (l : List (Aircraft W))
      → place_from (suc i) k l ≡ Option.map suc (place_from i k l)
  place_from-suc i k [] = refl
  place_from-suc i k (a ∷ rest) = ground (arith, place_from-suc (suc i) k rest)

  elem_at-suc :
      (a : Aircraft W) (l : List (Aircraft W)) (o : Option ℕ)
      → elem_at (a ∷ l) (Option.map suc o) ≡ elem_at l o
  elem_at-suc a l none = refl
  elem_at-suc a l (some i) = refl

  elem_at-place_from : (k : Str) (l : List (Aircraft W)) → elem_at l (place_from 0 k l) ≡ known k l
  elem_at-place_from k [] = refl
  elem_at-place_from k (a ∷ rest) = ground (
    arith,
    place_from-suc 0 k rest,
    elem_at-suc a rest (place_from 0 k rest),
    elem_at-place_from k rest,
  )

  pub lookup-known : (s : AircraftData W) (k : Str) → IsValid s → lookup s k ≡ known k s.container
  unfolding lookup
  lookup-known s k v = rw (v.placed k) (elem_at-place_from k s.container)
