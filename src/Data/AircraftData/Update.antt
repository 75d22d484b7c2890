-- ===== src/Data/AircraftData/Update.antt =====
-- What `update` does with the container.
use virtual_flight_radar_bac.Common.{
  ℕ, zero, suc, ◌+◌, ◌≡◌, refl, sym, ◌∙◌, Bool, true, ◌||◌, Option, none, some, List, [], ◌∷◌, ◌++◌,
  arith, inl, inr, if◌then◌else◌, length, get_elem?, Option-cases,
}
use virtual_flight_radar_bac.Common.Text.{Str, str_eq, str_eq_iff}
use virtual_flight_radar_bac.Object.Aircraft
use virtual_flight_radar_bac.Object.Aircraft.{Aircraft}
use virtual_flight_radar_bac.Data.AircraftData.{AircraftData, insert, update_at, update}
use virtual_flight_radar_bac.Data.AircraftData.Index.{find, or_else, find-emplace}
use virtual_flight_radar_bac.Data.AircraftData.Places.{
  place_from, has, IsUnique, IsValid, place_from-suc, known, lookup, lookup-known,
}

module _ {W : Type 0} where
  assign-id : (self other : Aircraft W) → (Aircraft.assign self other).id ≡ self.id
  unfolding Aircraft.assign
  assign-id self other = refl

  try_update-id : (self other : Aircraft W) → (Aircraft.try_update self other).0.id ≡ self.id
  unfolding Aircraft.try_update Aircraft.assign
  try_update-id self other = ground arith

  -- The container with the aircraft of an id updated in its place, or a new one at the end.
  unfoldable pub updated : List (Aircraft W) → Aircraft W → List (Aircraft W)
  updated [] a = a ∷ []
  updated (b ∷ rest) a =
      if str_eq b.id a.id then (Aircraft.try_update b a).0 ∷ rest else b ∷ updated rest a

  has-updated :
      (k : Str) (l : List (Aircraft W)) (a : Aircraft W)
      → has k (updated l a) ≡ (has k l || str_eq a.id k)
  unfolding updated
  has-updated k [] a = ground arith
  has-updated k (b ∷ rest) a =
      ground (arith, has-updated k rest a, try_update-id b a, str_eq_iff b.id a.id)

  updated-IsUnique : (l : List (Aircraft W)) (a : Aircraft W) → IsUnique l → IsUnique (updated l a)
  unfolding updated
  updated-IsUnique [] a u = (refl, tt)
  updated-IsUnique (b ∷ rest) a u = ground (
    arith,
    updated-IsUnique rest a u.1,
    has-updated b.id rest a,
    try_update-id b a,
    str_eq_iff b.id a.id,
    str_eq_iff a.id b.id,
  )

  -- What an update does to the aircraft with its id.
  abbrev pub merged : Option (Aircraft W) → Aircraft W → Aircraft W
  merged none a = a
  merged (some b) a = (Aircraft.try_update b a).0

  abbrev pub accepted : Option (Aircraft W) → Aircraft W → Bool
  accepted none a = true
  accepted (some b) a = (Aircraft.try_update b a).1

  known-updated :
      (k : Str) (l : List (Aircraft W)) (a : Aircraft W)
      → known k (updated l a) ≡ (if str_eq a.id k then some (merged (known k l) a) else known k l)
  unfolding updated
  known-updated k [] a = ground arith
  known-updated k (b ∷ rest) a = ground (
    arith,
    known-updated k rest a,
    try_update-id b a,
    str_eq_iff b.id a.id,
    str_eq_iff b.id k,
    str_eq_iff a.id k,
  )

  place_from-updated :
      (i : ℕ) (k : Str) (l : List (Aircraft W)) (a : Aircraft W)
      → place_from i k (updated l a)
        ≡ (if str_eq a.id k then or_else (place_from i k l) (i + length l) else place_from i k l)
  unfolding updated
  place_from-updated i k [] a = ground arith
  place_from-updated i k (b ∷ rest) a = ground (
    arith,
    place_from-updated (suc i) k rest a,
    try_update-id b a,
    str_eq_iff b.id a.id,
    str_eq_iff b.id k,
    str_eq_iff a.id k,
  )

  append-updated :
      (l : List (Aircraft W)) (a : Aircraft W)
      → place_from 0 a.id l ≡ none
      → l ++ a ∷ [] ≡ updated l a
  unfolding updated
  append-updated [] a h = refl
  append-updated (b ∷ rest) a h = ground (arith, append-updated rest a, place_from-suc 0 a.id rest)

  set-updated :
      (l : List (Aircraft W)) (a : Aircraft W) (i : ℕ)
      → place_from 0 a.id l ≡ some i
      → (update_at l i a).0 ≡ updated l a
  unfolding updated update_at
  set-updated [] a i h = cc
  set-updated (b ∷ rest) a zero h = ground (arith, place_from-suc 0 a.id rest)
  set-updated (b ∷ rest) a (suc i) h =
      ground (arith, place_from-suc 0 a.id rest, set-updated rest a i)

  update_at-flag :
      (l : List (Aircraft W)) (a b : Aircraft W) (i : ℕ)
      → get_elem? l i ≡ some b
      → (update_at l i a).1 ≡ (Aircraft.try_update b a).1
  unfolding update_at
  update_at-flag l a b i h = rw (h, update_at)

  pub container-update :
      (s : AircraftData W) (a : Aircraft W)
      → IsValid s
      → (update s a).0.container ≡ updated s.container a
  unfolding update insert
  container-update s a v = elim (Option-cases (find a.id s.index)) [
    | inl e ↦ rw (e, update) (append-updated s.container a (sym (v.placed a.id) ∙ e))
    | inr (i, e) ↦ rw (e, update) (set-updated s.container a i (sym (v.placed a.id) ∙ e))
  ]

  find-update :
      (s : AircraftData W) (a : Aircraft W) (k : Str)
      → find k (update s a).0.index ≡ (
          if str_eq a.id k
          then or_else (find a.id s.index) (length s.container)
          else find k s.index)
  unfolding update insert
  find-update s a k =
      ground (arith, find-emplace a.id k (length s.container) s.index, str_eq_iff a.id k)

  -- An update keeps the ids distinct and the map right.
  pub update-IsValid : (s : AircraftData W) (a : Aircraft W) → IsValid s → IsValid (update s a).0
  update-IsValid s a v = rw (container-update s a v) (record {
    unique = updated-IsUnique s.container a v.unique;
    placed = λ k.
        find-update s a k
        ∙ ground (
          arith,
          place_from-updated 0 k s.container a,
          v.placed k,
          v.placed a.id,
          str_eq_iff a.id k,
        );
  })

  get_elem?-place_from :
      (k : Str) (l : List (Aircraft W)) (i : ℕ)
      → place_from 0 k l ≡ some i
      → (b : Aircraft W) × (get_elem? l i ≡ some b)
  get_elem?-place_from k [] i h = cc
  get_elem?-place_from k (b ∷ rest) zero h = (b, refl)
  get_elem?-place_from k (b ∷ rest) (suc i) h =
      get_elem?-place_from k rest i (ground (arith, place_from-suc 0 k rest))

  update-flag :
      (s : AircraftData W) (a : Aircraft W)
      → IsValid s
      → (update s a).1 ≡ accepted (lookup s a.id) a
  unfolding update lookup
  update-flag s a v = elim (Option-cases (find a.id s.index)) [
    | inl e ↦ rw (e, update, lookup)
    | inr (i, e) ↦
        let (b, h) = get_elem?-place_from a.id s.container i (sym (v.placed a.id) ∙ e) in
        rw (e, update, lookup) (rw h (update_at-flag s.container a b i h))
  ]

  -- An update of a valid container changes what is known under its own id only: an aircraft that is
  -- not known is taken as it is, a known one tries the update, whose success is the result.
  pub lookup-update :
      (s : AircraftData W) (a : Aircraft W) (k : Str)
      → IsValid s
      → (lookup (update s a).0 k
          ≡ (if str_eq a.id k then some (merged (lookup s a.id) a) else lookup s k))
        × ((update s a).1 ≡ accepted (lookup s a.id) a)
  lookup-update s a k v = (
    lookup-known (update s a).0 k (update-IsValid s a v)
        ∙ ground (
          arith,
          container-update s a v,
          known-updated k s.container a,
          lookup-known s k v,
          lookup-known s a.id v,
          str_eq_iff a.id k,
        ),
    update-flag s a v,
  )
