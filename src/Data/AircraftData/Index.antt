-- ===== src/Data/AircraftData/Index.antt =====
-- What the program uses of `std::unordered_map<std::string, std::size_t>`, as an association list.
use virtual_flight_radar_bac.Common.{
  ℕ, ◌≡◌, refl, Bool, true, false, Option, none, some, List, [], ◌∷◌, arith, if◌then◌else◌,
}
use virtual_flight_radar_bac.Common.Text.{Str, str_eq, str_eq_iff}

abbrev pub PlaceMap : Type 0
PlaceMap = List (Str × ℕ)

-- `find`: `none` is `end()`.
unfoldable pub find : Str → PlaceMap → Option ℕ
find k [] = none
find k ((j, v) ∷ m) = if str_eq j k then some v else find k m

put : Str → ℕ → PlaceMap → PlaceMap
put k v [] = (k, v) ∷ []
put k v ((j, w) ∷ m) = if str_eq j k then (j, w) ∷ m else (j, w) ∷ put k v m

-- `insert({k, v})` keeps the value of a key that is there.
unfoldable pub emplace : Str → ℕ → PlaceMap → PlaceMap
unfolding put
emplace k v m = put k v m

unfoldable pub erase : Str → PlaceMap → PlaceMap
erase k [] = []
erase k ((j, w) ∷ m) = if str_eq j k then erase k m else (j, w) ∷ erase k m

-- `at(k) = v`; a missing key throws and changes nothing.
unfoldable pub assign_at : Str → ℕ → PlaceMap → PlaceMap
assign_at k v [] = []
assign_at k v ((j, w) ∷ m) = if str_eq j k then (j, v) ∷ m else (j, w) ∷ assign_at k v m

abbrev pub or_else : Option ℕ → ℕ → Option ℕ
or_else none v = some v
or_else (some w) v = some w

pub find-emplace :
    (k j : Str) (v : ℕ) (m : PlaceMap)
    → find j (emplace k v m) ≡ (if str_eq k j then or_else (find k m) v else find j m)
unfolding find emplace
find-emplace k j v [] = refl
find-emplace k j v ((i, w) ∷ m) =
    ground (arith, str_eq_iff k j, str_eq_iff i k, str_eq_iff i j, find-emplace k j v m)

pub find-erase :
    (k j : Str) (m : PlaceMap) → find j (erase k m) ≡ (if str_eq k j then none else find j m)
unfolding find erase
find-erase k j [] = ground arith
find-erase k j ((i, w) ∷ m) =
    ground (arith, str_eq_iff k j, str_eq_iff i k, str_eq_iff i j, find-erase k j m)

abbrev pub bound : Option ℕ → Bool
bound none = false
bound (some v) = true

pub find-assign_at :
    (k j : Str) (v : ℕ) (m : PlaceMap)
    → bound (find k m) ≡ true
    → find j (assign_at k v m) ≡ (if str_eq k j then some v else find j m)
unfolding find assign_at
find-assign_at k j v [] h = cc
find-assign_at k j v ((i, u) ∷ m) h =
    ground (arith, str_eq_iff k j, str_eq_iff i k, str_eq_iff i j, find-assign_at k j v m)
