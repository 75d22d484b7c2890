-- ===== src/Data/AircraftData/Process.antt =====
-- What `processAircrafts` does with the container, against the plain pass.
use virtual_flight_radar_bac.Common.{
  ℕ, suc, ◌≡◌, refl, sym, ap, ◌∙◌, Bool, true, false, Option, none, some, List, [], ◌∷◌, arith,
  if◌then◌else◌,
}
use virtual_flight_radar_bac.Common.Text.{Str, str_eq_iff}
use virtual_flight_radar_bac.Double.{Double}
use virtual_flight_radar_bac.Object.Position.{Position}
use virtual_flight_radar_bac.Object.Aircraft.{Aircraft}
use virtual_flight_radar_bac.Data.Processor.AircraftProcessor
use virtual_flight_radar_bac.Data.Processor.AircraftProcessor.{AircraftProcessor}
use virtual_flight_radar_bac.Data.AircraftData.{
  AircraftData, aged, refreshed, reindex, process_from, process_aircrafts,
}
use virtual_flight_radar_bac.Data.AircraftData.Index.{PlaceMap, find, erase, find-erase}
use virtual_flight_radar_bac.Data.AircraftData.Places.{
  place_from, has, IsUnique, IsIndexed, IsValid, place_from-lacks, known, lookup, lookup-known,
}
use virtual_flight_radar_bac.Data.AircraftData.Ready.{
  IsReady, IsReady→IsPresent, erase-IsPresent, reindex-IsHeadPlaced, reindex-IsReady, find-reindex,
}
use virtual_flight_radar_bac.Data.AircraftData.Survivors.{
  survives, survivors, aged-id, refreshed-id, has-survivors, survivors-IsUnique,
}

module _ {W : Type 0} ⦃d : Double W⦄ where
  pub process_from-survivors :
      (p : AircraftProcessor W) (l : List (Aircraft W)) (i : ℕ) (del : Bool) (m : PlaceMap)
      → (process_from p l i del m).0 ≡ survivors p l
  unfolding process_from survivors
  process_from-survivors p [] i del m = refl
  process_from-survivors p (a ∷ rest) i del m = ground (
    arith,
    process_from-survivors p rest i true (reindex true rest i (erase (aged a).id m)),
    process_from-survivors p rest (suc i) del (reindex del rest (suc i) m),
  )

  place-head :
      (del : Bool) (i : ℕ) (a : Aircraft W) (rest : List (Aircraft W)) (m : PlaceMap)
      → IsReady del i (a ∷ rest) m
      → find a.id m ≡ some i
  place-head true i a rest m r = r.0
  place-head false i a rest m r = r.0

  -- The map that the loop leaves: the places of those that stay, and no entry of those that go.
  find-process_from :
      (p : AircraftProcessor W) (l : List (Aircraft W)) (i : ℕ) (del : Bool) (m : PlaceMap)
      (k : Str)
      → IsUnique l
      → IsReady del i l m
      → find k (process_from p l i del m).1
        ≡ (if has k l then place_from i k (survivors p l) else find k m)
  unfolding process_from survivors
  find-process_from p [] i del m k u r = refl
  find-process_from p (a ∷ rest) i del m k u r =
      let m1 = erase (aged a).id m in
      let present = IsReady→IsPresent del i (a ∷ rest) m r in
      let present1 = erase-IsPresent (aged a).id rest m (rw (aged-id a) u.0) present.1 in
      let gone = reindex true rest i m1 in
      let stays = reindex del rest (suc i) m in
      ground (
        arith,
        find-process_from p rest i true gone k u.1 (reindex-IsHeadPlaced i rest m1 present1),
        find-process_from p rest (suc i) del stays k u.1 (reindex-IsReady del i a rest m r),
        find-reindex true i rest m1 k present1,
        find-reindex del (suc i) rest m k present.1,
        find-erase (aged a).id k m,
        aged-id a,
        refreshed-id p (aged a),
        str_eq_iff a.id k,
        place_from-lacks i k (survivors p rest),
        has-survivors p k rest,
        u.0,
        place-head del i a rest m r,
      )

  placed→IsPlaced :
      (i : ℕ) (l : List (Aircraft W)) (m : PlaceMap)
      → IsUnique l
      → ((k : Str) → has k l ≡ true → find k m ≡ place_from i k l)
      → IsReady false i l m
  placed→IsPlaced i [] m u h = tt
  placed→IsPlaced i (a ∷ rest) m u h = (
    ground (arith, h a.id, str_eq_iff a.id a.id),
    placed→IsPlaced (suc i) rest m u.1 (λ k e. ground (arith, h k, str_eq_iff a.id k, u.0)),
  )

  find-survivors :
      (p : AircraftProcessor W) (l : List (Aircraft W)) (m : PlaceMap) (k : Str)
      → IsIndexed l m
      → find k (process_from p l 0 false m).1 ≡ place_from 0 k (survivors p l)
  find-survivors p l m k v = ground (
    arith,
    find-process_from p l 0 false m k v.unique (placed→IsPlaced 0 l m v.unique (λ j e. v.placed j)),
    v.placed k,
    place_from-lacks 0 k l,
    place_from-lacks 0 k (survivors p l),
    has-survivors p k l,
  )

  -- What becomes of an aircraft.
  abbrev pub outcome : AircraftProcessor W → Option (Aircraft W) → Option (Aircraft W)
  outcome p none = none
  outcome p (some a) = if survives a then some (refreshed p (aged a)) else none

  known-lacks : (k : Str) (l : List (Aircraft W)) → has k l ≡ false → known k l ≡ none
  known-lacks k [] h = refl
  known-lacks k (a ∷ rest) h = ground (arith, known-lacks k rest)

  known-survivors :
      (p : AircraftProcessor W) (k : Str) (l : List (Aircraft W))
      → IsUnique l
      → known k (survivors p l) ≡ outcome p (known k l)
  unfolding survivors
  known-survivors p k [] u = refl
  known-survivors p k (a ∷ rest) u = ground (
    arith,
    known-survivors p k rest u.1,
    known-lacks k rest,
    str_eq_iff a.id k,
    u.0,
    refreshed-id p (aged a),
    aged-id a,
  )

  -- A pass keeps the ids distinct and the map right, so that `m_index.at` never throws.
  pub process_aircrafts-IsValid :
      (s : AircraftData W) (position : Position W) (atm_press : W)
      → IsValid s
      → IsValid (process_aircrafts s position atm_press)
  unfolding process_aircrafts
  process_aircrafts-IsValid s position atm_press v =
      let p = AircraftProcessor.refer_to s.processor position atm_press in
      let same = process_from-survivors p s.container 0 false s.index in
      record {
        unique = rw same (survivors-IsUnique p s.container v.unique);
        placed = λ k. rw same (find-survivors p s.container s.index k v);
      }

  known_after :
      (s : AircraftData W) (position : Position W) (atm_press : W) (k : Str)
      → IsValid s
      → known k (process_aircrafts s position atm_press).container
        ≡ outcome (AircraftProcessor.refer_to s.processor position atm_press) (known k s.container)
  unfolding process_aircrafts
  known_after s position atm_press k v =
      let p = AircraftProcessor.refer_to s.processor position atm_press in
      rw (process_from-survivors p s.container 0 false s.index)
        (known-survivors p k s.container v.unique)

  -- A pass over a valid container ages every aircraft by one; it forgets an aircraft exactly when
  -- that brings it to the threshold, and keeps the others, reported anew if they were just updated.
  pub lookup-process_aircrafts :
      (s : AircraftData W) (position : Position W) (atm_press : W) (k : Str)
      → IsValid s
      → lookup (process_aircrafts s position atm_press) k
        ≡ outcome (AircraftProcessor.refer_to s.processor position atm_press) (lookup s k)
  lookup-process_aircrafts s position atm_press k v =
      lookup-known (process_aircrafts s position atm_press) k
        (process_aircrafts-IsValid s position atm_press v)
      ∙ known_after s position atm_press k v
      ∙ ap (outcome _) (sym (lookup-known s k v))
