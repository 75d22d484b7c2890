-- ===== src/Data/AircraftData/Sentences.antt =====
-- What the container of the aircraft puts out: sentences and nothing else.
use virtual_flight_radar_bac.Common.{
  ◌≡◌, inl, inr, false, List, [], ◌∷◌, arith, ltb, ◌==◌, All, Bool-cases,
}
use virtual_flight_radar_bac.Common.Int.{leb_ℤ}
use virtual_flight_radar_bac.Common.Text.{str_eq}
use virtual_flight_radar_bac.Common.Print.Digits.{IsPlain}
use virtual_flight_radar_bac.Double.{Double}
use virtual_flight_radar_bac.Object.Position.{Position}
use virtual_flight_radar_bac.Object.Base
use virtual_flight_radar_bac.Object.Base.{obj_outdated}
use virtual_flight_radar_bac.Object.Aircraft
use virtual_flight_radar_bac.Object.Aircraft.{Aircraft}
use virtual_flight_radar_bac.Data.Processor.AircraftProcessor
use virtual_flight_radar_bac.Data.Processor.AircraftProcessor.{
  AircraftProcessor, calculate_rel_position, append_pflau, append_pflaa,
}
use virtual_flight_radar_bac.Data.Processor.Wellformed.{IsPrintable, process-sentences}
use virtual_flight_radar_bac.Data.AircraftData
use virtual_flight_radar_bac.Data.AircraftData.{
  AircraftData, aged, refreshed, serialize, update, process_aircrafts,
}
use virtual_flight_radar_bac.Data.AircraftData.Survivors.{survives, survivors}
use virtual_flight_radar_bac.Data.AircraftData.Update.{updated, container-update}
use virtual_flight_radar_bac.Data.AircraftData.Places.{IsValid}
use virtual_flight_radar_bac.Data.AircraftData.Process.{process_from-survivors}
use virtual_flight_radar_bac.Feed.Parser.Nmea.Guarded.{
  AreGuarded, empty-AreGuarded, single-AreGuarded, append-AreGuarded,
}

module _ {W : Type 0} ⦃d : Double W⦄ where
  -- An aircraft with an id that can be printed, and what it is known by to the clients.
  pub record IsVoiced (a : Aircraft W) : Type 0 where
    pub named : IsPlain 1000 a.id
    pub spoken : AreGuarded a.serialized

  process-id :
      (p : AircraftProcessor W) (a : Aircraft W) → (AircraftProcessor.process p a).id ≡ a.id
  unfolding AircraftProcessor.process Aircraft.set_serialized
  process-id p a = ground arith

  process-IsVoiced :
      (p : AircraftProcessor W) (a : Aircraft W)
      → IsPrintable W
      → IsPlain 1000 a.id
      → IsVoiced (AircraftProcessor.process p a)
  process-IsVoiced p a h v =
      let r = calculate_rel_position p a in
      let said = process-sentences p a h v in
      record {
        named = rw (process-id p a) v;
        spoken = elim (Bool-cases (leb_ℤ r.distance p.max_distance)) [
          | inl near ↦
              let (whole, first, second) = rw near at said in
              rw whole
                (append-AreGuarded _ _ (single-AreGuarded _ first) (single-AreGuarded _ second))
          | inr far ↦ rw (rw far at said) empty-AreGuarded
        ];
      }

  refreshed-IsVoiced :
      (p : AircraftProcessor W) (a : Aircraft W)
      → IsPrintable W
      → IsVoiced a
      → IsVoiced (refreshed p a)
  unfolding refreshed
  refreshed-IsVoiced p a h v = elim (Bool-cases (a.update_age == 1)) [
    | inl fresh ↦ rw fresh (process-IsVoiced p a h v.named)
    | inr old ↦ rw old v
  ]

  aged-IsVoiced : (a : Aircraft W) → IsVoiced a → IsVoiced (aged a)
  unfolding aged Aircraft.increment Base.increment
  aged-IsVoiced a v = record { named = ground (arith, v.named); spoken = ground (arith, v.spoken) }

  survivors-IsVoiced :
      (p : AircraftProcessor W) (l : List (Aircraft W))
      → IsPrintable W
      → All IsVoiced l
      → All IsVoiced (survivors p l)
  unfolding survivors
  survivors-IsVoiced p [] h v = tt
  survivors-IsVoiced p (a ∷ rest) h v = elim (Bool-cases (survives a)) [
    | inl stays ↦
        rw stays
          (refreshed-IsVoiced p (aged a) h (aged-IsVoiced a v.0), survivors-IsVoiced p rest h v.1)
    | inr goes ↦ rw goes (survivors-IsVoiced p rest h v.1)
  ]

  try_update-IsVoiced :
      (b a : Aircraft W) → IsVoiced b → IsVoiced a → IsVoiced (Aircraft.try_update b a).0
  unfolding Aircraft.try_update Aircraft.assign Base.assign
  try_update-IsVoiced b a v w = elim (Bool-cases (Aircraft.can_update a b)) [
    | inl newer ↦ rw newer (record { named = v.named; spoken = w.spoken })
    | inr older ↦ rw older v
  ]

  updated-IsVoiced :
      (l : List (Aircraft W)) (a : Aircraft W)
      → All IsVoiced l
      → IsVoiced a
      → All IsVoiced (updated l a)
  unfolding updated
  updated-IsVoiced [] a v w = (w, tt)
  updated-IsVoiced (b ∷ rest) a v w = elim (Bool-cases (str_eq b.id a.id)) [
    | inl same ↦ rw same (try_update-IsVoiced b a v.0 w, v.1)
    | inr other ↦ rw other (v.0, updated-IsVoiced rest a v.1 w)
  ]

  serialize-AreGuarded : (l : List (Aircraft W)) → All IsVoiced l → AreGuarded (serialize l)
  unfolding serialize
  serialize-AreGuarded [] v = empty-AreGuarded
  serialize-AreGuarded (a ∷ rest) v = elim (Bool-cases (ltb a.update_age obj_outdated)) [
    | inl current ↦ rw current (append-AreGuarded _ _ v.0.spoken (serialize-AreGuarded rest v.1))
    | inr stale ↦ rw stale (serialize-AreGuarded rest v.1)
  ]

  abbrev pub AreVoiced : AircraftData W → Type 0
  AreVoiced s = All IsVoiced s.container

  pub process_aircrafts-AreVoiced :
      (s : AircraftData W) (position : Position W) (atm_press : W)
      → IsPrintable W
      → AreVoiced s
      → AreVoiced (process_aircrafts s position atm_press)
  unfolding process_aircrafts
  process_aircrafts-AreVoiced s position atm_press h v =
      let p = AircraftProcessor.refer_to s.processor position atm_press in
      rw (process_from-survivors p s.container 0 false s.index)
        (survivors-IsVoiced p s.container h v)

  pub update-AreVoiced :
      (s : AircraftData W) (a : Aircraft W)
      → IsValid s
      → IsVoiced a
      → AreVoiced s
      → AreVoiced (update s a).0
  update-AreVoiced s a valid w v =
      rw (container-update s a valid) (updated-IsVoiced s.container a v w)

  pub get_serialized-AreGuarded :
      (s : AircraftData W) → AreVoiced s → AreGuarded (AircraftData.get_serialized s [])
  unfolding AircraftData.get_serialized
  get_serialized-AreGuarded s v = serialize-AreGuarded s.container v
