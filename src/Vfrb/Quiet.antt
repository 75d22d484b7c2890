-- ===== src/Vfrb/Quiet.antt =====
-- What is still sent when nothing is received.
use mathlib.Core.List.{append-nil}
use virtual_flight_radar_bac.Common.{
  ℕ, suc, ◌+◌, ◌≤◌, ◌<◌, ◌≡◌, refl, Bool, false, List, [], ◌∷◌, ◌++◌, arith, All, length,
}
use virtual_flight_radar_bac.Common.Text.{Str}
use virtual_flight_radar_bac.Double.{Double}
use virtual_flight_radar_bac.Object.Base.{obj_outdated}
use virtual_flight_radar_bac.Object.Aircraft.{Aircraft}
use virtual_flight_radar_bac.Object.Base
use virtual_flight_radar_bac.Object.Atmosphere
use virtual_flight_radar_bac.Object.Wind
use virtual_flight_radar_bac.Data.Processor.GpsProcessor.{Tm}
use virtual_flight_radar_bac.Data.Processor.AircraftProcessor
use virtual_flight_radar_bac.Data.Processor.AircraftProcessor.{AircraftProcessor}
use virtual_flight_radar_bac.Data.AircraftData
use virtual_flight_radar_bac.Data.AircraftData.{
  AircraftData, delete_threshold, process_aircrafts, serialize, refreshed, aged,
}
use virtual_flight_radar_bac.Data.AircraftData.Survivors.{survives, survivors}
use virtual_flight_radar_bac.Data.AircraftData.Process.{process_from-survivors}
use virtual_flight_radar_bac.Data.AircraftData.Silence.{aged-age, refreshed-age}
use virtual_flight_radar_bac.Data.GpsData
use virtual_flight_radar_bac.Data.AtmosphereData
use virtual_flight_radar_bac.Data.WindData
use virtual_flight_radar_bac.Server.{Answer}
use virtual_flight_radar_bac.Vfrb.{Vfrb, message, serve_round, serve}

zero_add : (n m : ℕ) → m ≡ 0 + n → m ≡ n
zero_add n m e = omega arith

module _ {W : Type 0} where
  -- At least some age, and not yet to be deleted.
  abbrev pub IsAged : ℕ → Aircraft W → Type 0
  IsAged n a = (n ≤ a.update_age) × (a.update_age < delete_threshold)

  serialize-old :
      (n : ℕ) (l : List (Aircraft W)) → obj_outdated ≤ n → All (IsAged n) l → serialize l ≡ []
  unfolding serialize
  serialize-old n [] h a = refl
  serialize-old n (b ∷ l) h a = ground (arith, serialize-old n l h a.1)

module _ {W : Type 0} ⦃d : Double W⦄ where
  survivors-IsAged :
      (p : AircraftProcessor W) (n : ℕ) (l : List (Aircraft W))
      → All (IsAged n) l
      → All (IsAged (suc n)) (survivors p l)
  unfolding survivors survives
  survivors-IsAged p n [] a = tt
  survivors-IsAged p n (b ∷ l) a =
      ground (arith, survivors-IsAged p n l a.1, aged-age b, refreshed-age p (aged b))

module _ {W S : Type 0} ⦃d : Double W⦄ where
  abbrev AreAged : ℕ → Vfrb W S → Type 0
  AreAged n v = All (IsAged n) v.aircraft_data.container

  message-IsAged :
      (utc : Tm) (n : ℕ) (v : Vfrb W S) → AreAged n v → AreAged (suc n) (message utc v).0
  unfolding message process_aircrafts
  message-IsAged utc n v a =
      let p =
        AircraftProcessor.refer_to v.aircraft_data.processor (GpsData.get_position v.gps_data)
          (AtmosphereData.get_atm_pressure v.atmosphere_data) in
      rw (process_from-survivors p v.aircraft_data.container 0 false v.aircraft_data.index)
        (survivors-IsAged p n v.aircraft_data.container a)

  serve_round-IsAged :
      (write : S → Str → Answer Bool) (utc : Tm) (n : ℕ) (v : Vfrb W S)
      → AreAged n v
      → AreAged (suc n) (serve_round write utc v)
  unfolding serve_round
  serve_round-IsAged write utc n v a = message-IsAged utc n v a

  serve-IsAged :
      (write : S → Str → Answer Bool) (utcs : List Tm) (n m : ℕ) (v : Vfrb W S)
      → m ≡ length utcs + n
      → AreAged n v
      → AreAged m (serve write utcs v)
  unfolding serve
  serve-IsAged write [] n m v e a = rw (zero_add n m e) a
  serve-IsAged write (utc ∷ utcs) n m v e a =
      serve-IsAged write utcs (suc n) m (serve_round write utc v) (omega arith)
        (serve_round-IsAged write utc n v a)

  abbrev wind_text : Vfrb W S → Str
  wind_text v = v.wind_data.wind.serialized

  serve_round-wind :
      (write : S → Str → Answer Bool) (utc : Tm) (v : Vfrb W S)
      → wind_text (serve_round write utc v) ≡ []
  unfolding serve_round message WindData.get_serialized Wind.set_serialized Base.set_serialized
  serve_round-wind write utc v = refl

  serve-wind :
      (write : S → Str → Answer Bool) (utcs : List Tm) (v : Vfrb W S)
      → wind_text v ≡ []
      → wind_text (serve write utcs v) ≡ []
  unfolding serve
  serve-wind write [] v e = e
  serve-wind write (utc ∷ utcs) v e =
      serve-wind write utcs (serve_round write utc v) (serve_round-wind write utc v)

  message-quiet :
      (utc : Tm) (n : ℕ) (v : Vfrb W S)
      → obj_outdated ≤ suc n
      → AreAged n v
      → wind_text v ≡ []
      → (message utc v).1
        ≡ (GpsData.get_serialized utc v.gps_data []).1 ++ v.atmosphere_data.atmosphere.serialized
  unfolding message AircraftData.get_serialized GpsData.get_serialized AtmosphereData.get_serialized
      WindData.get_serialized Wind.increment Base.increment Atmosphere.increment
  message-quiet utc n v h a e =
      rw
        (
          serialize-old (suc n) (message utc v).0.aircraft_data.container (omega arith)
              (message-IsAged utc n v a),
          e,
        )
        (append-nil _)

  -- Where no aircraft has reached the age of deletion, the text of a round that follows three rounds
  -- or more without a report is that of the own position and the last report of the atmosphere: it
  -- has no aircraft and no wind.
  pub serve-quiet :
      (write : S → Str → Answer Bool) (utcs : List Tm) (utc : Tm) (v : Vfrb W S)
      → All (IsAged 0) v.aircraft_data.container
      → 3 ≤ length utcs
      → let v' = serve write utcs v in
        (message utc v').1
        ≡ (GpsData.get_serialized utc v'.gps_data []).1 ++ v'.atmosphere_data.atmosphere.serialized
  unfolding serve
  serve-quiet write [] utc v a h = absurd (omega arith)
  serve-quiet write (now ∷ utcs) utc v a h =
      let n = length (now ∷ utcs) + 0 in
      message-quiet utc n (serve write (now ∷ utcs) v) (omega arith)
        (serve-IsAged write (now ∷ utcs) 0 n v refl a)
        (serve-wind write utcs (serve_round write now v) (serve_round-wind write now v))
