-- ===== src/Data/Processor/Wellformed.antt =====
-- What AircraftProcessor puts out are sentences that pass the guard of the NMEA parsers.
use virtual_flight_radar_bac.Common.{
  ℕ, ◌%◌, ◌≤◌, ◌≡◌, refl, true, some, [], ◌++◌, if◌then◌else◌, arith, Bool-cases, inl, inr,
}
use virtual_flight_radar_bac.Common.Int.{◌-ℤ◌, pos, leb_ℤ}
use virtual_flight_radar_bac.Common.Text.{codes}
use virtual_flight_radar_bac.Common.Print.{c_str, show_int, show_upper_hex}
use virtual_flight_radar_bac.Common.Print.Digits.{IsPlain, IsInt32, show_nat-IsPlain}
use virtual_flight_radar_bac.Double.{Double}
use virtual_flight_radar_bac.Math.{double_to_int, icao_height, ms_2_kmh}
use virtual_flight_radar_bac.Object.Aircraft
use virtual_flight_radar_bac.Object.Aircraft.{Aircraft, is_transponder}
use virtual_flight_radar_bac.Object.Base
use virtual_flight_radar_bac.Data.Processor.AircraftProcessor.{
  AircraftProcessor, Relative, calculate_rel_position, pflau, pflaa_full, pflaa_short, append_pflau,
  append_pflaa, process,
}
use virtual_flight_radar_bac.Feed.Parser.Nmea.{checksum_matches}
use virtual_flight_radar_bac.Data.Processor.Body.{
  c_str-IsPlain, show_upper_hex-IsPlain, star-IsBody, prefix-IsBody, widen-IsBody, guarded,
  says-IsBody, prints-IsBody, wrap32-IsInt32, IsBody,
}

-- What C++ promises of `double`s: a conversion gives an `int32_t`, and a format of at most seven
-- places and four decimals at most 400 ASCII characters.
pub record IsPrintable (W : Type 0) ⦃d : Double W⦄ : Type 0 where
  pub truncates : (x : W) → IsInt32 (d.truncate x)
  pub blanks : (w p : ℕ) (x : W) → w ≤ 7 → p ≤ 4 → IsPlain 400 (d.blank_padded w p x)
  pub zeros : (w p : ℕ) (x : W) → w ≤ 7 → p ≤ 4 → IsPlain 400 (d.zero_padded w p x)

module _ {W : Type 0} ⦃d : Double W⦄ where
  pub double_to_int-IsInt32 : (x : W) → IsPrintable W → IsInt32 (double_to_int x)
  unfolding double_to_int
  double_to_int-IsInt32 x h = elim (Bool-cases (d.le (d.dec (pos 0) 0) x)) [
    | inl up ↦ rw up (h.truncates _)
    | inr down ↦ rw down (h.truncates _)
  ]

  record IsNarrow (r : Relative W) : Type 0 where
    distance : IsInt32 r.distance
    north : IsInt32 r.rel_north
    east : IsInt32 r.rel_east
    vertical : IsInt32 r.rel_vertical

  calculate_rel_position-IsNarrow :
      (p : AircraftProcessor W) (a : Aircraft W)
      → IsPrintable W
      → IsNarrow (calculate_rel_position p a)
  unfolding calculate_rel_position
  calculate_rel_position-IsNarrow p a h = record {
    distance = double_to_int-IsInt32 _ h;
    north = double_to_int-IsInt32 _ h;
    east = double_to_int-IsInt32 _ h;
    vertical = wrap32-IsInt32 (
        if is_transponder a.target_type
        then a.position.altitude -ℤ icao_height p.ref_atm_pressure
        else a.position.altitude -ℤ p.ref_position.altitude);
  }

  pflau-IsBody :
      (r : Relative W) (a : Aircraft W)
      → IsPrintable W
      → IsNarrow r
      → IsPlain 1000 a.id
      → IsBody 3000 (pflau r a)
  unfolding pflau
  pflau-IsBody r a h n i = widen-IsBody _ 3000 _ (omega arith) (
      says-IsBody _ (codes "$PFLAU,,,,1,0,") _ refl (
        prints-IsBody _ 0 _ _ (omega arith) (double_to_int-IsInt32 r.rel_bearing h) (
          says-IsBody _ (codes ",0,") _ refl (
            prints-IsBody _ 0 _ _ (omega arith) n.vertical (
              says-IsBody _ (codes ",") _ refl (
                prints-IsBody _ 0 _ _ (omega arith) n.distance (
                  says-IsBody _ (codes ",") _ refl (
                    prefix-IsBody 1000 0 (c_str a.id) _ (c_str-IsPlain 1000 a.id i)
                      star-IsBody))))))))

  pflaa_short-IsBody :
      (r : Relative W) (a : Aircraft W)
      → IsNarrow r
      → IsPlain 1000 a.id
      → IsBody 3000 (pflaa_short r a)
  unfolding pflaa_short
  pflaa_short-IsBody r a n i = widen-IsBody _ 3000 _ (omega arith) (
      says-IsBody _ (codes "$PFLAA,0,") _ refl (
        prints-IsBody _ 0 _ _ (omega arith) n.north (
          says-IsBody _ (codes ",") _ refl (
            prints-IsBody _ 0 _ _ (omega arith) n.east (
              says-IsBody _ (codes ",") _ refl (
                prints-IsBody _ 0 _ _ (omega arith) n.vertical (
                  says-IsBody _ (codes ",1,") _ refl (
                    prefix-IsBody 1000 _ (c_str a.id) _ (c_str-IsPlain 1000 a.id i) (
                      says-IsBody _ (codes ",,,,,") _ refl (
                        prefix-IsBody 2 0 _ _
                          (show_upper_hex-IsPlain (a.aircraft_type % 256) (omega arith))
                          star-IsBody))))))))))

  flight-IsBody :
      (a : Aircraft W)
      → IsPrintable W
      → IsBody 500 (
          show_int 3 (double_to_int a.movement.heading)
          ++ (codes ",,"
              ++ (show_int 0 (double_to_int (d.mul a.movement.gnd_speed ms_2_kmh))
                  ++ (codes ","
                      ++ (d.blank_padded 3 1 a.movement.climb_rate
                          ++ (codes ","
                              ++ (show_upper_hex (a.aircraft_type % 256) ++ codes "*")))))))
  flight-IsBody a h = widen-IsBody _ 500 _ (omega arith) (
      prints-IsBody _ 3 _ _ (omega arith) (double_to_int-IsInt32 _ h) (
        says-IsBody _ (codes ",,") _ refl (
          prints-IsBody _ 0 _ _ (omega arith) (double_to_int-IsInt32 _ h) (
            says-IsBody _ (codes ",") _ refl (
              prefix-IsBody 400 _ _ _ (h.blanks 3 1 _ (omega arith) (omega arith)) (
                says-IsBody _ (codes ",") _ refl (
                  prefix-IsBody 2 0 _ _
                    (show_upper_hex-IsPlain (a.aircraft_type % 256) (omega arith))
                    star-IsBody)))))))

  pflaa_full-IsBody :
      (r : Relative W) (a : Aircraft W)
      → IsPrintable W
      → IsNarrow r
      → IsPlain 1000 a.id
      → IsBody 3000 (pflaa_full r a)
  unfolding pflaa_full
  pflaa_full-IsBody r a h n i = widen-IsBody _ 3000 _ (omega arith) (
      says-IsBody _ (codes "$PFLAA,0,") _ refl (
        prints-IsBody _ 0 _ _ (omega arith) n.north (
          says-IsBody _ (codes ",") _ refl (
            prints-IsBody _ 0 _ _ (omega arith) n.east (
              says-IsBody _ (codes ",") _ refl (
                prints-IsBody _ 0 _ _ (omega arith) n.vertical (
                  says-IsBody _ (codes ",") _ refl (
                    prefix-IsBody 10 _ _ _ (show_nat-IsPlain 0 (a.id_type % 256) (omega arith)) (
                      says-IsBody _ (codes ",") _ refl (
                        prefix-IsBody 1000 _ (c_str a.id) _ (c_str-IsPlain 1000 a.id i)
                          (says-IsBody _ (codes ",") _ refl (flight-IsBody a h))))))))))))

  guarded-pflau :
      (r : Relative W) (a : Aircraft W)
      → IsPrintable W
      → IsNarrow r
      → IsPlain 1000 a.id
      → checksum_matches (append_pflau r a) ≡ some true
  unfolding append_pflau pflau
  guarded-pflau r a h n i = guarded b'$' _ refl (pflau-IsBody r a h n i)

  guarded-pflaa :
      (r : Relative W) (a : Aircraft W)
      → IsPrintable W
      → IsNarrow r
      → IsPlain 1000 a.id
      → checksum_matches (append_pflaa r a) ≡ some true
  unfolding append_pflaa pflaa_full pflaa_short
  guarded-pflaa r a h n i = elim (Bool-cases a.full_info) [
    | inl full ↦ rw full (guarded b'$' _ refl (pflaa_full-IsBody r a h n i))
    | inr short ↦ rw short (guarded b'$' _ refl (pflaa_short-IsBody r a n i))
  ]

  -- What the processor puts out for an aircraft: nothing where it is too far away, and otherwise two
  -- sentences, each of which passes the guard of the parsers. The id is to be at most 1000 ASCII
  -- characters, and the conversions of `double`s as C++ promises them.
  pub process-sentences :
      (p : AircraftProcessor W) (a : Aircraft W)
      → IsPrintable W
      → IsPlain 1000 a.id
      → let r = calculate_rel_position p a in
        let s = (process p a).serialized in
        if leb_ℤ r.distance p.max_distance
        then (s ≡ append_pflau r a ++ append_pflaa r a)
          × (checksum_matches (append_pflau r a) ≡ some true)
          × (checksum_matches (append_pflaa r a) ≡ some true)
        else s ≡ []
  unfolding process Aircraft.set_serialized Base.set_serialized
  process-sentences p a h i =
      let r = calculate_rel_position p a in
      let n = calculate_rel_position-IsNarrow p a h in
      ground (arith, guarded-pflau r a h n i, guarded-pflaa r a h n i)
