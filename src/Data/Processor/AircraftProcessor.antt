-- ===== src/Data/Processor/AircraftProcessor.antt =====
-- include/data/processor/AircraftProcessor.h and src/data/processor/AircraftProcessor.cpp.
-- The members that `calculateRelPosition` sets anew before anything reads them are its result.
use virtual_flight_radar_bac.Common.{◌%◌, [], ◌++◌, if◌then◌else◌}
use virtual_flight_radar_bac.Common.Int.{ℤ, pos, leb_ℤ, ◌-ℤ◌, wrap32}
use virtual_flight_radar_bac.Common.Text.{Str, codes}
use virtual_flight_radar_bac.Common.Print.{show_int, show_nat, show_upper_hex, c_str}
use virtual_flight_radar_bac.Double.{Double}
use virtual_flight_radar_bac.Math.{radian, degree, double_to_int, icao_height, ms_2_kmh}
use virtual_flight_radar_bac.Object.Position.{Position}
use virtual_flight_radar_bac.Object.Aircraft
use virtual_flight_radar_bac.Object.Aircraft.{Aircraft, is_transponder}
use virtual_flight_radar_bac.Data.Processor.Sentence.{sentence}

pub record AircraftProcessor (W : Type 0) : Type 0 where
  pub max_distance : ℤ
  pub ref_position : Position W
  pub ref_atm_pressure : W

-- `int32_t` values but the bearing.
pub record Relative (W : Type 0) : Type 0 where
  pub distance : ℤ
  pub rel_bearing : W
  pub rel_north : ℤ
  pub rel_east : ℤ
  pub rel_vertical : ℤ

module _ {W : Type 0} where
  unfoldable pub refer_to : AircraftProcessor W → Position W → W → AircraftProcessor W
  refer_to p position atm_press = record p { ref_position = position; ref_atm_pressure = atm_press }

module _ {W : Type 0} ⦃d : Double W⦄ where
  -- The constructor.
  unfoldable pub of_max_distance : ℤ → AircraftProcessor W
  of_max_distance max = record {
    max_distance = max;
    ref_position = record {
      latitude = d.dec (pos 0) 0;
      longitude = d.dec (pos 0) 0;
      altitude = pos 0;
    };
    ref_atm_pressure = d.dec (pos 101325) 2;
  }

  square : W → W
  square x = d.pow x (d.dec (pos 2) 0)

  half : W → W
  half x = d.div x (d.dec (pos 2) 0)

  -- The great-circle distance in metres, from the haversine `a`.
  metres : W → W
  metres a =
      d.mul (d.dec (pos 6371000) 0)
        (d.mul (d.dec (pos 2) 0) (d.atan2 (d.sqrt a) (d.sqrt (d.sub (d.dec (pos 1) 0) a))))

  unfoldable pub calculate_rel_position : AircraftProcessor W → Aircraft W → Relative W
  unfolding square half metres
  calculate_rel_position p aircraft =
      let ref_lat = radian p.ref_position.latitude in
      let ref_lon = radian p.ref_position.longitude in
      let lon = radian aircraft.position.longitude in
      let lat = radian aircraft.position.latitude in
      let lon_distance = d.sub lon ref_lon in
      let lat_distance = d.sub lat ref_lat in
      let a =
        d.add (square (d.sin (half lat_distance)))
          (d.mul (d.mul (d.cos ref_lat) (d.cos lat)) (square (d.sin (half lon_distance)))) in
      let distance = double_to_int (metres a) in
      let rel_bearing = degree (
        d.atan2 (d.mul (d.sin (d.sub lon ref_lon)) (d.cos lat)) (
          d.sub (d.mul (d.cos ref_lat) (d.sin lat))
            (d.mul (d.mul (d.sin ref_lat) (d.cos lat)) (d.cos (d.sub lon ref_lon))))) in
      let abs_bearing = d.fmod (d.add rel_bearing (d.dec (pos 360) 0)) (d.dec (pos 360) 0) in
      record {
        distance = distance;
        rel_bearing = rel_bearing;
        rel_north = double_to_int (d.mul (d.cos (radian abs_bearing)) (d.of_int distance));
        rel_east = double_to_int (d.mul (d.sin (radian abs_bearing)) (d.of_int distance));
        rel_vertical = wrap32 (
            if is_transponder aircraft.target_type
            then aircraft.position.altitude -ℤ icao_height p.ref_atm_pressure
            else aircraft.position.altitude -ℤ p.ref_position.altitude);
      }

  unfoldable pub pflau : Relative W → Aircraft W → Str
  pflau r aircraft =
      codes "$PFLAU,,,,1,0,"
      ++ (show_int 0 (double_to_int r.rel_bearing)
          ++ (codes ",0,"
              ++ (show_int 0 r.rel_vertical
                  ++ (codes ","
                      ++ (show_int 0 r.distance
                          ++ (codes "," ++ (c_str aircraft.id ++ codes "*")))))))

  unfoldable pub pflaa_full : Relative W → Aircraft W → Str
  pflaa_full r aircraft =
      codes "$PFLAA,0,"
      ++ (show_int 0 r.rel_north
          ++ (codes ","
              ++ (show_int 0 r.rel_east
                  ++ (codes ","
                      ++ (show_int 0 r.rel_vertical
                          ++ (codes ","
                              ++ (show_nat 0 (aircraft.id_type % 256)
                                  ++ (codes ","
                                      ++ (c_str aircraft.id
                                          ++ (codes ","
                                              ++ (show_int 3
                                                    (double_to_int aircraft.movement.heading)
                                                  ++ (codes ",,"
                                                      ++ (show_int 0 (
                                                            double_to_int (
                                                            d.mul aircraft.movement.gnd_speed
                                                            ms_2_kmh))
                                                          ++ (codes ","
                                                            ++ (d.blank_padded 3 1
                                                            aircraft.movement.climb_rate
                                                            ++ (codes ","
                                                            ++ (show_upper_hex
                                                            (aircraft.aircraft_type % 256)
                                                            ++ codes "*")))))))))))))))))

  unfoldable pub pflaa_short : Relative W → Aircraft W → Str
  pflaa_short r aircraft =
      codes "$PFLAA,0,"
      ++ (show_int 0 r.rel_north
          ++ (codes ","
              ++ (show_int 0 r.rel_east
                  ++ (codes ","
                      ++ (show_int 0 r.rel_vertical
                          ++ (codes ",1,"
                              ++ (c_str aircraft.id
                                  ++ (codes ",,,,,"
                                      ++ (show_upper_hex (aircraft.aircraft_type % 256)
                                          ++ codes "*")))))))))

  -- `appendPFLAU` and `appendPFLAA`: what they add to `m_processed`.
  unfoldable pub append_pflau : Relative W → Aircraft W → Str
  append_pflau r aircraft = sentence (pflau r aircraft)

  unfoldable pub append_pflaa : Relative W → Aircraft W → Str
  append_pflaa r aircraft =
      sentence (if aircraft.full_info then pflaa_full r aircraft else pflaa_short r aircraft)

  unfoldable pub process : AircraftProcessor W → Aircraft W → Aircraft W
  process p aircraft =
      let r = calculate_rel_position p aircraft in
      if leb_ℤ r.distance p.max_distance
      then Aircraft.set_serialized aircraft (append_pflau r aircraft ++ append_pflaa r aircraft)
      else Aircraft.set_serialized aircraft []
