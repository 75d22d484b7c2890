-- ===== src/Config/Resolved.antt =====
-- What a configuration takes from the text of a file, and for what it refuses one.
use virtual_flight_radar_bac.Common.{
  ℕ, ◌≤◌, ◌<◌, ◌≡◌, ◌⊎◌, refl, ap, inl, inr, Bool, Option, none, some, Option-cases, [], ◌∷◌, not,
  if◌then◌else◌, arith,
}
use virtual_flight_radar_bac.Common.Int.{ℤ, pos, negsuc, ◌≤ℤ◌, ◌<ℤ◌}
use virtual_flight_radar_bac.Common.Text.{Str, codes}
use virtual_flight_radar_bac.Config.Keys.{
  kv_key_max_dist, kv_key_max_height, path, path_pressure, path_server_port, path_gnd_mode,
  path_latitude, path_longitude, path_altitude, path_geoid, sect_key_filter,
}
use virtual_flight_radar_bac.Object.GpsPosition
use virtual_flight_radar_bac.Object.GpsPosition.{GpsPosition}
use virtual_flight_radar_bac.Double.{Double}
use virtual_flight_radar_bac.Config.{
  Reader, Configuration, int32_max, filter_of, port_of, resolve_filter, resolve_server_port,
  resolve_position, configured, is_empty, make_configuration,
}
use virtual_flight_radar_bac.Config.Bounds.{IsBounded, configured-IsBounded}
use virtual_flight_radar_bac.Config.Tree.{
  PropertyTree, get_property, read, properties_of, read_configuration,
}

-- The port that the file gives, where there is a number and it fits 16 bits; else 4353.
abbrev pub IsPort : Option ℕ → ℕ → Type 0
IsPort found port =
    (found ≡ some port) × (port ≤ 0xffff)
    ⊎ ((found ≡ none) ⊎ (n : ℕ) × (found ≡ some n) × (0xffff < n)) × (port ≡ 4353)

-- The filter that the file gives, where there is a number and it is not negative; else none, by the
-- greatest number.
abbrev pub IsFilter : Option ℤ → ℤ → Type 0
IsFilter found filter =
    (found ≡ some filter) × (pos 0 ≤ℤ filter)
    ⊎ ((found ≡ none) ⊎ (z : ℤ) × (found ≡ some z) × (z <ℤ pos 0)) × (filter ≡ int32_max)

port_of-IsPort : (found : Option ℕ) → IsPort found (port_of found)
port_of-IsPort none = inr (inl refl, refl)
port_of-IsPort (some n) = ground arith

filter_of-pos : (n : ℕ) → filter_of (some (pos n)) ≡ pos n
filter_of-pos n = ground arith

filter_of-negsuc : (n : ℕ) → filter_of (some (negsuc n)) ≡ int32_max
filter_of-negsuc n = ground arith

filter_of-IsFilter : (found : Option ℤ) → IsFilter found (filter_of found)
filter_of-IsFilter none = inr (inl refl, refl)
filter_of-IsFilter (some (pos n)) = rw (filter_of-pos n) (inl (refl, omega arith))
filter_of-IsFilter (some (negsuc n)) =
    rw (filter_of-negsuc n) (inr (inr (negsuc n, refl, omega arith), refl))

if_same : {A : Type 0} (b : Bool) (x : A) → (if b then x else x) ≡ x
if_same b x = ground arith

-- What stands at a path, unless that is nothing.
abbrev pub given : Option Str → Str → Str
given none alternative = alternative
given (some []) alternative = alternative
given (some (c ∷ s)) alternative = c ∷ s

module _ {W T : Type 0} ⦃d : Double W⦄ (b : PropertyTree T) (r : Reader W) where
  abbrev pub value : T → Str → Str → Str
  value t key alternative = given (b.get t key) alternative

  property-given :
      (t : T) (key alternative : Str)
      → (properties_of b t).property key alternative ≡ value t key alternative
  unfolding properties_of get_property
  property-given t key alternative = elim (Option-cases (b.get t key)) [
    | inl missing ↦ rw (missing, get_property) (if_same (is_empty alternative) alternative)
    | inr ([], found) ↦ rw (found, get_property) refl
    | inr (c ∷ s, found) ↦ rw (found, get_property) refl
  ]

  -- The numbers without which a file is refused.
  abbrev pub pressure : T → Option W
  pressure t = r.read_double (value t path_pressure (codes "1013.25"))

  abbrev pub latitude : T → Option W
  latitude t = r.read_double (value t path_latitude (codes "0.0"))

  abbrev pub longitude : T → Option W
  longitude t = r.read_double (value t path_longitude (codes "0.0"))

  abbrev pub altitude : T → Option ℤ
  altitude t = r.read_int32 (value t path_altitude (codes "0"))

  abbrev pub geoid : T → Option W
  geoid t = r.read_double (value t path_geoid (codes "0.0"))

  abbrev pub IsUnreadable : T → Type 0
  IsUnreadable t =
      (pressure t ≡ none)
      ⊎ (latitude t ≡ none)
      ⊎ (longitude t ≡ none)
      ⊎ (altitude t ≡ none)
      ⊎ (geoid t ≡ none)

  abbrev filter_at : T → Str → Option ℤ
  filter_at t key = r.read_int32 (value t (path sect_key_filter key) (codes "-1"))

  -- The members of a configuration by what the file says.
  pub record IsResolved (t : T) (c : Configuration W T) : Type 0 where
    pub pressure : pressure t ≡ some c.atm_pressure
    pub latitude : latitude t ≡ some c.position.position.latitude
    pub longitude : longitude t ≡ some c.position.position.longitude
    pub altitude : altitude t ≡ some c.position.position.altitude
    pub geoid : geoid t ≡ some c.position.geoid
    pub port : IsPort (r.read_uint64 (value t path_server_port (codes "4353"))) c.server_port
    pub distance : IsFilter (filter_at t kv_key_max_dist) c.max_distance
    pub height : IsFilter (filter_at t kv_key_max_height) c.max_height
    pub ground : c.ground_mode ≡ not (is_empty (value t path_gnd_mode []))
    pub bounded : IsBounded c

  resolve_server_port-IsPort :
      (t : T)
      → IsPort
          (r.read_uint64 (value t path_server_port (codes "4353")))
          (resolve_server_port r (properties_of b t))
  unfolding resolve_server_port
  resolve_server_port-IsPort t =
      rw (property-given t path_server_port (codes "4353")) (port_of-IsPort _)

  resolve_filter-IsFilter :
      (t : T) (key : Str) → IsFilter (filter_at t key) (resolve_filter r (properties_of b t) key)
  unfolding resolve_filter
  resolve_filter-IsFilter t key =
      rw (property-given t (path sect_key_filter key) (codes "-1")) (filter_of-IsFilter _)

  resolve_position-reads :
      (t : T)
      → (resolve_position r (properties_of b t) ≡ none)
          × ((latitude t ≡ none) ⊎ (longitude t ≡ none) ⊎ (altitude t ≡ none) ⊎ (geoid t ≡ none))
        ⊎ (q : GpsPosition W) × (resolve_position r (properties_of b t) ≡ some q)
          × (latitude t ≡ some q.position.latitude)
          × (longitude t ≡ some q.position.longitude)
          × (altitude t ≡ some q.position.altitude)
          × (geoid t ≡ some q.geoid)
  unfolding resolve_position GpsPosition.of_position
  resolve_position-reads t =
      let p = properties_of b t in
      rw
        (
          property-given t path_latitude (codes "0.0"),
          property-given t path_longitude (codes "0.0"),
          property-given t path_altitude (codes "0"),
          property-given t path_geoid (codes "0.0"),
        )
        (elim (Option-cases (latitude t)) [
          | inl bad ↦ inl (rw bad refl, inl bad)
          | inr (lat, e1) ↦ elim (Option-cases (longitude t)) [
            | inl bad ↦ inl (rw (e1, bad) refl, inr (inl bad))
            | inr (lon, e2) ↦ elim (Option-cases (altitude t)) [
              | inl bad ↦ inl (rw (e1, e2, bad) refl, inr (inr (inl bad)))
              | inr (alt, e3) ↦ elim (Option-cases (geoid t)) [
                | inl bad ↦ inl (rw (e1, e2, e3, bad) refl, inr (inr (inr bad)))
                | inr (g, e4) ↦ inr (
                  GpsPosition.of_position
                      (record { latitude = lat; longitude = lon; altitude = alt }) g,
                  rw (e1, e2, e3, e4) refl,
                  e1,
                  e2,
                  e3,
                  e4,
                )
              ]
            ]
          ]
        ])

  configured-IsResolved :
      (t : T) (w : W) (q : GpsPosition W)
      → ((s : Str) (z : ℤ) → r.read_int32 s ≡ some z → z ≤ℤ int32_max)
      → pressure t ≡ some w
      → latitude t ≡ some q.position.latitude
      → longitude t ≡ some q.position.longitude
      → altitude t ≡ some q.position.altitude
      → geoid t ≡ some q.geoid
      → IsResolved t (configured r w q (properties_of b t))
  unfolding configured
  configured-IsResolved t w q h e lat lon alt g = record {
    pressure = e;
    latitude = lat;
    longitude = lon;
    altitude = alt;
    geoid = g;
    port = resolve_server_port-IsPort t;
    distance = resolve_filter-IsFilter t kv_key_max_dist;
    height = resolve_filter-IsFilter t kv_key_max_height;
    ground = ap (λ s. not (is_empty s)) (property-given t path_gnd_mode []);
    bounded = configured-IsBounded r (properties_of b t) w q h;
  }

  make_configuration-IsResolved :
      (t : T)
      → ((s : Str) (z : ℤ) → r.read_int32 s ≡ some z → z ≤ℤ int32_max)
      → (make_configuration r (properties_of b t) ≡ none) × IsUnreadable t
        ⊎ (c : Configuration W T) × (make_configuration r (properties_of b t) ≡ some c)
          × IsResolved t c
  unfolding make_configuration
  make_configuration-IsResolved t h =
      rw (property-given t path_pressure (codes "1013.25")) (elim (Option-cases (pressure t)) [
        | inl bad ↦ inl (rw bad refl, inl bad)
        | inr (w, e) ↦ elim (resolve_position-reads t) [
          | inl (bad, why) ↦ inl (rw (e, bad) refl, inr why)
          | inr (q, ok, lat, lon, alt, g) ↦ inr (
            configured r w q (properties_of b t),
            rw (e, ok) refl,
            configured-IsResolved t w q h e lat lon alt g,
          )
        ]
      ])

  -- Where the reading of an `int32_t` gives no more than its maximum: a file is refused exactly when
  -- it is no INI file, or its pressure or a number of its position cannot be read. The configuration
  -- of any other file has the pressure and the position that stand there; the port if that is a
  -- number up to 65535, and 4353 otherwise; each filter if that is a number and not negative, and the
  -- greatest `int32_t` otherwise; and ground mode if anything is given for it. What is missing or
  -- empty has its default.
  pub read_configuration-IsResolved :
      (text : Str)
      → ((s : Str) (z : ℤ) → r.read_int32 s ≡ some z → z ≤ℤ int32_max)
      → (read_configuration b r text ≡ none)
          × ((b.read_ini text ≡ none) ⊎ (t : T) × (b.read_ini text ≡ some t) × IsUnreadable t)
        ⊎ (t : T) × (c : Configuration W T) × (b.read_ini text ≡ some t)
          × (read_configuration b r text ≡ some c)
          × IsResolved t c
  unfolding read_configuration read
  read_configuration-IsResolved text h = elim (Option-cases (b.read_ini text)) [
    | inl bad ↦ inl (rw (bad, read) refl, inl bad)
    | inr (t, ini) ↦ elim (make_configuration-IsResolved t h) [
      | inl (refused, why) ↦ inl (rw (ini, read) refused, inr (t, ini, why))
      | inr (c, accepted, resolved) ↦ inr (t, c, ini, rw (ini, read) accepted, resolved)
    ]
  ]
