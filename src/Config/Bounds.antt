-- ===== src/Config/Bounds.antt =====
-- The numbers of a configuration that is accepted.
use virtual_flight_radar_bac.Common.{
  ℕ, ◌<◌, ◌≡◌, ◌⊎◌, inl, inr, Option, none, some, Option-cases, arith, refl,
}
use virtual_flight_radar_bac.Common.Int.{ℤ, pos, ◌≤ℤ◌}
use virtual_flight_radar_bac.Common.Text.{Str, codes}
use virtual_flight_radar_bac.Config.Keys.{
  kv_key_max_dist, kv_key_max_height, path_pressure, path_server_port,
}
use virtual_flight_radar_bac.Double.{Double}
use virtual_flight_radar_bac.Object.GpsPosition.{GpsPosition}
use virtual_flight_radar_bac.Config.{
  Reader, Properties, Configuration, int32_max, filter_of, port_of, resolve_filter,
  resolve_server_port, resolve_position, configured, make_configuration,
}

port_of-lt : (port : Option ℕ) → port_of port < 0x10000
port_of-lt none = omega arith
port_of-lt (some port) = ground arith

filter_of-le :
    (filter : Option ℤ)
    → ((z : ℤ) → filter ≡ some z → z ≤ℤ int32_max)
    → (pos 0 ≤ℤ filter_of filter) × (filter_of filter ≤ℤ int32_max)
filter_of-le none h = (omega arith, omega arith)
filter_of-le (some z) h = ground (arith, h z refl)

module _ {W P : Type 0} (r : Reader W) where
  resolve_server_port-lt : (p : Properties P) → resolve_server_port r p < 0x10000
  unfolding resolve_server_port
  resolve_server_port-lt p = port_of-lt (r.read_uint64 (p.property path_server_port (codes "4353")))

  resolve_filter-le :
      (p : Properties P) (key : Str)
      → ((s : Str) (z : ℤ) → r.read_int32 s ≡ some z → z ≤ℤ int32_max)
      → (pos 0 ≤ℤ resolve_filter r p key) × (resolve_filter r p key ≤ℤ int32_max)
  unfolding resolve_filter
  resolve_filter-le p key h = filter_of-le _ (h _)

-- The ranges that a configuration keeps to.
pub record IsBounded {W P : Type 0} (c : Configuration W P) : Type 0 where
  pub port : c.server_port < 0x10000
  pub distance : (pos 0 ≤ℤ c.max_distance) × (c.max_distance ≤ℤ int32_max)
  pub height : (pos 0 ≤ℤ c.max_height) × (c.max_height ≤ℤ int32_max)

module _ {W P : Type 0} ⦃d : Double W⦄ (r : Reader W) where
  pub configured-IsBounded :
      (p : Properties P) (pressure : W) (position : GpsPosition W)
      → ((s : Str) (z : ℤ) → r.read_int32 s ≡ some z → z ≤ℤ int32_max)
      → IsBounded (configured r pressure position p)
  unfolding configured
  configured-IsBounded p pressure position h = record {
    port = resolve_server_port-lt r p;
    distance = resolve_filter-le r p kv_key_max_dist h;
    height = resolve_filter-le r p kv_key_max_height h;
  }

  -- Where the reading of an `int32_t` gives no more than its maximum: the constructor, once it has
  -- the properties, throws for the pressure or the position only; else the port fits 16 bits, and
  -- the two filters are no negative numbers and fit an `int32_t`.
  pub make_configuration-IsBounded :
      (p : Properties P)
      → ((s : Str) (z : ℤ) → r.read_int32 s ≡ some z → z ≤ℤ int32_max)
      → ((make_configuration r p ≡ none)
          × ((r.read_double (p.property path_pressure (codes "1013.25")) ≡ none)
              ⊎ (resolve_position r p ≡ none)))
        ⊎ ((c : Configuration W P) × (make_configuration r p ≡ some c) × IsBounded c)
  unfolding make_configuration
  make_configuration-IsBounded p h =
      elim (Option-cases (r.read_double (p.property path_pressure (codes "1013.25")))) [
        | inl broken ↦ inl (rw broken refl, inl broken)
        | inr (pressure, e) ↦ elim (Option-cases (resolve_position r p)) [
          | inl broken ↦ inl (rw (e, broken) refl, inr broken)
          | inr (position, f) ↦ inr (
            configured r pressure position p,
            rw (e, f) refl,
            configured-IsBounded p pressure position h,
          )
        ]
      ]
