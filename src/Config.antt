-- ===== src/Config.antt =====
-- include/util/utility.hpp and src/config/Configuration.cpp: what the configuration resolves to. The
-- property tree and the reading of numbers by streams are parameters.
pub mod Keys
pub mod Lines
pub mod Bounds
pub mod Tree
pub mod Resolved
use virtual_flight_radar_bac.Common.{
  ℕ, ◌+◌, ◌%◌, Bool, true, false, not, Option, none, some, List, [], ◌∷◌, ◌++◌, ltb, ◌==◌,
  if◌then◌else◌,
}
use virtual_flight_radar_bac.Common.Int.{ℤ, pos, ltb_ℤ}
use virtual_flight_radar_bac.Common.Text.{Str, codes}
use virtual_flight_radar_bac.Config.Keys.{
  kv_key_max_dist, kv_key_max_height, path, path_altitude, path_feeds, path_geoid, path_gnd_mode,
  path_latitude, path_longitude, path_pressure, path_server_port, sect_key_filter,
}
use virtual_flight_radar_bac.TimeStamp.{◌>>=◌}
use virtual_flight_radar_bac.Object.Position.{Position}
use virtual_flight_radar_bac.Object.GpsPosition
use virtual_flight_radar_bac.Object.GpsPosition.{GpsPosition}
use virtual_flight_radar_bac.Double.{Double}

-- What stands from the first byte on that is no blank; `none` is `npos`.
unfoldable pub from_text : Str → Option Str
from_text [] = none
from_text (c ∷ s) = if c == b' ' then from_text s else some (c ∷ s)

-- What stands up to the last byte that is no blank.
unfoldable pub to_text : Str → Option Str
to_text [] = none
to_text (c ∷ s) = elim (to_text s) [
  | none ↦ if c == b' ' then none else some (c ∷ [])
  | some t ↦ some (c ∷ t)
]

abbrev pub or_all : Option Str → Str → Str
or_all none s = s
or_all (some t) s = t

-- `trimString`: a text of blanks only stays as it is.
unfoldable pub trim_string : Str → Str
trim_string s = let front = or_all (from_text s) s in or_all (to_text front) front

-- A byte before the first of the items.
abbrev pub prepend : ℕ → List Str → List Str
prepend c [] = (c ∷ []) ∷ []
prepend c (item ∷ items) = (c ∷ item) ∷ items

-- The items that `std::getline` reads: the empty rest behind a last comma is none.
unfoldable pub get_lines : Str → List Str
get_lines [] = []
get_lines (c ∷ s) = let rest = get_lines s in if c == b',' then [] ∷ rest else prepend c rest

unfoldable pub trim_all : List Str → List Str
trim_all [] = []
trim_all (item ∷ items) = trim_string item ∷ trim_all items

-- `splitCommaSeparated`.
unfoldable pub split_comma_separated : Str → List Str
split_comma_separated s = trim_all (get_lines s)

-- `stringToNumber` at the three types; `none` is no number.
pub record Reader (W : Type 0) : Type 0 where
  pub read_double : Str → Option W
  pub read_int32 : Str → Option ℤ
  pub read_uint64 : Str → Option ℕ

-- What the file says: `get_property(path, default)`, and the section of a name (`none` is the
-- exception of `get_propertySection`).
pub record Properties (P : Type 0) : Type 0 where
  pub property : Str → Str → Str
  pub section : Str → Option P

-- `feeds` holds `m_feedNames` in order, each with its entry of `m_feedProperties`.
pub record Configuration (W P : Type 0) : Type 0 where
  pub atm_pressure : W
  pub position : GpsPosition W
  pub max_distance : ℤ
  pub max_height : ℤ
  pub server_port : ℕ
  pub ground_mode : Bool
  pub feeds : List (Str × P)

-- `std::numeric_limits<std::int32_t>::max()`.
abbrev pub int32_max : ℤ
int32_max = pos 0x7fffffff

-- A number, or what an exception gives.
abbrev pub filter_of : Option ℤ → ℤ
filter_of none = int32_max
filter_of (some filter) = if ltb_ℤ filter (pos 0) then int32_max else filter

abbrev pub port_of : Option ℕ → ℕ
port_of none = 4353
port_of (some port) = if ltb 0xffff port then 4353 else port % 0x10000

module _ {W P : Type 0} (r : Reader W) where
  unfoldable pub resolve_filter : Properties P → Str → ℤ
  resolve_filter p key =
      filter_of (r.read_int32 (p.property (path sect_key_filter key) (codes "-1")))

  unfoldable pub resolve_server_port : Properties P → ℕ
  resolve_server_port p = port_of (r.read_uint64 (p.property path_server_port (codes "4353")))

  -- The loop of `resolveFeeds`.
  unfoldable pub feeds_of : Properties P → List Str → List (Str × P)
  feeds_of p [] = []
  feeds_of p (name ∷ names) =
      let rest = feeds_of p names in
      elim (p.section name) [ none ↦ rest | some section ↦ (name, section) ∷ rest ]

abbrev pub is_empty : Str → Bool
is_empty [] = true
is_empty (c ∷ s) = false

module _ {W P : Type 0} ⦃d : Double W⦄ (r : Reader W) where
  -- `resolvePosition`; `none` is the exception of `checkNumber`.
  unfoldable pub resolve_position : Properties P → Option (GpsPosition W)
  resolve_position p = do
    latitude ← r.read_double (p.property path_latitude (codes "0.0"))
    longitude ← r.read_double (p.property path_longitude (codes "0.0"))
    altitude ← r.read_int32 (p.property path_altitude (codes "0"))
    geoid ← r.read_double (p.property path_geoid (codes "0.0"))
    some (
        GpsPosition.of_position
          (record { latitude = latitude; longitude = longitude; altitude = altitude }) geoid)

  -- The members, once the pressure and the position are known.
  unfoldable pub configured : W → GpsPosition W → Properties P → Configuration W P
  configured atm_pressure position p = record {
    atm_pressure = atm_pressure;
    position = position;
    max_distance = resolve_filter r p kv_key_max_dist;
    max_height = resolve_filter r p kv_key_max_height;
    server_port = resolve_server_port r p;
    ground_mode = not (is_empty (p.property path_gnd_mode []));
    feeds = feeds_of r p (split_comma_separated (p.property path_feeds []));
  }

  -- The constructor; `none` is its exception.
  unfoldable pub make_configuration : Properties P → Option (Configuration W P)
  make_configuration p = do
    atm_pressure ← r.read_double (p.property path_pressure (codes "1013.25"))
    position ← resolve_position p
    some (configured atm_pressure position p)
