-- ===== src/Config/Tree.antt =====
-- src/config/Properties.cpp and src/config/ConfigReader.cpp, and the constructor of Configuration
-- from a file. Boost.PropertyTree is a parameter.
use virtual_flight_radar_bac.Common.{Option, none, some, List, [], ◌∷◌, if◌then◌else◌}
use virtual_flight_radar_bac.Common.Text.{Str}
use virtual_flight_radar_bac.TimeStamp.{◌>>=◌}
use virtual_flight_radar_bac.Double.{Double}
use virtual_flight_radar_bac.Feed.Feeds.{Lookup}
use virtual_flight_radar_bac.Config.{
  Reader, Properties, Configuration, make_configuration, is_empty,
}

-- What the program calls: the value at a path, the subtree at a path, and the reading of an INI
-- file; `none` is where Boost takes the default, and where it throws.
pub record PropertyTree (T : Type 0) : Type 0 where
  pub get : T → Str → Option Str
  pub get_child : T → Str → Option T
  pub read_ini : Str → Option T

module _ {T : Type 0} (b : PropertyTree T) where
  abbrev or_else : Option Str → Str → Str
  or_else none alternative = alternative
  or_else (some property) alternative = property

  unfoldable pub get_property : T → Lookup
  get_property t path alternative =
      let property = or_else (b.get t path) alternative in
      if is_empty property then alternative else property

  -- `get_propertySection`; `none` is its exception.
  unfoldable pub get_property_section : T → Str → Option T
  get_property_section t section = b.get_child t section

  unfoldable pub properties_of : T → Properties T
  unfolding get_property get_property_section
  properties_of t = record { property = get_property t; section = get_property_section t }

  -- `ConfigReader::read`; `none` is its exception.
  unfoldable pub read : Str → Option (Properties T)
  unfolding properties_of
  read text = elim (b.read_ini text) [ none ↦ none | some t ↦ some (properties_of t) ]

  -- The feeds of a configuration, each with what `get_property` answers in its section.
  unfoldable pub lookups_of : List (Str × T) → List (Str × Lookup)
  unfolding get_property
  lookups_of [] = []
  lookups_of ((name, t) ∷ feeds) = (name, get_property t) ∷ lookups_of feeds

module _ {W T : Type 0} ⦃d : Double W⦄ (b : PropertyTree T) (r : Reader W) where
  -- `Configuration(stream)`, for the text that the stream gives.
  unfoldable pub read_configuration : Str → Option (Configuration W T)
  unfolding read
  read_configuration text = read b text >>= λ p. make_configuration r p
