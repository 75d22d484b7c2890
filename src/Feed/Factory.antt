-- ===== src/Feed/Factory.antt =====
-- src/feed/FeedFactory.cpp, and `createFeeds` of src/VFRB.cpp.
pub mod Usable
use virtual_flight_radar_bac.Common.{
  ℕ, ◌≡◌, refl, Bool, Option, none, some, List, [], ◌∷◌, ◌++◌, if◌then◌else◌,
}
use virtual_flight_radar_bac.Common.Text.{Str, codes, contains}
use virtual_flight_radar_bac.Config.Keys.{
  sect_key_aprsc, sect_key_atmos, sect_key_gps, sect_key_sbs, sect_key_wind,
}
use virtual_flight_radar_bac.Feed.Feeds.{
  Protocol, aprs, sbs, gps, sensor, Lookup, Problem, Feed, Made, made, problem, make_feed,
  make_aprsc_feed,
}

pub data FeedClass : Type 0 where
  aprsc_feed sbs_feed gps_feed wind_feed atmosphere_feed : FeedClass

-- The tests of `createFeed` on the name, in their order.
unfoldable pub class_of : Str → Option FeedClass
class_of name =
    if contains sect_key_aprsc name
    then some aprsc_feed
    else if contains sect_key_sbs name
    then some sbs_feed
    else if contains sect_key_gps name
    then some gps_feed
    else if contains sect_key_wind name
    then some wind_feed
    else if contains sect_key_atmos name
    then some atmosphere_feed
    else none

-- `makeFeed`: the constructor of the class; that of AprscFeed checks the login too.
unfoldable pub make_of : ℕ → FeedClass → Str → Lookup → Made
make_of garbage aprsc_feed name property = make_aprsc_feed garbage name property
make_of garbage sbs_feed name property = make_feed garbage name property
make_of garbage gps_feed name property = make_feed garbage name property
make_of garbage wind_feed name property = make_feed garbage name property
make_of garbage atmosphere_feed name property = make_feed garbage name property

-- `createFeed`.
unfoldable pub create_feed : ℕ → Str → Lookup → Option (FeedClass × Made)
create_feed garbage name property = elim (class_of name) [
  | none ↦ none
  | some c ↦ some (c, make_of garbage c name property)
]

-- `get_protocol` of the five classes.
unfoldable pub protocol_of : FeedClass → Protocol
protocol_of aprsc_feed = aprs
protocol_of sbs_feed = sbs
protocol_of gps_feed = gps
protocol_of wind_feed = sensor
protocol_of atmosphere_feed = sensor

-- What a created feed adds to the list; a name without a keyword and a feed whose constructor
-- throws add nothing.
abbrev pub taken : Option (FeedClass × Made) → List (FeedClass × Feed) → List (FeedClass × Feed)
taken none rest = rest
taken (some (c, made f)) rest = (c, f) ∷ rest
taken (some (c, problem p)) rest = rest

-- The loop of `createFeeds`, over the names with their properties.
unfoldable pub create_feeds : ℕ → List (Str × Lookup) → List (FeedClass × Feed)
unfolding create_feed
create_feeds garbage [] = []
create_feeds garbage ((name, property) ∷ names) =
    let rest = create_feeds garbage names in taken (create_feed garbage name property) rest

class_tests :
    (class_of (codes "sbs1") ≡ some sbs_feed)
    × (class_of (codes "my_aprs_sbs") ≡ some aprsc_feed)
    × (class_of (codes "atmos") ≡ some atmosphere_feed)
    × (class_of (codes "radar") ≡ none)
unfolding class_of contains
class_tests = (refl, refl, refl, refl)
