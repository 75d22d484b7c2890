-- ===== src/Feed/Feeds.antt =====
-- src/feed/Feed.cpp and src/feed/{Aprsc,Sbs,Gps,Wind,Atmosphere}Feed.cpp: a feed parses what its
-- client received and updates its container. The maximum height that the constructors of AprscFeed
-- and SbsFeed store in their parsers, the regular expressions and the clock are arguments.
use Prim.Native.Nat.{min}
use virtual_flight_radar_bac.Common.{
  ℕ, ◌-◌, ◌%◌, ◌^◌, Bool, true, false, Option, none, some, [], ◌∷◌, if◌then◌else◌,
}
use virtual_flight_radar_bac.Common.Int.{ℤ}
use virtual_flight_radar_bac.Common.Text.{Str, codes, str_eq, stoul}
use virtual_flight_radar_bac.Config.Keys.{kv_key_host, kv_key_login, kv_key_port, kv_key_priority}
use virtual_flight_radar_bac.Double.{Double}
use virtual_flight_radar_bac.TimeStamp.{Clock}
use virtual_flight_radar_bac.Object.Position.{Position}
use virtual_flight_radar_bac.Object.Aircraft
use virtual_flight_radar_bac.Object.GpsPosition
use virtual_flight_radar_bac.Object.Atmosphere
use virtual_flight_radar_bac.Object.Wind
use virtual_flight_radar_bac.Data.Processor.GpsProcessor.{Tm}
use virtual_flight_radar_bac.Data.AircraftData
use virtual_flight_radar_bac.Data.AircraftData.{AircraftData}
use virtual_flight_radar_bac.Data.GpsData
use virtual_flight_radar_bac.Data.GpsData.{GpsData, Outcome, updated, already_locked, received_good}
use virtual_flight_radar_bac.Data.AtmosphereData
use virtual_flight_radar_bac.Data.AtmosphereData.{AtmosphereData}
use virtual_flight_radar_bac.Data.WindData
use virtual_flight_radar_bac.Data.WindData.{WindData}
use virtual_flight_radar_bac.Feed.Parser.Regex.{Regexes}
use virtual_flight_radar_bac.Feed.Parser.AprsParser
use virtual_flight_radar_bac.Feed.Parser.SbsParser
use virtual_flight_radar_bac.Feed.Parser.GpsParser
use virtual_flight_radar_bac.Feed.Parser.AtmosphereParser
use virtual_flight_radar_bac.Feed.Parser.WindParser

pub data Protocol : Type 0 where
  aprs sbs gps sensor : Protocol

-- What `get_property(key, default)` of config::Properties answers.
abbrev pub Lookup : Type 0
Lookup = Str → Str → Str

-- `initPriority`; `none` leaves `m_priority` as it was, and nothing has set it before.
unfoldable pub init_priority : Lookup → Option ℕ
init_priority property = elim (stoul (property kv_key_priority [])) [
  | none ↦ none
  | some n ↦ some (min n (2 ^ 32 - 1) % 2 ^ 32)
]

abbrev pub is_empty : Str → Bool
is_empty [] = true
is_empty (c ∷ s) = false

pub data Problem : Type 0 where
  no_host no_port no_login : Problem

pub record Feed : Type 0 where
  pub name : Str
  pub priority : ℕ
  pub host : Str
  pub port : Str

pub data Made : Type 0 where
  made : Feed → Made
  problem : Problem → Made

-- The constructor; `garbage` is the uninitialised priority.
unfoldable pub make_feed : ℕ → Str → Lookup → Made
unfolding init_priority
make_feed garbage name property =
    let host = property kv_key_host [] in
    let port = property kv_key_port [] in
    let priority : ℕ = elim (init_priority property) [ none ↦ garbage | some n ↦ n ] in
    if is_empty host
    then problem no_host
    else if is_empty port
    then problem no_port
    else made (record { name = name; priority = priority; host = host; port = port })

-- The constructor of AprscFeed.
unfoldable pub make_aprsc_feed : ℕ → Str → Lookup → Made
make_aprsc_feed garbage name property = elim (make_feed garbage name property) [
  | problem p ↦ problem p
  | made f ↦
      if str_eq (property kv_key_login (codes "-")) (codes "-") then problem no_login else made f
]

abbrev pub keeps_on : Outcome → Bool
keeps_on (updated b) = true
keeps_on already_locked = false
keeps_on received_good = false

-- `process` of AprscFeed, SbsFeed, AtmosphereFeed and WindFeed returns `true` always, and that of
-- GpsFeed unless the update throws.
module _ {W : Type 0} ⦃d : Double W⦄ where
  unfoldable pub process_aprsc :
      Regexes → ℤ → Clock → Feed → Str → AircraftData W → AircraftData W × Bool
  process_aprsc re max_height clock f response store =
      elim (AprsParser.unpack re max_height clock response (Aircraft.of_priority f.priority)) [
        | none ↦ (store, true)
        | some a ↦ ((AircraftData.update store a).0, true)
      ]

  unfoldable pub process_sbs :
      ℤ → Clock → Position W → Feed → Str → AircraftData W → AircraftData W × Bool
  process_sbs max_height clock garbage f response store =
      elim (SbsParser.unpack max_height clock garbage response (Aircraft.of_priority f.priority)) [
        | none ↦ (store, true)
        | some a ↦ ((AircraftData.update store a).0, true)
      ]

  unfoldable pub process_gps : Regexes → Clock → Tm → Feed → Str → GpsData W → GpsData W × Bool
  process_gps re clock utc f response store =
      elim (GpsParser.unpack re clock response (GpsPosition.of_priority f.priority)) [
        | none ↦ (store, true)
        | some p ↦ let (store', outcome) = GpsData.update utc store p in (store', keeps_on outcome)
      ]

  unfoldable pub process_atmosphere : Feed → Str → AtmosphereData W → AtmosphereData W × Bool
  process_atmosphere f response store =
      elim (AtmosphereParser.unpack response (Atmosphere.of_priority f.priority)) [
        | none ↦ (store, true)
        | some a ↦ ((AtmosphereData.update store a).0, true)
      ]

unfoldable pub process_wind : Feed → Str → WindData → WindData × Bool
process_wind f response store = elim (WindParser.unpack response (Wind.of_priority f.priority)) [
  | none ↦ (store, true)
  | some w ↦ ((WindData.update store w).0, true)
]
