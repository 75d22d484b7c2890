-- ===== src/Object/Aircraft.antt =====
-- include/object/Aircraft.h and src/object/Aircraft.cpp. The enumerations of ids and of aircraft
-- types are numbers, since the parsers cast arbitrary numbers to them.
use virtual_flight_radar_bac.Common.{ℕ, Bool, true, false, ◌&&◌, ◌||◌, [], ltb, if◌then◌else◌}
use virtual_flight_radar_bac.Common.Int.{pos, negsuc}
use virtual_flight_radar_bac.Common.Text.{Str}
use virtual_flight_radar_bac.Double.{Double}
use virtual_flight_radar_bac.TimeStamp
use virtual_flight_radar_bac.TimeStamp.{TimeStamp, newer}
use virtual_flight_radar_bac.Object.Base
use virtual_flight_radar_bac.Object.Base.{Object}
use virtual_flight_radar_bac.Object.Position.{Position}

pub record Movement (W : Type 0) : Type 0 where
  pub gnd_speed : W
  pub heading : W
  pub climb_rate : W

pub data TargetType : Type 0 where
  flarm transponder : TargetType

-- AircraftType::UNKNOWN, POWERED_AIRCRAFT and STATIC_OBJECT; IdType::RANDOM, ICAO and OGN.
abbrev pub unknown_type : ℕ
unknown_type = 0

abbrev pub powered_aircraft : ℕ
powered_aircraft = 8

abbrev pub static_object : ℕ
static_object = 15

abbrev pub id_random : ℕ
id_random = 0

abbrev pub id_icao : ℕ
id_icao = 1

abbrev pub id_ogn : ℕ
id_ogn = 3

pub record Aircraft (W : Type 0) : Type 0 where
  pub base : Object
  pub open base use *
  pub id : Str
  pub id_type : ℕ
  pub aircraft_type : ℕ
  pub target_type : TargetType
  pub position : Position W
  pub movement : Movement W
  pub time_stamp : TimeStamp
  pub full_info : Bool

abbrev pub is_flarm : TargetType → Bool
is_flarm flarm = true
is_flarm transponder = false

abbrev pub is_transponder : TargetType → Bool
is_transponder flarm = false
is_transponder transponder = true

module _ {W : Type 0} ⦃d : Double W⦄ where
  -- The constructor. A_VALUE_NA is -1024.0.
  unfoldable pub of_priority : ℕ → Aircraft W
  of_priority p = record {
    base = Base.of_priority p;
    id = [];
    id_type = id_icao;
    aircraft_type = powered_aircraft;
    target_type = transponder;
    position = record { latitude = d.dec (pos 0) 0; longitude = d.dec (pos 0) 0; altitude = pos 0 };
    movement = record { gnd_speed = na; heading = na; climb_rate = na };
    time_stamp = TimeStamp.initial;
    full_info = false;
  }
    where
      na : W
      na = d.dec (negsuc 1023) 0

module _ {W : Type 0} where
  -- `assign`, where the cast of the argument succeeds. The id stays.
  unfoldable pub assign : Aircraft W → Aircraft W → Aircraft W
  assign self other = record self {
    base = Base.assign self.base other.base;
    id_type = other.id_type;
    aircraft_type = other.aircraft_type;
    target_type = other.target_type;
    position = other.position;
    movement = other.movement;
    time_stamp = other.time_stamp;
    full_info = other.full_info;
  }

  -- `self.canUpdate(other)`: `self` is the new report.
  unfoldable pub can_update : Aircraft W → Aircraft W → Bool
  can_update self other =
      newer self.time_stamp other.time_stamp
      && (is_transponder other.target_type || is_flarm self.target_type)
      && Base.can_update self.base other.base

  -- `self.tryUpdate(other)`.
  unfoldable pub try_update : Aircraft W → Aircraft W → Aircraft W × Bool
  unfolding can_update assign
  try_update self other = if can_update other self then (assign self other, true) else (self, false)

  unfoldable pub set_aircraft_type : Aircraft W → ℕ → Aircraft W
  set_aircraft_type a t = record a {
    aircraft_type = if ltb static_object t then unknown_type else t;
  }

  unfoldable pub set_id_type : Aircraft W → ℕ → Aircraft W
  set_id_type a t = record a { id_type = if ltb id_ogn t then id_random else t }

  unfoldable pub increment : Aircraft W → Aircraft W
  increment a = record a { base = Base.increment a.base }

  unfoldable pub set_serialized : Aircraft W → Str → Aircraft W
  set_serialized a s = record a { base = Base.set_serialized a.base s }
