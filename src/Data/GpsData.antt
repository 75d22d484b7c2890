-- ===== src/Data/GpsData.antt =====
-- include/data/GpsData.h and src/data/GpsData.cpp: the own position. The mutex makes each call one
-- step; the calendar time that the processor reads is an argument.
pub mod Ground
use virtual_flight_radar_bac.Common.{ℕ, Bool, true, false, ◌&&◌, List, ◌++◌, leb, if◌then◌else◌}
use virtual_flight_radar_bac.Common.Int.{ℤ, pos, leb_ℤ}
use virtual_flight_radar_bac.Common.Text.{Str}
use virtual_flight_radar_bac.Double.{Double}
use virtual_flight_radar_bac.Object.Position.{Position}
use virtual_flight_radar_bac.Object.GpsPosition
use virtual_flight_radar_bac.Object.GpsPosition.{GpsPosition}
use virtual_flight_radar_bac.Data.Processor.GpsProcessor
use virtual_flight_radar_bac.Data.Processor.GpsProcessor.{Tm}

pub record GpsData (W : Type 0) : Type 0 where
  pub position : GpsPosition W
  pub position_locked : Bool
  pub ground_mode : Bool

-- What `update` returns or throws.
pub data Outcome : Type 0 where
  updated : Bool → Outcome
  already_locked received_good : Outcome

module _ {W : Type 0} where
  unfoldable pub get_position : GpsData W → Position W
  get_position s = s.position.position

module _ {W : Type 0} ⦃d : Double W⦄ where
  -- The constructor from a position.
  unfoldable pub of_position : Tm → GpsPosition W → Bool → GpsData W
  of_position utc position ground = record {
    position = GpsProcessor.process utc position;
    position_locked = false;
    ground_mode = ground;
  }

  -- `get_serialized(dest)`.
  unfoldable pub get_serialized : Tm → GpsData W → Str → GpsData W × Str
  get_serialized utc s dest =
      let p = GpsPosition.increment (GpsProcessor.process utc s.position) in
      (record s { position = p }, dest ++ p.serialized)

  -- `isPositionGood`, with GPS_NR_SATS_GOOD, GPS_FIX_GOOD and GPS_HOR_DILUTION_GOOD.
  unfoldable pub is_position_good : GpsPosition W → Bool
  is_position_good p =
      leb 7 p.nr_of_satellites && leb_ℤ (pos 1) p.fix_quality && d.le p.dilution (d.dec (pos 10) 1)

  -- What follows a successful update of the position.
  unfoldable pub after_update : Tm → GpsData W → GpsPosition W → GpsData W × Outcome
  after_update utc s p =
      let p' = GpsProcessor.process utc p in
      let s' = record s { position = p' } in
      if s.ground_mode && is_position_good p' then (s', received_good) else (s', updated true)

  unfoldable pub update : Tm → GpsData W → GpsPosition W → GpsData W × Outcome
  unfolding after_update
  update utc s p =
      let (p', done) = GpsPosition.try_update s.position p in
      if s.position_locked
      then (s, already_locked)
      else if done
      then after_update utc s p'
      else (record s { position = p' }, updated false)
