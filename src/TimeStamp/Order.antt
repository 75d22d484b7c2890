-- ===== src/TimeStamp/Order.antt =====
-- `operator>` is a strict total order on time stamps.
use virtual_flight_radar_bac.Common.{◌≡◌, true, false, arith}
use virtual_flight_radar_bac.TimeStamp.{TimeStamp, newer}

pub newer_irrefl : (a : TimeStamp) → newer a a ≡ false
unfolding newer
newer_irrefl a = ground arith

pub newer_trans : (a b c : TimeStamp) → newer a b ≡ true → newer b c ≡ true → newer a c ≡ true
unfolding newer
newer_trans a b c p q = ground arith

-- What is not newer than a stamp is not newer than a stamp that is at least as new.
pub newer_weak : (a b c : TimeStamp) → newer a b ≡ false → newer b c ≡ false → newer a c ≡ false
unfolding newer
newer_weak a b c p q = ground arith
