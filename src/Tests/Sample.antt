-- ===== src/Tests/Sample.antt =====
-- Concrete data: whole numbers in place of doubles, two aircraft and a container.
use virtual_flight_radar_bac.Common.{ℕ, ◌+◌, ◌*◌, true, Option, none, some, [], length}
use virtual_flight_radar_bac.Common.Int.{ℤ, pos, neg, sub_ℕ, pos_part, neg_part, leb_ℤ, ltb_ℤ}
use virtual_flight_radar_bac.Common.Text.{Str, codes, stoi}
use virtual_flight_radar_bac.Common.Print.{show_int}
use virtual_flight_radar_bac.Double.{Double}
use virtual_flight_radar_bac.Object.Position.{Position}
use virtual_flight_radar_bac.Object.Aircraft.{Aircraft, flarm, transponder, TargetType}

abbrev add_ℤ : ℤ → ℤ → ℤ
add_ℤ a b = sub_ℕ (pos_part a + pos_part b) (neg_part a + neg_part b)

abbrev mul_ℤ : ℤ → ℤ → ℤ
mul_ℤ a b =
    sub_ℕ (pos_part a * pos_part b + neg_part a * neg_part b)
      (pos_part a * neg_part b + neg_part a * pos_part b)

abbrev read_ℤ : Option ℤ → ℕ → Option (ℤ × ℕ)
read_ℤ none n = none
read_ℤ (some z) n = some (z, n)

-- Functions without a whole result give one of their arguments.
instance abbrev pub whole : Double ℤ
whole = record {
  dec = λ m e. m;
  add = add_ℤ;
  sub = λ a b. add_ℤ a (neg b);
  mul = mul_ℤ;
  div = λ a b. a;
  opposite = neg;
  abs = λ a. pos (pos_part a + neg_part a);
  floor = λ a. a;
  sqrt = λ a. a;
  sin = λ a. a;
  cos = λ a. a;
  acos = λ a. a;
  atan2 = λ a b. a;
  pow = λ a b. a;
  fmod = λ a b. a;
  le = leb_ℤ;
  lt = ltb_ℤ;
  truncate = λ a. a;
  of_int = λ a. a;
  stod = λ s. read_ℤ (stoi 10 s) (length s);
  zero_padded = λ w p a. show_int w a;
  blank_padded = λ w p a. show_int w a;
}

abbrev pub place : Position ℤ
place = record { latitude = pos 49; longitude = pos 8; altitude = pos 100 }

-- A report of a priority at a time.
abbrev pub reported : Str → TargetType → ℕ → ℕ → Aircraft ℤ
reported id target priority time = record {
  base = record { last_priority = priority; update_age = 0; serialized = [] };
  id = id;
  id_type = 1;
  aircraft_type = 8;
  target_type = target;
  position = place;
  movement = record { gnd_speed = pos 30; heading = pos 90; climb_rate = pos 1 };
  time_stamp = record { value = pos time; day = 58000 };
  full_info = true;
}

abbrev pub glider : Aircraft ℤ
glider = reported (codes "DDA85C") flarm 1 1000

abbrev pub airliner : Aircraft ℤ
airliner = reported (codes "3C6586") transponder 0 2000
