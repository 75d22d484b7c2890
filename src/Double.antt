-- ===== src/Double.antt =====
-- What the program uses of `double` and of <cmath>: an interface, since antt has no floating point.
use virtual_flight_radar_bac.Common.{ℕ, Bool, Option}
use virtual_flight_radar_bac.Common.Int.{ℤ}
use virtual_flight_radar_bac.Common.Text.{Str}

pub record Double (W : Type 0) : Type 0 where
  -- `dec m e` is the literal m * 10^(-e).
  pub dec : ℤ → ℕ → W
  pub add : W → W → W
  pub sub : W → W → W
  pub mul : W → W → W
  pub div : W → W → W
  pub opposite : W → W
  pub abs : W → W
  pub floor : W → W
  pub sqrt : W → W
  pub sin : W → W
  pub cos : W → W
  pub acos : W → W
  pub atan2 : W → W → W
  pub pow : W → W → W
  pub fmod : W → W → W
  pub le : W → W → Bool
  pub lt : W → W → Bool
  -- `static_cast<std::int32_t>`.
  pub truncate : W → ℤ
  -- The conversion of an `int32_t`.
  pub of_int : ℤ → W
  -- `std::stod` with the number of bytes read; `none` is its exception.
  pub stod : Str → Option (W × ℕ)
  -- `%0w.plf` (padded with zeros) and `%w.plf` (with blanks) of `snprintf`.
  pub zero_padded : ℕ → ℕ → W → Str
  pub blank_padded : ℕ → ℕ → W → Str
