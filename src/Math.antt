-- ===== src/Math.antt =====
-- include/util/math.hpp.
pub mod Checksum
use Prim.Native.Nat.{bit_xor}
use virtual_flight_radar_bac.Common.{
  ℕ, ◌+◌, ◌-◌, ◌≡◌, refl, Bool, ◌||◌, List, [], ◌∷◌, ltb, ◌==◌, if◌then◌else◌,
}
use virtual_flight_radar_bac.Common.Int.{ℤ, pos, negsuc, to_int32}
use virtual_flight_radar_bac.Common.Text.{Str, codes}
use virtual_flight_radar_bac.Double.{Double}

-- `static_cast<std::int32_t>` of a `char`, as a 32-bit pattern: bytes from 128 on are negative.
abbrev pub sign_extend : ℕ → ℕ
sign_extend c = if ltb c 128 then c else c + 0xffffff00

-- The loop of `checksum` from the byte it stands at; the end of the list is `length`.
unfoldable pub checksum_from : ℕ → Str → ℕ
checksum_from csum [] = csum
checksum_from csum (c ∷ s) =
    let rest = checksum_from (bit_xor csum (sign_extend c)) s in
    if (c == b'*') || (c == 0) then csum else rest

-- The pattern of `checksum`: the first byte is left out.
unfoldable pub checksum_bits : Str → ℕ
unfolding checksum_from
checksum_bits [] = 0
checksum_bits (c ∷ s) = checksum_from 0 s

unfoldable pub checksum : Str → ℤ
unfolding checksum_bits
checksum s = to_int32 (checksum_bits s)

module _ {W : Type 0} ⦃d : Double W⦄ where
  -- `PI`.
  abbrev pi : W
  pi = d.acos (d.dec (negsuc 0) 0)

  unfoldable pub radian : W → W
  radian x = d.div (d.mul x pi) (d.dec (pos 180) 0)

  unfoldable pub degree : W → W
  degree x = d.div (d.mul x (d.dec (pos 180) 0)) pi

  -- `doubleToInt`: rounds half away from zero.
  unfoldable pub double_to_int : W → ℤ
  double_to_int x =
      if d.le (d.dec (pos 0) 0) x
      then d.truncate (d.add x (d.dec (pos 5) 1))
      else d.truncate (d.sub x (d.dec (pos 5) 1))

  -- `dmToDeg`: degrees and minutes, ddmm.mm, as degrees.
  unfoldable pub dm_to_deg : W → W
  dm_to_deg x =
      let abs_dm = d.abs (d.div x (d.dec (pos 100) 0)) in
      let deg = d.floor abs_dm in
      let minutes = d.div (d.mul (d.sub abs_dm deg) (d.dec (pos 100) 0)) (d.dec (pos 60) 0) in
      d.add deg minutes

  unfoldable pub icao_height : W → ℤ
  unfolding double_to_int
  icao_height p = double_to_int (
      d.div
        (d.mul (d.dec (pos 28815) 2)
          (d.sub (d.dec (pos 1) 0) (d.pow (d.div p (d.dec (pos 101325) 2)) (d.dec (pos 190295) 6))))
        (d.dec (pos 65) 4))

  -- FEET_2_M, KTS_2_MS, FPM_2_MS and MS_2_KMH.
  abbrev pub feet_2_m : W
  feet_2_m = d.dec (pos 3048) 4

  abbrev pub kts_2_ms : W
  kts_2_ms = d.dec (pos 514444) 6

  abbrev pub fpm_2_ms : W
  fpm_2_ms = d.dec (pos 508) 5

  abbrev pub ms_2_kmh : W
  ms_2_kmh = d.dec (pos 36) 1

checksum_tests :
    (checksum (codes "$abc*67") ≡ pos 96)
    × (checksum (codes "") ≡ pos 0)
    × (checksum (codes "*") ≡ pos 0)
    × (checksum (1 ∷ 200 ∷ []) ≡ negsuc 55)
unfolding checksum
checksum_tests = (refl, refl, refl, refl)
