-- ===== src/Feed/Parser/Nmea.antt =====
-- The guard that src/feed/parser/{Gps,Atmosphere,Wind}Parser.cpp share: the two hexadecimal digits
-- behind the last star are the checksum of the sentence.
pub mod RoundTrip
pub mod Guarded
use virtual_flight_radar_bac.Common.{ℕ, suc, ◌≡◌, refl, Bool, true, false, Option, none, some}
use virtual_flight_radar_bac.Common.Int.{ℤ, eq_ℤ}
use virtual_flight_radar_bac.Common.Text.{Str, codes, rfind_char, substr, stoi}
use virtual_flight_radar_bac.Math.{checksum}

-- `sentence.rfind('*') + 1`: `npos` is the largest `size_t`, so that its successor is 0.
unfoldable pub after_star : Str → ℕ
after_star s = elim (rfind_char b'*' s) [ none ↦ 0 | some i ↦ suc i ]

-- `none` is the exception.
unfoldable pub checksum_matches : Str → Option Bool
checksum_matches s = elim (substr s (after_star s) 2) [
  | none ↦ none
  | some digits ↦ elim (stoi 16 digits) [ none ↦ none | some n ↦ some (eq_ℤ n (checksum s)) ]
]

matches_tests :
    (checksum_matches (codes "$WIMWV,242.8,R,6.9,N,A*20\r\n") ≡ some true)
    × (checksum_matches (codes "$WIMWV,242.8,R,6.9,N,A*21") ≡ some false)
    × (checksum_matches (codes "$WIMWV") ≡ none)
    × (checksum_matches (codes "") ≡ none)
unfolding checksum_matches after_star substr stoi rfind_char checksum
matches_tests = (refl, refl, refl, refl)
