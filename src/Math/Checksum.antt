-- ===== src/Math/Checksum.antt =====
-- What the checksum of a sentence depends on, and how large it gets.
use Prim.Native.Nat.{bit_xor}
use virtual_flight_radar_bac.Common.{
  ℕ, ◌<◌, ◌≡◌, refl, ◌≢◌, Bool, true, [], ◌∷◌, ◌++◌, arith, ltb, All, ltb→lt,
}
use virtual_flight_radar_bac.Common.Table.{checked, test_at}
use virtual_flight_radar_bac.Common.Text.{Str}
use virtual_flight_radar_bac.Math.{checksum_from, sign_extend}

abbrev stays_small : ℕ → ℕ → Bool
stays_small csum c = ltb (bit_xor csum c) 128

small_rows : checked (λ csum. checked (stays_small csum) 128) 128 ≡ true
unfolding checked
small_rows = refl

bit_xor-lt : (csum c : ℕ) → csum < 128 → c < 128 → bit_xor csum c < 128
bit_xor-lt csum c csum_small c_small =
    let row = test_at (λ m. checked (stays_small m) 128) 128 small_rows csum csum_small in
    ltb→lt _ _ (test_at (stays_small csum) 128 row c c_small)

abbrev pub IsAscii : Str → Type 0
IsAscii = All (λ c. c < 128)

abbrev pub Lacks : ℕ → Str → Type 0
Lacks c = All (λ d. d ≢ c)

pub checksum_from-lt : (s : Str) (csum : ℕ) → csum < 128 → IsAscii s → checksum_from csum s < 128
unfolding checksum_from
checksum_from-lt [] csum h a = h
checksum_from-lt (c ∷ s) csum h (p, ps) =
    ground (arith, checksum_from-lt s (bit_xor csum c), bit_xor-lt csum c, ps)

-- What stands behind the first star does not count.
pub checksum_from-append :
    (s t : Str) (csum : ℕ)
    → checksum_from csum (s ++ b'*' ∷ t) ≡ checksum_from csum (s ++ b'*' ∷ [])
unfolding checksum_from
checksum_from-append [] t csum = refl
checksum_from-append (c ∷ s) t csum =
    ground (arith, checksum_from-append s t (bit_xor csum (sign_extend c)))
