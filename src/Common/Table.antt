-- ===== src/Common/Table.antt =====
-- A claim about finitely many numbers, by running a test on each of them.
use virtual_flight_radar_bac.Common.{
  ℕ, zero, suc, ◌<◌, ◌≡◌, Bool, true, false, arith, if◌then◌else◌,
}

module _ (test : ℕ → Bool) where
  unfoldable pub checked : ℕ → Bool
  checked zero = true
  checked (suc last) = let others = checked last in if test last then others else false

  pub test_at : (count : ℕ) → checked count ≡ true → (k : ℕ) → k < count → test k ≡ true
  unfolding checked
  test_at zero table k below = absurd (omega (arith, below))
  test_at (suc last) table k below = ground (arith, test_at last _ k)
