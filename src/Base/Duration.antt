-- ===== src/Base/Duration.antt =====
-- The durations of builds and tests, FloatField columns of backend/kernelCI_app/models.py, and `int` of
-- them.
use Prim.Native.Nat.{suc, ◌/◌, ◌^◌}
use kernelci_dashboard.Base.{ℕ}
use kernelci_dashboard.Base.Int.{ℤ, pos, negsuc, sub_ℕ}

-- A finite float: `numerator / 2 ^ exponent`.
pub record Duration : Type 0 where
  pub numerator : ℤ
  pub exponent : ℕ

abbrev pub truncate : ℤ → ℕ → ℤ
truncate (pos n) d = pos (n / d)
truncate (negsuc n) d = sub_ℕ 0 (suc n / d)

-- `int(duration)`: towards zero
unfoldable pub int_of : Duration → ℤ
int_of d = truncate d.numerator (2 ^ d.exponent)
