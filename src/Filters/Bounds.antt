-- ===== src/Filters/Bounds.antt =====
-- What a bound on a duration asks of the float, whose fraction the predicates of filters.py cut off.
use native.Mathlib.Nat.{div-lt_iff_lt-mul, le-div_iff_mul-le}
use kernelci_dashboard.Base.{
  ◌≡◌, ◌↔◌, ℕ, zero, suc, ◌*◌, ◌^◌, ◌≤◌, ◌<◌, false, Option, none, some, arith,
}
use kernelci_dashboard.Base.Duration.{Duration, truncate, int_of}
use kernelci_dashboard.Base.Int.{ℤ, pos, negsuc, pos_part, neg_part, ltb_ℤ}
use kernelci_dashboard.Filters.Rows.{is_duration_filtered_out, int_or_zero}

-- The numerator over a denominator is less than `m + 1`, and is at most `m` where `m` is negative.
abbrev pub UpTo : ℤ → ℤ → ℕ → Type 0
UpTo (pos m) n denominator = pos_part n < suc m * denominator
UpTo (negsuc m) n denominator = suc m * denominator ≤ neg_part n

-- It is at least `m`, or more than `m - 1` where `m` is not positive.
abbrev pub From : ℤ → ℤ → ℕ → Type 0
From (pos m) n denominator = (m * denominator ≤ pos_part n) × (neg_part n < denominator)
From (negsuc m) n denominator = neg_part n < suc (suc m) * denominator

-- A bound asks for a duration that meets it.
abbrev pub AtMost : Option ℤ → Option Duration → Type 0
AtMost none duration = Unit
AtMost (some m) none = ⊥
AtMost (some m) (some d) = UpTo m d.numerator (2 ^ d.exponent)

abbrev pub AtLeast : Option ℤ → Option Duration → Type 0
AtLeast none duration = Unit
AtLeast (some m) none = ⊥
AtLeast (some m) (some d) = From m d.numerator (2 ^ d.exponent)

UpTo_lem : (m n : ℤ) (d : ℕ) → 0 < d → (ltb_ℤ m (truncate n d) ≡ false) ↔ UpTo m n d
UpTo_lem (pos m) (pos n) d h = ground (arith, div-lt_iff_lt-mul {x = n} {y = suc m} h)
UpTo_lem (pos m) (negsuc n) d h =
    let some_room : 0 < suc m * d = ground (arith, h) in ground (arith, some_room)
UpTo_lem (negsuc m) (pos n) d h =
    let some_room : 0 < suc m * d = ground (arith, h) in ground (arith, some_room)
UpTo_lem (negsuc m) (negsuc n) d h = ground (arith, le-div_iff_mul-le {x = suc m} {y = suc n} h)

From_lem : (m n : ℤ) (d : ℕ) → 0 < d → (ltb_ℤ (truncate n d) m ≡ false) ↔ From m n d
From_lem (pos m) (pos n) d h = ground (arith, le-div_iff_mul-le {x = m} {y = n} h)
From_lem (pos zero) (negsuc n) d h = ground (arith, div-lt_iff_lt-mul {x = suc n} {y = 1} h)
From_lem (pos (suc m)) (negsuc n) d h =
    let some_room : 0 < suc m * d = ground (arith, h) in ground (arith, some_room)
From_lem (negsuc m) (pos n) d h =
    let some_room : 0 < suc (suc m) * d = ground (arith, h) in ground (arith, some_room)
From_lem (negsuc m) (negsuc n) d h =
    ground (arith, div-lt_iff_lt-mul {x = suc n} {y = suc (suc m)} h)

two_pow : (e : ℕ) → 0 < 2 ^ e
two_pow zero = omega arith
two_pow (suc e) = ground (arith, two_pow e)

pub duration_lem :
    (hi lo : Option ℤ) (d : Option Duration)
    → (is_duration_filtered_out hi lo d ≡ false) ↔ (AtMost hi d × AtLeast lo d)
unfolding is_duration_filtered_out int_or_zero int_of
duration_lem none none none = ground arith
duration_lem none none (some d) = ground arith
duration_lem none (some m) none = ground arith
duration_lem none (some m) (some d) =
    ground (arith, From_lem m d.numerator (2 ^ d.exponent) (two_pow d.exponent))
duration_lem (some m) none none = ground arith
duration_lem (some m) none (some d) =
    ground (arith, UpTo_lem m d.numerator (2 ^ d.exponent) (two_pow d.exponent))
duration_lem (some m) (some n) none = ground arith
duration_lem (some m) (some n) (some d) = ground (
  arith,
  UpTo_lem m d.numerator (2 ^ d.exponent) (two_pow d.exponent),
  From_lem n d.numerator (2 ^ d.exponent) (two_pow d.exponent),
)
