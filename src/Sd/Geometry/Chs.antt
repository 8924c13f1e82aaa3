-- ===== src/Sd/Geometry/Chs.antt =====
-- `conv_sectors_to_chs` makes up cylinders, heads and sectors for a capacity.
use a4091_software.Base.{ℕ, ◌+◌, ◌*◌, ◌^◌, ◌<◌, ◌≤◌, ◌≡◌, ◌⊎◌, arith}
use a4091_software.Sd.Geometry.{chs_loop, conv_sectors_to_chs}

-- The result for a capacity: heads are twice the sectors, no cylinder is cut short by more than the
-- rounding, and the loop stopped by its test.
pub record IsChs (total c h s : ℕ) : Type 0 where
  pub fits : c * (h * s) ≤ total
  pub wastes : total < (c + 1) * (h * s)
  pub heads : h ≡ 2 * s
  pub sectors : s ≤ 32
  pub stopped : (c < 10000) ⊎ (s ≡ 32)

-- For every capacity of 32 bits the loop ends by its own test, and c cylinders of h heads and s
-- sectors are at most the capacity and miss less than one more cylinder; h is twice s, s at most
-- 32, and c is below 10000 unless s is 32.
pub conv_sectors_to_chs-IsChs :
    (total : ℕ) → total < 2 ^ 32 → let (c, h, s) = conv_sectors_to_chs total in IsChs total c h s
unfolding conv_sectors_to_chs chs_loop
conv_sectors_to_chs-IsChs total b = ground arith
