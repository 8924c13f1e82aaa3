-- ===== src/Mounter/Blocks/Sum.antt =====
-- When `checksum` accepts a block, and when it does not return.
use a4091_software.Base.{
  ℕ, zero, suc, ◌+◌, ◌*◌, ◌%◌, ◌^◌, ◌≤◌, ◌<◌, ◌≡◌, refl, true, false, none, some, List, arith, ◌==◌,
  ltb,
}
use a4091_software.Mounter.Blocks.{long_at, checksum_loop, checksum}

-- The sum of n longs from an offset on.
pub sum_longs : ℕ → List ℕ → ℕ → ℕ
sum_longs zero buf i = 0
sum_longs (suc n) buf i = long_at buf i + sum_longs n buf (i + 4)

loop-sum :
    (n fuel : ℕ) (buf : List ℕ) (end i chk : ℕ)
    → n < fuel
    → i + 4 * n ≡ end
    → end < 2 ^ 16
    → chk < 2 ^ 32
    → checksum_loop fuel buf end i chk ≡ some ((chk + sum_longs n buf i) % 2 ^ 32)
unfolding checksum_loop sum_longs
loop-sum n zero buf end i chk f e b c = absurd (omega arith)
loop-sum zero (suc fuel) buf end i chk f e b c =
    let over : ltb i end ≡ false = ground arith in
    let same : (chk + 0) % 2 ^ 32 ≡ chk = omega arith in rw (over, same) refl
loop-sum (suc n) (suc fuel) buf end i chk f e b c =
    let under : ltb i end ≡ true = ground arith in
    let next : (i + 4) % 2 ^ 16 ≡ i + 4 = omega arith in
    let ih =
      loop-sum n fuel buf end (i + 4) ((chk + long_at buf i) % 2 ^ 32) (omega arith) (omega arith) b
        (omega arith) in
    let total : ((chk + long_at buf i) % 2 ^ 32 + sum_longs n buf (i + 4)) % 2 ^ 32
        ≡ (chk + (long_at buf i + sum_longs n buf (i + 4))) % 2 ^ 32 =
      omega arith in
    rw (under, next, ih, total) refl

loop-none :
    (fuel : ℕ) (buf : List ℕ) (end i chk : ℕ)
    → 2 ^ 16 ≤ end
    → i < 2 ^ 16
    → checksum_loop fuel buf end i chk ≡ none
unfolding checksum_loop
loop-none zero buf end i chk b h = refl
loop-none (suc fuel) buf end i chk b h =
    let under : ltb i end ≡ true = ground arith in
    let ih =
      loop-none fuel buf end ((i + 4) % 2 ^ 16) ((chk + long_at buf i) % 2 ^ 32) b (omega arith) in
    rw (under, ih) refl

-- A block whose second long says that fewer than 16384 longs are summed is judged within that many
-- rounds and one, and accepted exactly if these longs add up to 0 modulo 2 ^ 32.
pub checksum-sum_longs :
    (fuel : ℕ) (buf : List ℕ)
    → long_at buf 4 < 16384
    → long_at buf 4 < fuel
    → checksum fuel buf ≡ some (sum_longs (long_at buf 4) buf 0 % 2 ^ 32 == 0)
unfolding checksum
checksum-sum_longs fuel buf small f =
    let valid : ltb 65535 (long_at buf 4) ≡ false = ground arith in
    let sum =
      loop-sum (long_at buf 4) fuel buf (long_at buf 4 * 4) 0 0 f (omega arith) (omega arith)
        (omega arith) in
    let start : 0 + sum_longs (long_at buf 4) buf 0 ≡ sum_longs (long_at buf 4) buf 0 =
      omega arith in
    rw (valid, sum, start) refl

-- For a block whose second long is from 16384 to 65535 the loop does not end, however many rounds
-- it is given: its 16-bit counter never reaches the bound.
pub checksum_endless :
    (fuel : ℕ) (buf : List ℕ)
    → 16384 ≤ long_at buf 4
    → long_at buf 4 ≤ 65535
    → checksum fuel buf ≡ none
unfolding checksum
checksum_endless fuel buf low high =
    let valid : ltb 65535 (long_at buf 4) ≡ false = ground arith in
    let endless = loop-none fuel buf (long_at buf 4 * 4) 0 0 (omega arith) (omega arith) in
    rw (valid, endless) refl

-- More than 65535 longs are refused at once.
pub checksum_over :
    (fuel : ℕ) (buf : List ℕ) → 65535 < long_at buf 4 → checksum fuel buf ≡ some false
unfolding checksum
checksum_over fuel buf over =
    let refused : ltb 65535 (long_at buf 4) ≡ true = ground arith in rw refused refl
