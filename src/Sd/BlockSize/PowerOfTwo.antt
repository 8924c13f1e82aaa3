-- ===== src/Sd/BlockSize/PowerOfTwo.antt =====
-- What `is_valid_blksize` accepts: its comment says, the powers of two from 256 to 32768.
use native.Mathlib.Nat.{pow-suc, pow-le-pow_right}
use native.Mathlib.Decide.{dec_lt}
use a4091_software.Base.{
  ℕ, zero, suc, ◌+◌, ◌-◌, ◌/◌, ◌%◌, ◌^◌, ◌<◌, ◌≤◌, ◌≡◌, ◌≢◌, ◌↔◌, ◌⊎◌, inl, inr, refl, ap, true,
  arith, bit_and, leb, ◌&&◌, not, if◌then◌else◌,
}
use a4091_software.Base.Bits.{strong, and_digit, bit_and_self}
use a4091_software.Base.Table.{every_below, every_below_lem}
use a4091_software.Sd.BlockSize.{is_valid_blksize}

half :
    (b : ℕ)
    → b ≢ 0
    → bit_and b (b - 1) ≡ 0
    → b % 2 ≡ 0
    → (b / 2 ≢ 0) × (bit_and (b / 2) (b / 2 - 1) ≡ 0)
half b z h e =
    let q : (b - 1) / 2 ≡ b / 2 - 1 = omega arith in
    (omega arith, omega (arith, and_digit b (b - 1), ap (λ (t : ℕ). bit_and (b / 2) t) q))

odd : (b : ℕ) → bit_and b (b - 1) ≡ 0 → b % 2 ≡ 1 → b ≡ 1
odd b h e =
    let q : (b - 1) / 2 ≡ b / 2 = omega arith in
    omega (arith, and_digit b (b - 1), bit_and_self (b / 2), ap (λ (t : ℕ). bit_and (b / 2) t) q)

double : (b : ℕ) → b % 2 ≡ 0 → (k : ℕ) × (b / 2 ≡ 2 ^ k) → (k : ℕ) × (b ≡ 2 ^ k)
double b e (k, p) = (suc k, omega (arith, pow-suc 2 k))

-- `b & (b - 1)` clears the lowest set bit, so it is 0 at the powers of two only.
IsMaskedPower : ℕ → Type 0
IsMaskedPower b = b ≢ 0 → bit_and b (b - 1) ≡ 0 → (k : ℕ) × (b ≡ 2 ^ k)

power_step : (b : ℕ) → ((m : ℕ) → m < b → IsMaskedPower m) → IsMaskedPower b
unfolding IsMaskedPower
power_step b ih z h =
    let parity : (b % 2 ≡ 0) ⊎ (b % 2 ≡ 1) = omega arith in
    elim parity [
      | inl e ↦ double b e (ih (b / 2) (omega arith) (half b z h e).0 (half b z h e).1)
      | inr e ↦ (0, odd b h e)
    ]

power_of_mask : (b : ℕ) → b ≢ 0 → bit_and b (b - 1) ≡ 0 → (k : ℕ) × (b ≡ 2 ^ k)
unfolding IsMaskedPower
power_of_mask = strong IsMaskedPower power_step

exponent_table :
    every_below 32
      (λ k. if is_valid_blksize (2 ^ k) then leb 8 k && leb k 15 else not (leb 8 k && leb k 15))
    ≡ true
unfolding every_below is_valid_blksize
exponent_table = refl

valid-pow : (k : ℕ) → k < 32 → (is_valid_blksize (2 ^ k) ≡ true) ↔ ((8 ≤ k) × (k ≤ 15))
valid-pow k h = ground (arith, every_below_lem 32 _ k exponent_table h)

-- `2 ^ k` leaves 32 bits at k = 32.
exponent-lt : (k : ℕ) → 2 ^ k < 2 ^ 32 → k < 32
exponent-lt k h = elim (dec_lt k 32) [
  | yes l ↦ l
  | no g ↦ absurd (omega (arith, pow-le-pow_right {n = 2} (omega arith) (not-lt k 32 g)))
]
  where
    not-lt : (a b : ℕ) → ¬ (a < b) → b ≤ a
    not-lt a b g = omega arith

-- What the two masks of the test say.
masks : (b : ℕ) → b < 2 ^ 32 → is_valid_blksize b ≡ true → (b ≢ 0) × (bit_and b (b - 1) ≡ 0)
unfolding is_valid_blksize
masks zero h v = cc
masks (suc b) h v =
    let pred32 : (suc b + 2 ^ 32 - 1) % 2 ^ 32 ≡ suc b - 1 = omega arith in
    (omega arith, rw (← pred32) (ground arith))

in_range :
    (b : ℕ)
    → b < 2 ^ 32
    → is_valid_blksize b ≡ true
    → (k : ℕ) × (b ≡ 2 ^ k)
    → (k : ℕ) × (8 ≤ k) × (k ≤ 15) × (b ≡ 2 ^ k)
in_range b h v (k, e) =
    let range = (valid-pow k (exponent-lt k (rw e at h))).0 (rw e at v) in (k, range.0, range.1, e)

-- A 32-bit block size is accepted exactly when it is a power of two from 2 ^ 8 to 2 ^ 15.
pub is_valid_blksize_iff :
    (b : ℕ)
    → b < 2 ^ 32
    → (is_valid_blksize b ≡ true) ↔ ((k : ℕ) × (8 ≤ k) × (k ≤ 15) × (b ≡ 2 ^ k))
is_valid_blksize_iff b h = (
  λ v. in_range b h v (power_of_mask b (masks b h v).0 (masks b h v).1),
  λ (k, lo, hi, e). rw e ((valid-pow k (omega arith)).1 (lo, hi)),
)
