-- ===== src/Sd/BlockSize/Shift.antt =====
-- `calc_blkshift` ends within its 32 halvings, and is the binary logarithm rounded down.
use native.Mathlib.Nat.{pow-suc}
use native.Mathlib.Numerals.{add-one}
use a4091_software.Base.{
  ℕ, zero, suc, ◌+◌, ◌*◌, ◌/◌, ◌^◌, ◌<◌, ◌≤◌, ◌≡◌, ◌≢◌, inl, inr, refl, some, arith, ap, ◌∙◌, ◌==◌,
  Bool-cases,
}
use a4091_software.Sd.BlockSize.{shift_loop, calc_blkshift}

-- The number d of binary digits of n.
record HasWidth (n d : ℕ) : Type 0 where
  above : n < 2 ^ d
  below : n ≢ 0 → 2 ^ d ≤ 2 * n
  none : n ≡ 0 → d ≡ 0

HasWidth-suc : (n d : ℕ) → n ≢ 0 → HasWidth (n / 2) d → HasWidth n (suc d)
HasWidth-suc n d z w = record {
  above = omega (arith, w, pow-suc 2 d);
  below = λ _. grind (arith, w, pow-suc 2 d);
  none = λ e. absurd (z e);
}

shift_loop-width :
    (f n acc : ℕ)
    → n < 2 ^ f
    → (d : ℕ) × (shift_loop (suc f) n acc ≡ some (acc + d)) × (d ≤ f) × HasWidth n d
unfolding shift_loop
shift_loop-width zero n acc h = (
  0,
  ground arith,
  omega arith,
  record { above = h; below = λ z. absurd (omega arith); none = λ _. refl },
)
shift_loop-width (suc f) n acc h = elim (Bool-cases (n == 0)) [
  | inl e ↦ (
    0,
    rw e (ground arith),
    omega arith,
    record { above = ground arith; below = λ z. absurd (ground arith); none = λ _. refl },
  )
  | inr e ↦
      let (d, eq, le, w) = shift_loop-width f (n / 2) (acc + 1) (omega (arith, pow-suc 2 f)) in
      (suc d, rw (e, eq) (ground arith), omega arith, HasWidth-suc n d (ground arith) w)
]

log2_of_width :
    (b d : ℕ)
    → b ≢ 0
    → d ≤ 32
    → HasWidth b d
    → shift_loop 33 b 0 ≡ some d
    → (s : ℕ) × (calc_blkshift b ≡ some s) × (2 ^ s ≤ b) × (b < 2 ^ (s + 1))
unfolding calc_blkshift
log2_of_width b zero z le w e = absurd (z (omega (arith, w)))
log2_of_width b (suc s) z le w e = (
  s,
  rw (e, calc_blkshift) (ground arith),
  omega (arith, w, pow-suc 2 s),
  rw add-one (omega (arith, w)),
)

-- For a 32-bit number other than 0 the loop ends, and its result s is the binary logarithm
-- rounded down: 2 ^ s ≤ b < 2 ^ (s + 1).
pub calc_blkshift-log2 :
    (b : ℕ)
    → b ≢ 0
    → b < 2 ^ 32
    → (s : ℕ) × (calc_blkshift b ≡ some s) × (2 ^ s ≤ b) × (b < 2 ^ (s + 1))
calc_blkshift-log2 b z h =
    let (d, e, le, w) = shift_loop-width 32 b 0 h in
    log2_of_width b d z le w (e ∙ ap some (omega arith))
