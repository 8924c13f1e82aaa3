-- ===== src/Base/Bits.antt =====
-- Facts about `bit_and` and `bit_or` at variables, from the digit recursion that they stand for.
use Prim.Native.Nat.{
  ℕ, zero, suc, ◌+◌, ◌*◌, ◌/◌, ◌%◌, ◌^◌, ◌≤◌, ◌<◌, min, max, bit_and, bit_or, digits, bitwise,
  bit_and-bitwise, bit_or-bitwise,
}
use mathlib.Core.Path.{◌≡◌, refl, ap}
use native.Mathlib.Nat.{pow-suc}
use native.Mathlib.Omega.{arith}

-- The field x >> k, and the k low bits of x.
abbrev pub shr : ℕ → ℕ → ℕ
shr x k = x / 2 ^ k

abbrev pub low_bits : ℕ → ℕ → ℕ
low_bits x k = x % 2 ^ k

-- Strong induction, by a bound on the number.
module _ {ℓ} (P : ℕ → Type ℓ) (next : (x : ℕ) → ((less : ℕ) → less < x → P less) → P x) where
  all_under : (bound x : ℕ) → x < bound → P x
  all_under zero x small = absurd (omega arith)
  all_under (suc bound) x small = next x (λ less lt. all_under bound less (omega arith))

  pub strong : (x : ℕ) → P x
  strong x = all_under (suc x) x (omega arith)

-- `digits` counts its fuel down from the first number, so every fuel from there on gives the value.
module _ (end : ℕ → ℕ) (join : ℕ → ℕ → ℕ) where
  IsEnough : ℕ → Type 0
  IsEnough fuel = (x y : ℕ) → x ≤ fuel → digits end join fuel x y ≡ bitwise end join x y

  IsEnough-from : (fuel : ℕ) → ((less : ℕ) → less < fuel → IsEnough less) → IsEnough fuel
  unfolding IsEnough
  IsEnough-from zero before zero y bound = refl
  IsEnough-from zero before (suc x) y bound = absurd (omega arith)
  IsEnough-from (suc fuel) before zero y bound = refl
  IsEnough-from (suc fuel) before (suc x) y bound =
      let long = before fuel (omega arith) (suc x / 2) (y / 2) (omega arith) in
      let short = before x (omega arith) (suc x / 2) (y / 2) (omega arith) in
      omega (arith, long, short)

  -- The least digit of a combination, and the rest.
  first_digit :
      ((y : ℕ) → end y ≡ join 0 (y % 2) + 2 * end (y / 2))
      → (x y : ℕ)
      → bitwise end join x y ≡ join (x % 2) (y % 2) + 2 * bitwise end join (x / 2) (y / 2)
  unfolding IsEnough
  first_digit ended zero y = ended y
  first_digit ended (suc x) y =
      let rest = strong IsEnough IsEnough-from x (suc x / 2) (y / 2) (omega arith) in
      omega (arith, rest)

pub or_digit : (x y : ℕ) → bit_or x y ≡ max (x % 2) (y % 2) + 2 * bit_or (x / 2) (y / 2)
or_digit x y = simp bit_or-bitwise (first_digit (λ rest. rest) max (λ k. omega arith) x y)

pub and_digit : (x y : ℕ) → bit_and x y ≡ min (x % 2) (y % 2) + 2 * bit_and (x / 2) (y / 2)
and_digit x y = simp bit_and-bitwise (first_digit (λ rest. 0) min (λ k. omega arith) x y)

-- To prove a claim of every number from that of its half.
by_halves {ℓ} : (P : ℕ → Type ℓ) → P 0 → ((x : ℕ) → 0 < x → P (x / 2) → P x) → (x : ℕ) → P x
by_halves P base double = strong P next
  where
    next : (x : ℕ) → ((less : ℕ) → less < x → P less) → P x
    next zero before = base
    next (suc x) before = double (suc x) (omega arith) (before (suc x / 2) (omega arith))

or_nothing : (x : ℕ) → bit_or x 0 ≡ x
or_nothing = by_halves (λ x. bit_or x 0 ≡ x) refl λ x _ half. omega (arith, or_digit x 0)

pub bit_and_self : (x : ℕ) → bit_and x x ≡ x
bit_and_self = by_halves (λ x. bit_and x x ≡ x) refl λ x _ half. omega (arith, and_digit x x)

shift_one_more : (hi k : ℕ) → hi * 2 ^ suc k ≡ 2 * (hi * 2 ^ k)
shift_one_more hi k = omega (arith, ap (λ (power : ℕ). hi * power) (pow-suc 2 k))

-- A high and a low field that do not overlap: `|` is their sum.
pub bit_or_disjoint : (k hi lo : ℕ) → lo < 2 ^ k → bit_or (hi * 2 ^ k) lo ≡ hi * 2 ^ k + lo
bit_or_disjoint zero hi lo small = ground (arith, or_nothing hi)
bit_or_disjoint (suc k) hi lo small =
    let doubled = shift_one_more hi k in
    let below_half : lo / 2 < 2 ^ k = omega (arith, pow-suc 2 k) in
    let upper : hi * 2 ^ suc k / 2 ≡ hi * 2 ^ k = omega arith in
    let fields = bit_or_disjoint k hi (lo / 2) below_half in
    let digit = or_digit (hi * 2 ^ suc k) lo in
    omega (arith, ap (λ (high : ℕ). bit_or high (lo / 2)) upper)
