-- ===== src/Sd/BlockSize.antt =====
-- `is_valid_blksize`, `calc_blkshift` and `sd_blocksize` of sd.c.
pub mod PowerOfTwo
pub mod Shift
use a4091_software.Base.{
  ℕ, zero, suc, ◌+◌, ◌-◌, ◌/◌, ◌%◌, ◌^◌, Bool, not, ◌&&◌, Option, none, some, bit_and, ◌==◌,
  if◌then◌else◌,
}
use a4091_software.Periph.{Periph}

-- A uint32_t. The decrement wraps at 0.
unfoldable pub is_valid_blksize : ℕ → Bool
is_valid_blksize blksize =
    not (bit_and blksize 0xff00 == 0) && (bit_and blksize ((blksize + 2 ^ 32 - 1) % 2 ^ 32) == 0)

-- The loop `for (shift = 0; blksize != 0; shift++) blksize >>= 1`, on fuel.
shift_loop : ℕ → ℕ → ℕ → Option ℕ
shift_loop zero blksize shift = none
shift_loop (suc fuel) blksize shift =
    let rest = shift_loop fuel (blksize / 2) (shift + 1) in
    if blksize == 0 then some shift else rest

-- A uint32_t is 0 after 32 halvings. `shift - 1` is an unsigned subtraction.
unfoldable pub calc_blkshift : ℕ → Option ℕ
unfolding shift_loop
calc_blkshift blksize = elim (shift_loop 33 blksize 0) [
  | none ↦ none
  | some shift ↦ some ((shift + 2 ^ 32 - 1) % 2 ^ 32)
]
