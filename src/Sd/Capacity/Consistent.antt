-- ===== src/Sd/Capacity/Consistent.antt =====
-- `sd_blocksize` and the shift that it stores in the peripheral agree.
use a4091_software.Base.{
  ◌⊎◌, if◌then◌else◌, ℕ, ◌^◌, ◌<◌, ◌≤◌, ◌≡◌, true, false, Bool, Option, some, none, arith, ◌==◌,
  inl, inr, ap, ◌∙◌, refl,
}
use a4091_software.Base.Table.{every_below, every_below_lem}
use a4091_software.Periph.{Periph}
use a4091_software.Sd.BlockSize.{is_valid_blksize, calc_blkshift}
use a4091_software.Sd.BlockSize.PowerOfTwo.{is_valid_blksize_iff}
use a4091_software.Sd.Capacity.{
  Command, ModePages, valid_field, or_else, probe_blksize, sd_read_capacity, sd_blocksize,
}

-- No block size is known yet, or a valid one is.
abbrev pub IsShift : ℕ → Type 0
IsShift s = (s ≡ 0) ⊎ ((8 ≤ s) × (s ≤ 15))

some_is : Option ℕ → ℕ → Bool
some_is none k = false
some_is (some s) k = s == k

some_is→ : (o : Option ℕ) (k : ℕ) → some_is o k ≡ true → o ≡ some k
unfolding some_is
some_is→ none k h = cc
some_is→ (some s) k h = ground arith

shift_table : every_below 32 (λ k. some_is (calc_blkshift (2 ^ k)) k) ≡ true
unfolding every_below calc_blkshift some_is
shift_table = refl

calc_blkshift-pow : (k : ℕ) → k < 32 → calc_blkshift (2 ^ k) ≡ some k
calc_blkshift-pow k h = some_is→ _ k (every_below_lem 32 _ k shift_table h)

-- A valid size, or the default of 512.
probe_blksize_valid :
    (c : Command) (a : Bool) (m : ModePages) → is_valid_blksize (probe_blksize c a m) ≡ true
unfolding probe_blksize valid_field or_else is_valid_blksize
probe_blksize_valid c a m = ground arith

probe_blksize-lt : (c : Command) (a : Bool) (m : ModePages) → probe_blksize c a m < 2 ^ 32
unfolding probe_blksize valid_field or_else sd_read_capacity
probe_blksize-lt c a m = ground arith

probe_blksize-pow :
    (c : Command) (a : Bool) (m : ModePages)
    → (k : ℕ) × (8 ≤ k) × (k ≤ 15) × (probe_blksize c a m ≡ 2 ^ k)
probe_blksize-pow c a m =
    (is_valid_blksize_iff _ (probe_blksize-lt c a m)).0 (probe_blksize_valid c a m)

module _ (c : Command) (a : Bool) (m : ModePages) (p : Periph) where
  blocksize-unknown :
      (k : ℕ)
      → p.blkshift ≡ 0
      → probe_blksize c a m ≡ 2 ^ k
      → calc_blkshift (probe_blksize c a m) ≡ some k
      → sd_blocksize c a m p ≡ some (2 ^ k, record p { blkshift = k })
  unfolding sd_blocksize
  blocksize-unknown k z e f = ground arith

  blocksize-known :
      8 ≤ p.blkshift
      → sd_blocksize c a m p ≡ some (2 ^ p.blkshift, record p { blkshift = p.blkshift })
  unfolding sd_blocksize
  blocksize-known h = ground arith

-- Where the shift is unknown (0) or between 8 and 15 before, `sd_blocksize` ends whatever the device
-- answers: a known shift stays, an unknown one becomes one between 8 and 15, the result is 2 to that
-- shift, and nothing else of the peripheral changes.
pub sd_blocksize-consistent :
    (c : Command) (a : Bool) (m : ModePages) (p : Periph)
    → IsShift p.blkshift
    → (s : ℕ) × (sd_blocksize c a m p ≡ some (2 ^ s, record p { blkshift = s }))
      × (8 ≤ s)
      × (s ≤ 15)
      × (s ≡ (if p.blkshift == 0 then s else p.blkshift))
sd_blocksize-consistent c a m p (inl z) =
    let (k, lo, hi, e) = probe_blksize-pow c a m in
    let shift = ap calc_blkshift e ∙ calc_blkshift-pow k (omega arith) in
    (k, blocksize-unknown c a m p k z e shift, lo, hi, ground arith)
sd_blocksize-consistent c a m p (inr (lo, hi)) =
    (p.blkshift, blocksize-known c a m p lo, lo, hi, ground arith)
