-- ===== src/Mounter/Blocks.antt =====
-- `checksum` and `readblock` of mounter.c. A drive is a function from a byte offset, a length and
-- the number of the attempt to the error of DoIO and the bytes that it read.
pub mod Sum
pub mod Read
use a4091_software.Base.{
  ◌≡◌, ◌⊎◌, refl, inl, inr, ℕ, zero, suc, ◌+◌, ◌*◌, ◌%◌, ◌^◌, Bool, true, false, not, Option, none,
  some, List, ◌==◌, ltb, if◌then◌else◌,
}
use a4091_software.Base.Int.{ℤ, pos, is_zero}
use a4091_software.Scsi.{btol4}

-- The big-endian long at an offset. A byte behind the end of the list is 0; the program reads the memory
-- that is there, so that a run is that of the code where the list has all the longs that it counts.
unfoldable pub long_at : List ℕ → ℕ → ℕ
long_at buf i = btol4 buf i

-- The loop over the longs. `i` is 16 bits wide, the bound is an int.
checksum_loop : ℕ → List ℕ → ℕ → ℕ → ℕ → Option ℕ
checksum_loop zero buf end i chk = none
checksum_loop (suc fuel) buf end i chk =
    let rest = checksum_loop fuel buf end ((i + 4) % 2 ^ 16) ((chk + long_at buf i) % 2 ^ 32) in
    if ltb i end then rest else some chk

-- `none` where the loop has not ended within the fuel.
unfoldable pub checksum : ℕ → List ℕ → Option Bool
unfolding checksum_loop
checksum fuel buf =
    let num_longs = long_at buf 4 in
    if ltb 65535 num_longs then some false else (elim (checksum_loop fuel buf (num_longs * 4) 0 0) [
      | none ↦ none
      | some chk ↦ some (chk == 0)
    ])

abbrev pub Drive : Type 0
Drive = (offset length attempt : ℕ) → ℤ × List ℕ

-- What a read gives: the bytes, FALSE, or nothing, as it never returns.
pub data Outcome {ℓ} (A : Type ℓ) : Type ℓ where
  done : A → Outcome A
  failed hung : Outcome A

pub Outcome-cases {ℓ} :
    {A : Type ℓ} (o : Outcome A) → ((a : A) × (o ≡ done a)) ⊎ ((o ≡ failed) ⊎ (o ≡ hung))
Outcome-cases (done a) = inl (a, refl)
Outcome-cases failed = inr (inl refl)
Outcome-cases hung = inr (inr refl)

-- ERROR_NOT_READY of device.h.
abbrev error_not_ready : ℕ
error_not_ready = 53

abbrev is_not_ready : ℤ → Bool
is_not_ready (pos n) = n == error_not_ready
is_not_ready _ = false

-- The attempts that are left: an error other than ERROR_NOT_READY ends them at once.
attempts : (left attempt : ℕ) → (ℕ → ℤ × List ℕ) → Option (List ℕ)
attempts zero attempt io = none
attempts (suc left) attempt io =
    let rest = attempts left (attempt + 1) io in
    let (err, bytes) = io attempt in
    if is_zero err then some bytes else if is_not_ready err then rest else none

abbrev pub any_id : ℕ
any_id = 0xffffffff

judge : ℕ → List ℕ → Option Bool → Outcome (List ℕ)
judge id buf sum =
    if id == any_id
    then done buf
    else if not (long_at buf 0 == id)
    then failed
    else (elim sum [ none ↦ hung | some good ↦ if good then done buf else failed ])

-- The checksum of at most 65535 longs has ended within 16384 rounds, or never does.
unfoldable pub readblock :
    Drive → (slow_spinup : Bool) → (blocksize block id : ℕ) → Outcome (List ℕ)
unfolding attempts judge checksum
readblock drive slow_spinup blocksize block id =
    let io = drive (block * 2 ^ 9 % 2 ^ 32) blocksize in
    elim (attempts (if slow_spinup then 15 else 3) 0 io) [
      | none ↦ failed
      | some buf ↦ judge id buf (checksum 16385 buf)
    ]
