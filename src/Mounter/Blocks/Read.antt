-- ===== src/Mounter/Blocks/Read.antt =====
-- What a block that `readblock` accepts has been checked for.
use native.Mathlib.Decide.{dec_lt}
use a4091_software.Base.{
  ℕ, zero, suc, ◌+◌, ◌*◌, ◌%◌, ◌^◌, ◌<◌, ◌≤◌, length, ◌≡◌, ◌≢◌, sym, ◌∙◌, Bool, true, false, Option,
  none, some, List, arith, ◌==◌, if◌then◌else◌, Bool-cases, Option-cases, inl, inr,
}
use a4091_software.Base.Int.{ℤ, pos, is_zero, is_zero→}
use a4091_software.Mounter.Blocks.{
  long_at, checksum, Drive, Outcome, done, failed, is_not_ready, attempts, any_id, judge, readblock,
}
use a4091_software.Mounter.Blocks.Sum.{
  sum_longs, checksum-sum_longs, checksum_endless, checksum_over,
}

attempts-some :
    (left attempt : ℕ) (io : ℕ → ℤ × List ℕ) {buf : List ℕ}
    → attempts left attempt io ≡ some buf
    → (k : ℕ) × (k < attempt + left) × ((io k).0 ≡ pos 0) × ((io k).1 ≡ buf)
unfolding attempts
attempts-some zero attempt io h = absurd (ground arith)
attempts-some (suc left) attempt io {buf} h = elim (Bool-cases (is_zero (io attempt).0)) [
  | inl ok ↦ (attempt, omega arith, is_zero→ _ ok, ground arith)
  | inr err ↦ elim (Bool-cases (is_not_ready (io attempt).0)) [
    | inl again ↦
        let (k, lt, e, b) =
          attempts-some left (attempt + 1) io {buf = buf} (rw (err, again) at h) in
        (k, omega arith, e, b)
    | inr give_up ↦ absurd (ground arith)
  ]
]

judge-done :
    (id : ℕ) (bytes : List ℕ) (sum : Option Bool) {buf : List ℕ}
    → id ≢ any_id
    → judge id bytes sum ≡ done buf
    → (bytes ≡ buf) × (long_at bytes 0 ≡ id) × (sum ≡ some true)
unfolding judge
judge-done id bytes none ne h = absurd (ground arith)
judge-done id bytes (some true) ne h = ground arith
judge-done id bytes (some false) ne h = absurd (ground arith)

equal : (n : ℕ) → some (n == 0) ≡ some true → n ≡ 0
equal n h = ground arith

refuted : (o : Option Bool) → o ≡ some false → o ≢ some true
refuted o e h = cc

endless : (o : Option Bool) → o ≡ none → o ≢ some true
endless o e h = cc

-- The checksum within the fuel of `readblock`.
checksum-true :
    (buf : List ℕ)
    → checksum 16385 buf ≡ some true
    → (long_at buf 4 < 16384) × (sum_longs (long_at buf 4) buf 0 % 2 ^ 32 ≡ 0)
checksum-true buf h = elim (dec_lt (long_at buf 4) 16384) [
  | yes small ↦ (small, equal _ (sym (checksum-sum_longs 16385 buf small (omega arith)) ∙ h))
  | no large ↦ elim (dec_lt 65535 (long_at buf 4)) [
    | yes over ↦ absurd (refuted (checksum 16385 buf) (checksum_over 16385 buf over) h)
    | no fits ↦
        absurd
          (endless (checksum 16385 buf) (checksum_endless 16385 buf (omega arith) (omega arith)) h)
  ]
]

-- A block that `readblock` accepts, asked for an id, of at least two longs and with all the longs that it
-- counts, is what the drive gave without an error at one of the 3 attempts, 15 with slow spinup, for the
-- block's offset modulo 2 ^ 32; it starts with the id, and the longs that it counts, fewer than 16384, add
-- up to 0 modulo 2 ^ 32.
pub readblock-done :
    (drive : Drive) (slow_spinup : Bool) (blocksize block id : ℕ) {buf : List ℕ}
    → id ≢ any_id
    → 8 ≤ length buf
    → 4 * long_at buf 4 ≤ length buf
    → readblock drive slow_spinup blocksize block id ≡ done buf
    → ((k : ℕ) × (k < (if slow_spinup then 15 else 3))
        × (drive (block * 2 ^ 9 % 2 ^ 32) blocksize k ≡ (pos 0, buf)))
      × (long_at buf 0 ≡ id)
      × (long_at buf 4 < 16384)
      × (sum_longs (long_at buf 4) buf 0 % 2 ^ 32 ≡ 0)
unfolding readblock
readblock-done drive slow_spinup blocksize block id {buf} ne long_enough counted h =
    let io = drive (block * 2 ^ 9 % 2 ^ 32) blocksize in
    elim (Option-cases (attempts (if slow_spinup then 15 else 3) 0 io)) [
      | inl e ↦ absurd (lost (rw (e, readblock) at h))
      | inr (bytes, e) ↦
          let (k, lt, ok, same) =
            attempts-some (if slow_spinup then 15 else 3) 0 io {buf = bytes} e in
          let (is, first, sum) =
            judge-done id bytes (checksum 16385 bytes) {buf = buf} ne (rw (e, readblock) at h) in
          let (small, zero_sum) = checksum-true bytes sum in
          rw (← is) ((k, omega arith, ground arith), first, small, zero_sum)
    ]
  where
    lost : ◌≡◌ {A = Outcome (List ℕ)} failed (done buf) → ⊥
    lost e = cc
