-- ===== src/Siop/Dma/Identity.antt =====
-- The list for a machine without address translation.
use a4091_software.Base.{
  ℕ, zero, suc, ◌+◌, ◌-◌, ◌%◌, ◌^◌, ◌<◌, ◌≡◌, refl, ap, ◌∙◌, true, false, ◌&&◌, ◌||◌, [], ◌∷◌, ◌==◌,
  leb, arith, length, Bool-cases, inl, inr,
}
use a4091_software.Siop.Dma.{PreDma, built, extend_last, wanted_count, join, dma_loop, dma_list}
use a4091_software.Siop.Dma.Cover.{wanted_count_pos}

-- Memory is where its address says, and contiguous.
abbrev pub identity : PreDma
identity continued addr length = (addr, length)

loop_one :
    (fuel dmamaxio buf done left : ℕ)
    → 1 < dmamaxio
    → buf + done + left < 2 ^ 32
    → left < fuel
    → dma_loop fuel identity dmamaxio
        (buf + done)
        left
        (buf + done)
        (record { databuf = buf; datalen = done } ∷ [])
      ≡ built (record { databuf = buf; datalen = done + left } ∷ [])
unfolding dma_loop join extend_last
loop_one zero dmamaxio buf done left m h f = absurd (omega arith)
loop_one (suc fuel) dmamaxio buf done left m h f = elim (Bool-cases (left == 0)) [
  | inl last ↦ let e : done + left ≡ done = ground arith in rw (last, e) refl
  | inr going ↦
      let some_left : 0 < left = ground arith in
      let t = wanted_count (buf + done) left in
      let (pos, few) = wanted_count_pos (buf + done) left some_left in
      let room : (leb dmamaxio 1 || (buf + done == buf + done && false)) ≡ false = ground arith in
      let same : (buf + done == buf + done) ≡ true = ground arith in
      let next : (buf + done + t) % 2 ^ 32 ≡ buf + (done + t) = omega (arith, h, few) in
      let all : done + t + (left - t) ≡ done + left = omega (arith, few) in
      rw (going, room, same, next)
        (loop_one fuel dmamaxio buf (done + t) (left - t) m (omega (arith, h, few))
            (omega (arith, f, pos, few))
          ∙ ap (λ (n : ℕ). built (record { databuf = buf; datalen = n } ∷ [])) all)
]

first_round :
    (fuel dmamaxio buf len : ℕ)
    → 1 < dmamaxio
    → 0 < buf
    → 0 < len
    → dma_loop (suc fuel) identity dmamaxio buf len 0 []
      ≡ dma_loop fuel identity dmamaxio
          ((buf + wanted_count buf len) % 2 ^ 32)
          (len - wanted_count buf len)
          ((buf + wanted_count buf len) % 2 ^ 32)
          (record { databuf = buf; datalen = wanted_count buf len } ∷ [])
unfolding dma_loop join
first_round fuel dmamaxio buf len m b l =
    let going : (len == 0) ≡ false = ground arith in
    let room : leb dmamaxio 0 ≡ false = ground arith in
    let other : (buf == 0) ≡ false = ground arith in rw (going, room, other) refl

-- Where addresses are not translated, the list has one block, the buffer, whatever its alignment and its
-- length: the blocks that the loop makes to align the transfer, and those of AMIGA_MAX_TRANSFER, are
-- joined again.
pub dma_list-identity :
    (dmamaxio buf len : ℕ)
    → 1 < dmamaxio
    → 0 < buf
    → 0 < len
    → buf + len < 2 ^ 32
    → dma_list identity dmamaxio buf len ≡ built (record { databuf = buf; datalen = len } ∷ [])
unfolding dma_list
dma_list-identity dmamaxio buf len m b l h =
    let t = wanted_count buf len in
    let (pos, few) = wanted_count_pos buf len l in
    let next : (buf + t) % 2 ^ 32 ≡ buf + t = omega (arith, h, few) in
    let all : t + (len - t) ≡ len = omega (arith, few) in
    let fuel : len + 1 ≡ suc len = omega arith in
    rw (fuel, first_round len dmamaxio buf len m b l, next)
      (loop_one len dmamaxio buf t (len - t) m (omega (arith, h, few)) (omega (arith, pos, few, l))
        ∙ ap (λ (k : ℕ). built (record { databuf = buf; datalen = k } ∷ [])) all)
