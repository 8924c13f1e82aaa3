-- ===== src/Siop/Dma/Cover.antt =====
-- The loop of `siop_start` covers the buffer.
use mathlib.Core.Path.{subst}
use a4091_software.Base.{
  ℕ, zero, suc, ◌+◌, ◌-◌, ◌%◌, ◌^◌, ◌≤◌, ◌<◌, ◌≡◌, ◌⊎◌, refl, sym, ap, ◌∙◌, Bool, true, false, not,
  ◌&&◌, ◌||◌, List, [], ◌∷◌, ◌++◌, ◌==◌, leb, arith, length, Bool-cases, inl, inr,
}
use a4091_software.Siop.Dma.{
  Block, PreDma, Built, built, overrun, extend_last, wanted_count, is_empty, join, dma_loop,
  dma_list,
}
use a4091_software.Siop.Dma.Image.{
  image, bytes, AllFilled, Maps, Ends, image-append, image-same, append_assoc, append_nil,
  bytes-append, bytes-extend_last, Ends-extend_last, Ends-append, AllFilled-append,
  AllFilled-extend_last,
}

pub wanted_count_pos :
    (addr count : ℕ) → 0 < count → (0 < wanted_count addr count) × (wanted_count addr count ≤ count)
unfolding wanted_count
wanted_count_pos addr count h = (ground arith, ground arith)

-- A list that holds some bytes so far, and its end.
abbrev Holds : List Block → ℕ → List ℕ → Type 0
Holds chain e xs = (bytes chain ≡ xs) × Ends chain e × AllFilled chain

-- What is left of the loop comes to nothing but the array's end, or adds the bytes that are left.
abbrev Covers : Built → List ℕ → Type 0
Covers r xs = (r ≡ overrun) ⊎ ((cs : List Block) × (r ≡ built cs) × (bytes cs ≡ xs) × AllFilled cs)

join-Holds :
    (phys t e : ℕ) (chain : List Block) (xs : List ℕ)
    → Holds chain e xs
    → 0 < t
    → phys + t < 2 ^ 32
    → (phys == e && is_empty chain) ≡ false
    → Holds (join phys t e chain).0 (join phys t e chain).1 (xs ++ image (λ a. a) phys t)
unfolding join
join-Holds phys t e chain xs (b, n, f) pos small guard = elim (Bool-cases (phys == e)) [
  | inl same ↦ rw same (joined chain same b n f guard)
  | inr other ↦
      let block : Block = record { databuf = phys; datalen = t } in
      let at_end : (phys + t) % 2 ^ 32 ≡ phys + t = omega (arith, small) in
      rw (other, at_end)
        (
          bytes-append chain block ∙ ap (λ (ys : List ℕ). ys ++ image (λ a. a) phys t) b,
          Ends-append chain block,
          AllFilled-append chain block f pos,
        )
]
  where
    joined :
        (chain : List Block)
        → (phys == e) ≡ true
        → bytes chain ≡ xs
        → Ends chain e
        → AllFilled chain
        → (phys == e && is_empty chain) ≡ false
        → Holds (extend_last t chain) ((e + t) % 2 ^ 32) (xs ++ image (λ a. a) phys t)
    joined [] same b n f guard = absurd (stuck (rw same at guard))
      where
        stuck : true ≡ false → ⊥
        stuck e = cc
    joined (c ∷ cs) same b n f guard =
        let here : phys ≡ e = ground arith in
        let at_end : (e + t) % 2 ^ 32 ≡ e + t = omega (arith, small, here) in
        rw (at_end, here)
          (
            bytes-extend_last t e c cs n ∙ ap (λ (ys : List ℕ). ys ++ image (λ a. a) e t) b,
            Ends-extend_last t e c cs n,
            AllFilled-extend_last t (c ∷ cs) f,
          )

module _ (dma : PreDma) (at : ℕ → ℕ) (dmamaxio : ℕ) (maps : Maps dma at) where
  -- The bytes of one round, and those of the rounds behind it.
  round_image :
      (continued : Bool) (addr count : ℕ) (xs : List ℕ)
      → 0 < count
      → (let d = dma continued addr (wanted_count addr count) in
          (xs ++ image (λ a. a) d.0 d.1) ++ image at (addr + d.1) (count - d.1)
          ≡ xs ++ image at addr count)
  round_image continued addr count xs h =
      let d = dma continued addr (wanted_count addr count) in
      let (some_wanted, few) = wanted_count_pos addr count h in
      let (pos, fits, small, same) = maps continued addr (wanted_count addr count) some_wanted in
      let here : image (λ a. a) d.0 d.1 ≡ image at addr d.1 =
        image-same (λ a. a) at d.0 addr d.1 same in
      let both : d.1 + (count - d.1) ≡ count = omega (arith, fits, few) in
      rw here (
        append_assoc xs (image at addr d.1) (image at (addr + d.1) (count - d.1))
        ∙ ap (λ (ys : List ℕ). xs ++ ys)
            (sym (image-append at addr d.1 (count - d.1)) ∙ ap (λ (n : ℕ). image at addr n) both))

  loop-Covers :
      (fuel addr count e : ℕ) (chain : List Block) (xs : List ℕ)
      → addr + count < 2 ^ 32
      → count < fuel
      → Holds chain e xs
      → Covers (dma_loop fuel dma dmamaxio addr count e chain) (xs ++ image at addr count)
  unfolding dma_loop
  loop-Covers zero addr count e chain xs h f holds = absurd (omega arith)
  loop-Covers (suc fuel) addr count e chain xs h f holds = elim (Bool-cases (count == 0)) [
    | inl last ↦
        let none_left : count ≡ 0 = ground arith in
        rw (last, none_left)
          (inr (chain, refl, holds.0 ∙ unfold image in sym (append_nil xs), holds.2))
    | inr going ↦
        let d = dma (not (is_empty chain)) addr (wanted_count addr count) in
        let full = leb dmamaxio (length chain) || (d.0 == e && is_empty chain) in
        elim (Bool-cases full) [
          | inl over ↦ rw (going, over) (inl refl)
          | inr room ↦
              let some_left : 0 < count = ground arith in
              let (some_wanted, few) = wanted_count_pos addr count some_left in
              let (pos, fits, small, same) =
                maps (not (is_empty chain)) addr (wanted_count addr count) some_wanted in
              let guard : (d.0 == e && is_empty chain) ≡ false = ground arith in
              let joined = join-Holds d.0 d.1 e chain xs holds pos small guard in
              let next : (addr + d.1) % 2 ^ 32 ≡ addr + d.1 = omega (arith, h, fits, few) in
              rw (going, room, next)
                (subst (Covers _) (round_image (not (is_empty chain)) addr count xs some_left) (
                  loop-Covers fuel (addr + d.1) (count - d.1) (join d.0 d.1 e chain).1
                    (join d.0 d.1 e chain).0 (xs ++ image (λ a. a) d.0 d.1)
                    (omega (arith, h, fits, few)) (omega (arith, f, pos, fits, few)) joined))
        ]
  ]

-- Where CachePreDMA maps memory as it promises, the list that `siop_start` builds for a buffer is the
-- buffer: the physical addresses of its blocks, byte by byte and in order, are those of the buffer's
-- bytes, and no block is empty. The loop ends; the only other outcome is that the array is full (or
-- that the buffer begins at the physical address 0).
pub dma_list-image :
    (dma : PreDma) (at : ℕ → ℕ) (dmamaxio buf len : ℕ)
    → Maps dma at
    → buf + len < 2 ^ 32
    → (dma_list dma dmamaxio buf len ≡ overrun)
      ⊎ ((cs : List Block) × (dma_list dma dmamaxio buf len ≡ built cs)
          × (bytes cs ≡ image at buf len)
          × AllFilled cs)
unfolding dma_list
dma_list-image dma at dmamaxio buf len maps h =
    loop-Covers dma at dmamaxio maps (len + 1) buf len 0 [] [] h (omega arith)
      (unfold bytes in refl, unfold Ends in refl, unfold AllFilled in tt)
