-- ===== src/Siop/Dma.antt =====
-- The DMA blocks of a command in siop.c: the list that `siop_start` builds for the chip, and what
-- `siop_checkintr` makes of it where a target disconnects in the middle.
pub mod Image
pub mod Cover
pub mod Identity
pub mod Resume
use a4091_software.Base.{
  ℕ, zero, suc, ◌+◌, ◌-◌, ◌*◌, ◌%◌, ◌^◌, Bool, true, false, not, ◌&&◌, ◌||◌, Option, none, some,
  List, [], ◌∷◌, ◌++◌, ◌==◌, ltb, leb, if◌then◌else◌, min, length,
}

-- One element of `chain`: databuf and datalen. The list ends at the first datalen of 0.
pub record Block : Type 0 where
  pub databuf : ℕ
  pub datalen : ℕ

-- CachePreDMA: the physical address of a piece of memory, and how much of it is contiguous there.
-- The first argument is whether this continues a transfer.
abbrev pub PreDma : Type 0
PreDma = Bool → (addr length : ℕ) → ℕ × ℕ

-- The list, an element outside of the array, or no end.
pub data Built : Type 0 where
  built : List Block → Built
  overrun endless : Built

unfoldable pub extend_last : ℕ → List Block → List Block
extend_last n [] = []
extend_last n (b ∷ []) = record b { datalen = b.datalen + n } ∷ []
extend_last n (b ∷ c ∷ bs) = b ∷ extend_last n (c ∷ bs)

-- How much is asked for: up to AMIGA_MAX_TRANSFER, and up to the next long first.
unfoldable pub wanted_count : (addr count : ℕ) → ℕ
wanted_count addr count =
    let tcount = if ltb (2 ^ 20) count then 2 ^ 20 else count in
    if not (addr % 4 == 0) && ltb 30 tcount then 4 - addr % 4 else tcount

abbrev pub is_empty : List Block → Bool
is_empty [] = true
is_empty (b ∷ bs) = false

-- One element: it joins the last one where that ends at its address, `dmaend`, which is 0 at first.
unfoldable pub join : (phys tcount dmaend : ℕ) → List Block → List Block × ℕ
unfolding extend_last
join phys tcount dmaend chain =
    if phys == dmaend
    then (extend_last tcount chain, (dmaend + tcount) % 2 ^ 32)
    else (chain ++ record { databuf = phys; datalen = tcount } ∷ [], (phys + tcount) % 2 ^ 32)

-- The loop. `dmamaxio` is the size of the array; `chain` is what was built, without zeros behind it.
unfoldable pub dma_loop : ℕ → PreDma → (dmamaxio addr count dmaend : ℕ) → List Block → Built
unfolding wanted_count join
dma_loop zero dma dmamaxio addr count dmaend chain = endless
dma_loop (suc fuel) dma dmamaxio addr count dmaend chain =
    let more = dma_loop fuel dma dmamaxio in
    let (phys, tcount) = dma (not (is_empty chain)) addr (wanted_count addr count) in
    let (joined, end) = join phys tcount dmaend chain in
    if count == 0
    then built chain
    else if leb dmamaxio (length chain) || (phys == dmaend && is_empty chain)
    then overrun
    else more ((addr + tcount) % 2 ^ 32) (count - tcount) end joined

-- Each round takes a byte at least. The length of a transfer is an int, below 2 ^ 31; here any number.
unfoldable pub dma_list : PreDma → (dmamaxio buf len : ℕ) → Built
unfolding dma_loop
dma_list dma dmamaxio buf len = dma_loop (len + 1) dma dmamaxio buf len 0 []

-- Where a target disconnects, the list starts again at the point that was reached, `curbuf`, with what
-- was left of that block, `curlen`. `none` where no block holds the point. These are arguments: a phase
-- mismatch has set them, or siop_checkintr takes them from siop_temp before, which is left out.
unfoldable pub resume_chain : (curbuf curlen : ℕ) → List Block → Option (List Block)
resume_chain curbuf curlen [] = none
resume_chain curbuf curlen (b ∷ bs) =
    let rest = resume_chain curbuf curlen bs in
    if leb b.databuf curbuf && ltb curbuf (b.databuf + b.datalen)
    then some (record { databuf = curbuf; datalen = curlen } ∷ bs)
    else rest
