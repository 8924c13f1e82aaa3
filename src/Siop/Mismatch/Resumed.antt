-- ===== src/Siop/Mismatch/Resumed.antt =====
-- A transfer that the target interrupts goes on with the first byte that it did not get.
use a4091_software.Base.{ℕ, ◌+◌, ◌-◌, ◌%◌, ◌^◌, ◌<◌, ◌≡◌, some, List, ◌∷◌, ◌++◌, arith, drop}
use a4091_software.Siop.Dma.{Block, resume_chain}
use a4091_software.Siop.Dma.Image.{bytes}
use a4091_software.Siop.Dma.Resume.{Outside, total, resume_chain-drop}
use a4091_software.Siop.Mismatch.{Chip, one_if, adjust, phase_mismatch}

-- The chip works on a block of which k bytes have left it; it holds n more bytes in its FIFO, and those
-- of its output register and latch. dfifo runs ahead of the count by the bytes of the FIFO.
pub record WorksOn (c : Chip) (b : Block) (k n : ℕ) : Type 0 where
  pub fifo : n < 128
  pub ahead : c.dfifo % 128 ≡ (c.dbc0 + n) % 128
  pub address : c.dnad ≡ b.databuf + k + (n + one_if c.orf + one_if c.olf)
  pub count : c.dcmd % 2 ^ 24 + (n + one_if c.orf + one_if c.olf) + k ≡ b.datalen

adjust_is :
    (c : Chip) (b : Block) (k n : ℕ) → WorksOn c b k n → adjust c ≡ n + one_if c.orf + one_if c.olf
unfolding adjust
adjust_is c b k n w =
    let fifo : (c.dfifo + 128 - c.dbc0 % 128) % 128 ≡ n = omega (arith, w.fifo, w.ahead) in
    omega (arith, fifo)

-- Where the chip works on a block of a command's DMA list that ends below 4 GB, and the point that was
-- reached is in none of the blocks before, the list that siop_checkintr makes from the registers holds
-- exactly the bytes of the old list that have not left the chip, in order.
pub phase_mismatch-drop :
    (c : Chip) (before behind : List Block) (b : Block) (k n : ℕ)
    → WorksOn c b k n
    → k < b.datalen
    → b.databuf + b.datalen < 2 ^ 32
    → Outside (b.databuf + k) before
    → (cs : List Block) × (resume_chain
          (phase_mismatch c).0
          (phase_mismatch c).1
          (before ++ b ∷ behind)
        ≡ some cs)
      × (bytes cs ≡ drop (total before + k) (bytes (before ++ b ∷ behind)))
unfolding phase_mismatch
phase_mismatch-drop c before behind b k n w inside low out =
    let held = adjust_is c b k n w in
    let point : (c.dnad + 2 ^ 32 - adjust c) % 2 ^ 32 ≡ b.databuf + k =
      omega (arith, held, w.address, w.count, low) in
    let left : (c.dcmd % 2 ^ 24 + adjust c) % 2 ^ 32 ≡ b.datalen - k =
      omega (arith, held, w.count, low) in
    rw (point, left) (resume_chain-drop before behind b k inside out)
