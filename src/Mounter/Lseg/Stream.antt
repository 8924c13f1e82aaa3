-- ===== src/Mounter/Lseg/Stream.antt =====
-- The readers see the chain of LSEG blocks as one stream of longs.
use native.Mathlib.Numerals.{unary_clauses}
use a4091_software.Base.{
  ℕ, zero, suc, ◌+◌, ◌-◌, ◌*◌, ◌<◌, ◌≡◌, ◌≢◌, refl, ap, ◌∙◌, false, Option, List, [], ◌∷◌, ◌++◌,
  ◌==◌, arith, length,
}
use a4091_software.Mounter.Blocks.{done, long_at}
use a4091_software.Mounter.Lseg.{
  Reader, Lseg, load_data, advance, with_block, Longs, load_next, lseg_datasize,
}

-- n longs of a buffer.
unfoldable pub longs_from : ℕ → List ℕ → ℕ → List ℕ
longs_from zero buf i = []
longs_from (suc n) buf i = long_at buf i ∷ longs_from n buf (i + 4)

-- The longs of the blocks from a block on.
pub data Chain (read : Reader) : ℕ → List ℕ → Type 0 where
  end : (block : ℕ) → block ≡ 0xffffffff → Chain read block []
  link :
      (block : ℕ) (buf rest : List ℕ)
      → block ≢ 0xffffffff
      → read block ≡ done buf
      → Chain read (long_at buf 16) rest
      → Chain read block (longs_from lseg_datasize buf 20 ++ rest)

-- The longs left in the buffer.
unfoldable pub pending : Lseg → List ℕ
pending s = longs_from s.longs s.buf (20 + 4 * s.offset)

-- The longs that are still to be read.
pub data Holds (read : Reader) (s : Lseg) : List ℕ → Type 0 where
  holds : (rest xs : List ℕ) → Chain read s.block rest → xs ≡ pending s ++ rest → Holds read s xs

pub pending_none : (s : Lseg) → s.longs ≡ 0 → pending s ≡ []
unfolding pending longs_from
pending_none s e = rw (e, pending) refl

longs_from_some :
    (n : ℕ) (buf : List ℕ) (i : ℕ)
    → 0 < n
    → longs_from n buf i ≡ long_at buf i ∷ longs_from (n - 1) buf (i + 4)
unfolding longs_from
longs_from_some zero buf i h = absurd (omega arith)
longs_from_some (suc n) buf i h = simp unary_clauses refl

pub pending_some : (s : Lseg) → 0 < s.longs → pending s ≡ load_data s ∷ pending (advance s)
unfolding pending
pending_some s h =
    let i : 20 + 4 * s.offset + 4 ≡ 20 + 4 * (s.offset + 1) = omega arith in
    longs_from_some s.longs s.buf (20 + 4 * s.offset) h
    ∙ ap (λ (j : ℕ). load_data s ∷ longs_from (s.longs - 1) s.buf j) i

-- Reading the next block of a chain that is not at its end.
pub load-Holds :
    (read : Reader) (s : Lseg) (xs : List ℕ) {block : ℕ}
    → s.block ≡ block
    → Chain read block xs
    → 0 < length xs
    → (t : Lseg) × ((more : Lseg → Option Longs) → load_next read more s ≡ more t)
      × Holds read t xs
      × (t.longs ≡ lseg_datasize)
unfolding load_next pending
load-Holds read s xs e (end block last) h = absurd (omega arith)
load-Holds read s xs e (link block buf rest more_blocks got chain) h =
    let going : (s.block == 0xffffffff) ≡ false = ground arith in
    (with_block buf s, λ more. rw (going, e, got) refl, holds rest _ chain refl, refl)
