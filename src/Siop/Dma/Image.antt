-- ===== src/Siop/Dma/Image.antt =====
-- The list of blocks is the buffer.
use a4091_software.Base.{
  ℕ, zero, suc, ◌+◌, ◌^◌, ◌≤◌, ◌<◌, ◌≡◌, refl, sym, ap, Bool, List, [], ◌∷◌, ◌++◌, arith,
}
use a4091_software.Siop.Dma.{Block, PreDma, extend_last}

-- Where each byte of n bytes is.
unfoldable pub image : (ℕ → ℕ) → ℕ → ℕ → List ℕ
image at addr zero = []
image at addr (suc n) = at addr ∷ image at (addr + 1) n

-- The addresses of the bytes of the blocks.
unfoldable pub bytes : List Block → List ℕ
unfolding image
bytes [] = []
bytes (b ∷ bs) = image (λ a. a) b.databuf b.datalen ++ bytes bs

-- No block is empty, as that would end the list.
unfoldable pub AllFilled : List Block → Type 0
AllFilled [] = Unit
AllFilled (b ∷ bs) = (0 < b.datalen) × AllFilled bs

-- What CachePreDMA promises: a part of the piece, not empty, that is contiguous at the address.
abbrev pub Maps : PreDma → (ℕ → ℕ) → Type 0
Maps dma at =
    (continued : Bool) (addr n : ℕ)
    → 0 < n
    → (0 < (dma continued addr n).1)
      × ((dma continued addr n).1 ≤ n)
      × ((dma continued addr n).0 + (dma continued addr n).1 < 2 ^ 32)
      × ((j : ℕ) → j < (dma continued addr n).1 → (dma continued addr n).0 + j ≡ at (addr + j))

pub image-append :
    (at : ℕ → ℕ) (a n m : ℕ) → image at a (n + m) ≡ image at a n ++ image at (a + n) m
unfolding image
image-append at a zero m =
    let e : 0 + m ≡ m = omega arith in let b : a + 0 ≡ a = omega arith in rw (e, b) refl
image-append at a (suc n) m =
    let e : suc n + m ≡ suc (n + m) = omega arith in
    let b : a + 1 + n ≡ a + suc n = omega arith in
    rw e (ap (λ (xs : List ℕ). at a ∷ xs) (rw b at (image-append at (a + 1) n m)))

pub image-same :
    (f g : ℕ → ℕ) (a b n : ℕ)
    → ((j : ℕ) → j < n → f (a + j) ≡ g (b + j))
    → image f a n ≡ image g b n
unfolding image
image-same f g a b zero h = refl
image-same f g a b (suc n) h =
    let a0 : a + 0 ≡ a = omega arith in
    let b0 : b + 0 ≡ b = omega arith in
    let first : f a ≡ g b = rw (a0, b0) at (h 0 (omega arith)) in
    let rest = image-same f g (a + 1) (b + 1) n (λ j k.
      let a1 : a + suc j ≡ a + 1 + j = omega arith in
      let b1 : b + suc j ≡ b + 1 + j = omega arith in
      rw (a1, b1) at (h (suc j) (omega (arith, k)))) in
    rw (first, rest) refl

pub append_assoc : (xs ys zs : List ℕ) → (xs ++ ys) ++ zs ≡ xs ++ (ys ++ zs)
append_assoc [] ys zs = refl
append_assoc (x ∷ xs) ys zs = ap (λ (l : List ℕ). x ∷ l) (append_assoc xs ys zs)

pub append_nil : (xs : List ℕ) → xs ++ [] ≡ xs
append_nil [] = refl
append_nil (x ∷ xs) = ap (λ (l : List ℕ). x ∷ l) (append_nil xs)

pub bytes-append :
    (bs : List Block) (b : Block)
    → bytes (bs ++ b ∷ []) ≡ bytes bs ++ image (λ a. a) b.databuf b.datalen
unfolding bytes
bytes-append [] b = append_nil (image (λ a. a) b.databuf b.datalen)
bytes-append (c ∷ bs) b = rw (bytes-append bs b) (
    sym (
      append_assoc (image (λ a. a) c.databuf c.datalen) (bytes bs)
        (image (λ a. a) b.databuf b.datalen)))

-- Where the last block ends.
unfoldable pub Ends : List Block → ℕ → Type 0
Ends [] e = e ≡ 0
Ends (b ∷ []) e = b.databuf + b.datalen ≡ e
Ends (b ∷ c ∷ bs) e = Ends (c ∷ bs) e

pub bytes-extend_last :
    (n e : ℕ) (b : Block) (bs : List Block)
    → Ends (b ∷ bs) e
    → bytes (extend_last n (b ∷ bs)) ≡ bytes (b ∷ bs) ++ image (λ a. a) e n
unfolding bytes extend_last Ends
bytes-extend_last n e b [] h =
    rw
      (
        image-append (λ a. a) b.databuf b.datalen n,
        h,
        append_nil (image (λ a. a) b.databuf b.datalen),
        append_nil (image (λ a. a) b.databuf b.datalen ++ image (λ a. a) e n),
      )
      refl
bytes-extend_last n e b (c ∷ bs) h =
    rw (bytes-extend_last n e c bs h) (
      sym (append_assoc (image (λ a. a) b.databuf b.datalen) (bytes (c ∷ bs)) (image (λ a. a) e n)))

pub Ends-extend_last :
    (n e : ℕ) (b : Block) (bs : List Block)
    → Ends (b ∷ bs) e
    → Ends (extend_last n (b ∷ bs)) (e + n)
unfolding extend_last Ends
Ends-extend_last n e b [] h = omega (arith, h)
Ends-extend_last n e b (c ∷ []) h = omega (arith, h)
Ends-extend_last n e b (c ∷ d ∷ bs) h = Ends-extend_last n e c (d ∷ bs) h

pub Ends-append : (bs : List Block) (b : Block) → Ends (bs ++ b ∷ []) (b.databuf + b.datalen)
unfolding Ends
Ends-append [] b = refl
Ends-append (c ∷ []) b = refl
Ends-append (c ∷ d ∷ bs) b = Ends-append (d ∷ bs) b

pub AllFilled-append :
    (bs : List Block) (b : Block) → AllFilled bs → 0 < b.datalen → AllFilled (bs ++ b ∷ [])
unfolding AllFilled
AllFilled-append [] b f h = (h, tt)
AllFilled-append (c ∷ bs) b (g, f) h = (g, AllFilled-append bs b f h)

pub AllFilled-extend_last : (n : ℕ) (bs : List Block) → AllFilled bs → AllFilled (extend_last n bs)
unfolding AllFilled extend_last
AllFilled-extend_last n [] f = tt
AllFilled-extend_last n (b ∷ []) (g, f) = (omega (arith, g), tt)
AllFilled-extend_last n (b ∷ c ∷ bs) (g, f) = (g, AllFilled-extend_last n (c ∷ bs) f)
