-- ===== src/Siop/Dma/Resume.antt =====
-- A transfer that was interrupted goes on where it stopped.
use a4091_software.Base.{
  ℕ, zero, suc, ◌+◌, ◌-◌, ◌≤◌, ◌<◌, ◌≡◌, refl, sym, ap, ◌∙◌, true, false, ◌&&◌, some, List, [], ◌∷◌,
  ◌++◌, ltb, leb, arith, length, drop,
}
use a4091_software.Siop.Dma.{Block, resume_chain}
use a4091_software.Siop.Dma.Image.{image, bytes, image-append, append_assoc}

-- None of the blocks holds the address.
unfoldable pub Outside : ℕ → List Block → Type 0
Outside a [] = Unit
Outside a (b ∷ bs) = ((leb b.databuf a && ltb a (b.databuf + b.datalen)) ≡ false) × Outside a bs

unfoldable pub total : List Block → ℕ
total [] = 0
total (b ∷ bs) = b.datalen + total bs

length-image : (at : ℕ → ℕ) (a n : ℕ) → length (image at a n) ≡ n
unfolding image
length-image at a zero = refl
length-image at a (suc n) = ap suc (length-image at (a + 1) n)

drop_all : (xs ys : List ℕ) (n : ℕ) → drop (length xs + n) (xs ++ ys) ≡ drop n ys
drop_all [] ys n = let e : 0 + n ≡ n = omega arith in rw e refl
drop_all (x ∷ xs) ys n =
    let e : suc (length xs) + n ≡ suc (length xs + n) = omega arith in rw e (drop_all xs ys n)

drop_part :
    (a k n : ℕ) (ys : List ℕ)
    → k ≤ n
    → drop k (image (λ x. x) a n ++ ys) ≡ image (λ x. x) (a + k) (n - k) ++ ys
drop_part a k n ys h =
    let parts : k + (n - k) ≡ n = omega (arith, h) in
    let len : length (image (λ x. x) a k) + 0 ≡ k = omega (arith, length-image (λ x. x) a k) in
    let whole : image (λ x. x) a n ≡ image (λ x. x) a k ++ image (λ x. x) (a + k) (n - k) =
      ap (λ (m : ℕ). image (λ x. x) a m) (sym parts) ∙ image-append (λ x. x) a k (n - k) in
    rw (whole, append_assoc (image (λ x. x) a k) (image (λ x. x) (a + k) (n - k)) ys)
      (rw len at (drop_all (image (λ x. x) a k) (image (λ x. x) (a + k) (n - k) ++ ys) 0))

-- Where an interrupted transfer has done the blocks before `b` and k bytes of `b`, and the chip is at that
-- point, the new list holds exactly the bytes of the old one that were not transferred.
pub resume_chain-drop :
    (before behind : List Block) (b : Block) (k : ℕ)
    → k < b.datalen
    → Outside (b.databuf + k) before
    → (cs : List Block) × (resume_chain (b.databuf + k) (b.datalen - k) (before ++ b ∷ behind)
        ≡ some cs)
      × (bytes cs ≡ drop (total before + k) (bytes (before ++ b ∷ behind)))
unfolding resume_chain Outside bytes total
resume_chain-drop [] behind b k h out =
    let here : (leb b.databuf (b.databuf + k) && ltb (b.databuf + k) (b.databuf + b.datalen))
        ≡ true =
      ground arith in
    let k0 : 0 + k ≡ k = omega arith in
    rw (here, k0)
      (
        record { databuf = b.databuf + k; datalen = b.datalen - k } ∷ behind,
        refl,
        sym (drop_part b.databuf k b.datalen (bytes behind) (omega (arith, h))),
      )
resume_chain-drop (c ∷ cs) behind b k h (other, out) =
    let (ds, e, same) = resume_chain-drop cs behind b k h out in
    let rest = bytes (cs ++ b ∷ behind) in
    let len : length (image (λ x. x) c.databuf c.datalen) + (total cs + k)
        ≡ c.datalen + total cs + k =
      omega (arith, length-image (λ x. x) c.databuf c.datalen) in
    rw other (
      ds,
      e,
      same ∙ sym (rw len at (drop_all (image (λ x. x) c.databuf c.datalen) rest (total cs + k))),
    )
