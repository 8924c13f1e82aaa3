-- ===== src/Romtool/Resize/Changed.antt =====
-- What `main` makes of a resize.
use a4091_software.Base.{
  ℕ, ◌*◌, ◌≡◌, inl, inr, refl, true, false, some, ◌++◌, arith, length-append, take, ◌==◌,
}
use a4091_software.Base.Int.{pos}
use a4091_software.Romtool.Bytes.{blank, length-blank, length-take}
use a4091_software.Romtool.{Rom, len}
use a4091_software.Romtool.Resize.{resized, resize, resize_option, IsPacked, IsSize}
use a4091_software.Romtool.Resize.Files.{
  bytes, length-first, resize_same, resize_grow, resize_shrink,
}

module _ (rom : Rom) where
  len-shrunk : len rom ≡ 65536 → len (resized rom 32) ≡ 32768
  unfolding resized
  len-shrunk size =
      let first = length-first rom 0 0 (omega arith) (omega arith) in
      omega (
        arith,
        length-take 32728 (take 32768 (bytes rom 0 0 (omega arith))) (omega (arith, first)),
        first,
      )

  len-grown : len rom ≡ 32768 → len (resized rom 64) ≡ 65536
  unfolding resized
  len-grown size =
      let part = bytes rom 0 0 (omega arith) in
      let first = length-first rom 0 0 (omega arith) (omega arith) in
      let whole = length-append (take 32768 part) (blank 32768) in
      omega (
        arith,
        whole,
        first,
        length-blank 32768,
        length-take 65496 (take 32768 part ++ blank 32768)
            (omega (arith, whole, first, length-blank 32768)),
      )

  option_of :
      (newsize : ℕ) (r : Rom)
      → IsSize newsize
      → resize rom newsize ≡ (r, pos 0)
      → len r ≡ newsize * 1024
      → (resize_option newsize rom ≡ some ((resize rom newsize).0, false))
        × (len (resize rom newsize).0 ≡ newsize * 1024)
  unfolding resize_option
  option_of newsize r h e size =
      let given : (newsize == 0) ≡ false = ground arith in
      let equal : (newsize * 1024 == len r) ≡ true = ground arith in
      rw e (rw (given, equal) refl, size)

-- After a resize that succeeds the image has the new size, and `main` does not count it as changed,
-- so that by itself it is never written; for an image of 32 or 64 kB with its files packed.
pub resize_option-unchanged :
    (rom : Rom) (newsize : ℕ)
    → IsSize newsize
    → IsPacked rom
    → (resize rom newsize).1 ≡ pos 0
    → (resize_option newsize rom ≡ some ((resize rom newsize).0, false))
      × (len (resize rom newsize).0 ≡ newsize * 1024)
resize_option-unchanged rom newsize (inl e) p ok = elim p.size [
  | inl size ↦
      option_of rom newsize rom (inl e) (resize_same rom newsize (omega arith)) (omega arith)
  | inr size ↦
      let (room, done) = resize_shrink rom size (rw e at ok) in
      option_of rom newsize (resized rom 32) (inl e) (rw e done)
        (omega (arith, len-shrunk rom size))
]
resize_option-unchanged rom newsize (inr e) p ok = elim p.size [
  | inl size ↦
      option_of rom newsize (resized rom 64) (inr e) (rw e (resize_grow rom size))
        (omega (arith, len-grown rom size))
  | inr size ↦
      option_of rom newsize rom (inr e) (resize_same rom newsize (omega arith)) (omega arith)
]
