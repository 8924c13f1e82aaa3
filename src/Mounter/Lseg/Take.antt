-- ===== src/Mounter/Lseg/Take.antt =====
-- Reading longs off the stream: `lseg_read_longs` of mounter.c takes them in their order.
use a4091_software.Base.{
  ℕ, zero, suc, ◌+◌, ◌-◌, ◌*◌, ◌≤◌, ◌<◌, ◌≡◌, refl, ap, inl, inr, true, false, Option, some, List,
  [], ◌∷◌, ◌++◌, ◌==◌, ltb, if◌then◌else◌, arith, length, take, drop, Bool-cases,
}
use a4091_software.Mounter.Blocks.{done}
use a4091_software.Mounter.Lseg.{
  Reader, Lseg, load_data, advance, Longs, prepend, load_next, read_loop, lseg_read_longs,
  lseg_datasize,
}
use a4091_software.Mounter.Lseg.Stream.{
  Chain, pending, Holds, holds, pending_none, pending_some, load-Holds,
}

abbrev cost : ℕ → Lseg → ℕ
cost left s = 2 * left + (if ltb 0 s.longs then 0 else 1)

-- What the loop leaves: the longs that it read off the stream, and the rest of the stream.
abbrev Reads : Reader → Option Longs → ℕ → List ℕ → Type 0
Reads read o n xs = (t : Lseg) × (o ≡ some (done (take n xs), t)) × Holds read t (drop n xs)

prepend-Reads :
    (read : Reader) (o : Option Longs) (n x : ℕ) (xs : List ℕ)
    → Reads read o n xs
    → Reads read (prepend x o) (suc n) (x ∷ xs)
prepend-Reads read o n x xs (t, e, h) = (t, rw e refl, h)

module _ (read : Reader) (fuel : ℕ) (s : Lseg) where
  step_load :
      (k : ℕ)
      → s.longs ≡ 0
      → read_loop read (suc fuel) (suc k) s ≡ load_next read (read_loop read fuel (suc k)) s
  unfolding read_loop
  step_load k e =
      let wanted : (suc k == 0) ≡ false = ground arith in
      let empty : ltb 0 s.longs ≡ false = ground arith in rw (wanted, empty) refl

  step_last :
      0 < s.longs → read_loop read (suc fuel) 1 s ≡ some (done (load_data s ∷ []), advance s)
  unfolding read_loop
  step_last h = let more : ltb 0 s.longs ≡ true = ground arith in rw more refl

  step_refill :
      (k : ℕ)
      → s.longs ≡ 1
      → read_loop read (suc fuel) (suc (suc k)) s
        ≡ prepend (load_data s) (load_next read (read_loop read fuel (suc k)) (advance s))
  unfolding read_loop
  step_refill k e =
      let wanted : (suc (suc k) == 0) ≡ false = ground arith in
      let several : (suc (suc k) == 1) ≡ false = ground arith in
      let less : suc (suc k) - 1 ≡ suc k = omega arith in
      let more : ltb 0 s.longs ≡ true = ground arith in
      let last : (s.longs == 1) ≡ true = ground arith in
      let tail : Option Longs → Option Longs = λ o. prepend (load_data s) o in
      rw (wanted, several, more, last)
        (ap (λ (n : ℕ). tail (load_next read (read_loop read fuel n) (advance s))) less)

  step_more :
      (k : ℕ)
      → 1 < s.longs
      → read_loop read (suc fuel) (suc (suc k)) s
        ≡ prepend (load_data s) (read_loop read fuel (suc k) (advance s))
  unfolding read_loop
  step_more k h =
      let wanted : (suc (suc k) == 0) ≡ false = ground arith in
      let several : (suc (suc k) == 1) ≡ false = ground arith in
      let less : suc (suc k) - 1 ≡ suc k = omega arith in
      let more : ltb 0 s.longs ≡ true = ground arith in
      let not_last : (s.longs == 1) ≡ false = ground arith in
      rw (wanted, several, less, more, not_last) refl

module _ (read : Reader) (fuel k : ℕ)
    (ih : (t : Lseg) (rest : List ℕ)
      → Chain read t.block rest
      → suc k ≤ length (pending t ++ rest)
      → cost (suc k) t < fuel
      → Reads read (read_loop read fuel (suc k) t) (suc k) (pending t ++ rest)) where
  resume_held :
      (t : Lseg) {xs : List ℕ}
      → Holds read t xs
      → t.longs ≡ lseg_datasize
      → suc k ≤ length xs
      → 2 * suc k < fuel
      → Reads read (read_loop read fuel (suc k) t) (suc k) xs
  resume_held t (holds rest xs c e) full h f = rw e (ih t rest c (rw e at h) (ground arith))

  -- The loop behind the next block.
  resume :
      (s : Lseg) (xs : List ℕ)
      → Chain read s.block xs
      → suc k ≤ length xs
      → 2 * suc k < fuel
      → Reads read (load_next read (read_loop read fuel (suc k)) s) (suc k) xs
  resume s xs c h f =
      let (t, go, held, full) = load-Holds read s xs refl c (omega arith) in
      rw (go (read_loop read fuel (suc k))) (resume_held t held full h f)

-- With enough fuel, and enough longs in the stream.
loop-Reads :
    (read : Reader) (fuel left : ℕ) (s : Lseg) (rest : List ℕ)
    → Chain read s.block rest
    → left ≤ length (pending s ++ rest)
    → cost left s < fuel
    → Reads read (read_loop read fuel left s) left (pending s ++ rest)
loop-Reads read zero left s rest c h f = absurd (omega arith)
loop-Reads read (suc fuel) zero s rest c h f = (s, unfold read_loop in refl, holds rest _ c refl)
loop-Reads read (suc fuel) (suc k) s rest c h f = elim (Bool-cases (ltb 0 s.longs)) [
  | inl more ↦ read_some k (loop-Reads read fuel) more h f
  | inr empty ↦
      let none_left : s.longs ≡ 0 = ground arith in
      rw (step_load read fuel s k none_left, pending_none s none_left)
        (resume read fuel k (loop-Reads read fuel (suc k)) s rest c
          (rw (pending_none s none_left) at h) (ground arith))
]
  where
    read_some :
        (k : ℕ)
        (ih : (left : ℕ) (t : Lseg) (rest : List ℕ)
          → Chain read t.block rest
          → left ≤ length (pending t ++ rest)
          → cost left t < fuel
          → Reads read (read_loop read fuel left t) left (pending t ++ rest))
        → ltb 0 s.longs ≡ true
        → suc k ≤ length (pending s ++ rest)
        → cost (suc k) s < suc fuel
        → Reads read (read_loop read (suc fuel) (suc k) s) (suc k) (pending s ++ rest)
    read_some zero ih more h f =
        rw (step_last read fuel s (ground arith), pending_some s (ground arith))
          (advance s, refl, holds rest _ c refl)
    read_some (suc k) ih more h f =
        let some_left : 0 < s.longs = ground arith in
        let first = pending_some s some_left in
        let room : suc k ≤ length (pending (advance s) ++ rest) =
          omega (arith, ap (λ (ys : List ℕ). length (ys ++ rest)) first) in
        elim (Bool-cases (s.longs == 1)) [
          | inl one ↦
              let last : s.longs ≡ 1 = ground arith in
              let empty = pending_none (advance s) (omega arith) in
              rw (step_refill read fuel s k last, first, empty)
                (prepend-Reads read _ (suc k) (load_data s) rest (
                  resume read fuel k (ih (suc k)) (advance s) rest c (rw empty at room)
                    (ground arith)))
          | inr several ↦
              rw (step_more read fuel s k (ground arith), first)
                (prepend-Reads read _ (suc k) (load_data s) (pending (advance s) ++ rest)
                  (ih (suc k) (advance s) rest c room (ground arith)))
        ]

-- Where at least as many longs as wanted are left in the chain of blocks, `lseg_read_longs` returns
-- TRUE with the next longs of the stream in their order, across the ends of blocks, and the stream
-- behind them is what is left; that is so for any number of longs wanted, and the loop ends.
pub lseg_read_longs-take :
    (read : Reader) (n : ℕ) (s : Lseg) (xs : List ℕ)
    → Holds read s xs
    → n ≤ length xs
    → (t : Lseg) × (lseg_read_longs read n s ≡ some (done (take n xs), t))
      × Holds read t (drop n xs)
unfolding lseg_read_longs
lseg_read_longs-take read n s xs (holds rest _ c e) h =
    let fresh : Lseg = record s { hasword = false } in
    let same : pending fresh ≡ pending s = unfold pending in refl in
    rw e (
      rw same at
        (loop-Reads read (2 * n + 2) n fresh rest c (rw (same) (rw e at h)) (ground arith)))
