-- ===== src/Mounter/Lseg/Count.antt =====
-- `lseg_read_longs` never gives another number of longs than was wanted.
use a4091_software.Base.{
  ℕ, zero, suc, ◌+◌, ◌-◌, ◌*◌, ◌≡◌, refl, ap, false, Option, none, some, List, ◌==◌, ltb, arith,
  length, Bool-cases, inl, inr,
}
use a4091_software.Mounter.Blocks.{Outcome, done, failed, hung}
use a4091_software.Mounter.Lseg.{
  Reader, Lseg, load_data, advance, with_block, Longs, prepend, load_next, read_loop,
  lseg_read_longs,
}

-- Where longs were read, there are n of them.
unfoldable pub Counts : ℕ → Option Longs → Type 0
Counts n none = Unit
Counts n (some (done xs, t)) = length xs ≡ n
Counts n (some (failed, t)) = Unit
Counts n (some (hung, t)) = Unit

prepend-Counts : (n x : ℕ) (o : Option Longs) → Counts n o → Counts (suc n) (prepend x o)
unfolding Counts
prepend-Counts n x none c = tt
prepend-Counts n x (some (done xs, t)) c = ap suc c
prepend-Counts n x (some (failed, t)) c = tt
prepend-Counts n x (some (hung, t)) c = tt

load-Counts :
    (n : ℕ) (read : Reader) (more : Lseg → Option Longs) (s : Lseg)
    → ((t : Lseg) → Counts n (more t))
    → Counts n (load_next read more s)
unfolding load_next Counts
load-Counts n read more s c = elim (Bool-cases (s.block == 0xffffffff)) [
  | inl last ↦ rw last tt
  | inr going ↦ rw going (from (read s.block))
]
  where
    from :
        (o : Outcome (List ℕ))
        → Counts n (elim o [
          | failed ↦ some (failed, s)
          | hung ↦ some (hung, s)
          | done buf ↦ more (with_block buf s)
        ])
    from (done buf) = c (with_block buf s)
    from failed = tt
    from hung = tt

loop-Counts : (read : Reader) (fuel left : ℕ) (s : Lseg) → Counts left (read_loop read fuel left s)
unfolding read_loop Counts
loop-Counts read zero left s = tt
loop-Counts read (suc fuel) zero s = refl
loop-Counts read (suc fuel) (suc k) s =
    let wanted : (suc k == 0) ≡ false = ground arith in
    let less : suc k - 1 ≡ k = omega arith in
    let again : (t : Lseg) → Counts k (read_loop read fuel (suc k - 1) t) =
      λ t. rw less (loop-Counts read fuel k t) in
    elim (Bool-cases (ltb 0 s.longs)) [
      | inl more ↦ elim (Bool-cases (suc k == 1)) [
        | inl last ↦ let none_left : k ≡ 0 = ground arith in rw (wanted, more, last, none_left) refl
        | inr several ↦ elim (Bool-cases (s.longs == 1)) [
          | inl one ↦
              rw (wanted, more, several, one)
                (prepend-Counts k (load_data s) _ (load-Counts k read _ (advance s) again))
          | inr left_over ↦
              rw (wanted, more, several, left_over)
                (prepend-Counts k (load_data s) _ (again (advance s)))
        ]
      ]
      | inr empty ↦
          rw (wanted, empty) (load-Counts (suc k) read _ s (λ t. loop-Counts read fuel (suc k) t))
    ]

pub lseg_read_longs-Counts :
    (read : Reader) (n : ℕ) (s : Lseg) → Counts n (lseg_read_longs read n s)
unfolding lseg_read_longs
lseg_read_longs-Counts read n s = loop-Counts read (2 * n + 2) n (record s { hasword = false })
