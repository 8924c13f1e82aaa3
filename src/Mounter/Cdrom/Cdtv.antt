-- ===== src/Mounter/Cdrom/Cdtv.antt =====
-- What a disc has that `CheckPVD` recognises.
use mathlib.Core.Path.{subst}
use a4091_software.Base.{
  ℕ, zero, suc, ◌+◌, ◌<◌, ◌≤◌, ◌≡◌, ◌≢◌, refl, sym, ap, Bool, true, false, List, [], ◌∷◌, ◌==◌, ltb,
  arith, length, take, drop, get_or, ◌∙◌, Bool-cases, inl, inr,
}
use a4091_software.Base.Int.{ℤ}
use a4091_software.Mounter.Cdrom.{
  Disc, strings_differ, iso_id, sys_id_1, sector, is_pvd, is_amiga, pvd_loop, check_pvd,
}

same_byte :
    (x n : ℕ) (xs ys : List ℕ)
    → x ≢ 0
    → strings_differ (suc n) (x ∷ xs) ys ≡ false
    → (zs : List ℕ) × (ys ≡ x ∷ zs) × (strings_differ n xs zs ≡ false)
unfolding strings_differ
same_byte x n xs [] h e = absurd (ground arith)
same_byte x n xs (y ∷ ys) h e = elim (Bool-cases (x == y)) [
  | inl same ↦
      let eq : x ≡ y = ground arith in
      let nonzero : (x == 0) ≡ false = ground arith in
      (ys, ap (λ (z : ℕ). z ∷ ys) (sym eq), rw (same, nonzero) at e)
  | inr other ↦ absurd (stuck (rw other at e))
]
  where
    stuck : true ≡ false → ⊥
    stuck e = cc

is_amiga-cdtv : (buf : List ℕ) → is_amiga buf ≡ true → take 4 (drop 8 buf) ≡ sys_id_1
unfolding is_amiga
is_amiga-cdtv buf e = from (drop 8 buf) (ground arith)
  where
    from : (ys : List ℕ) → strings_differ 4 sys_id_1 ys ≡ false → take 4 ys ≡ sys_id_1
    from ys h =
        let (y1, e1, h1) = same_byte b'C' 3 (b'D' ∷ b'T' ∷ b'V' ∷ []) ys (ground arith) h in
        let (y2, e2, h2) = same_byte b'D' 2 (b'T' ∷ b'V' ∷ []) y1 (ground arith) h1 in
        let (y3, e3, h3) = same_byte b'T' 1 (b'V' ∷ []) y2 (ground arith) h2 in
        let (y4, e4, h4) = same_byte b'V' 0 [] y3 (ground arith) h3 in rw (e1, e2, e3, e4) refl

-- A primary volume descriptor of ISO 9660: type 1, the standard identifier CD001, version 1.
unfoldable pub IsPvd : List ℕ → Type 0
IsPvd buf =
    (get_or buf 0 0 ≡ 1)
    × (take 5 (drop 1 buf) ≡ b'C' ∷ b'D' ∷ b'0' ∷ b'0' ∷ b'1' ∷ [])
    × (get_or buf 6 0 ≡ 1)

iso_prefix :
    (ys : List ℕ)
    → strings_differ 5 iso_id ys ≡ false
    → take 5 ys ≡ b'C' ∷ b'D' ∷ b'0' ∷ b'0' ∷ b'1' ∷ []
iso_prefix ys h =
    let (y1, e1, h1) = same_byte b'C' 4 (b'D' ∷ b'0' ∷ b'0' ∷ b'1' ∷ []) ys (ground arith) h in
    let (y2, e2, h2) = same_byte b'D' 3 (b'0' ∷ b'0' ∷ b'1' ∷ []) y1 (ground arith) h1 in
    let (y3, e3, h3) = same_byte b'0' 2 (b'0' ∷ b'1' ∷ []) y2 (ground arith) h2 in
    let (y4, e4, h4) = same_byte b'0' 1 (b'1' ∷ []) y3 (ground arith) h3 in
    let (y5, e5, h5) = same_byte b'1' 0 [] y4 (ground arith) h4 in rw (e1, e2, e3, e4, e5) refl

-- Only the bytes that are compared count.
differ-take :
    (xs ys : List ℕ)
    → strings_differ (length xs) xs ys ≡ strings_differ (length xs) xs (take (length xs) ys)
unfolding strings_differ
differ-take [] ys = refl
differ-take (x ∷ xs) [] = refl
differ-take (x ∷ xs) (y ∷ ys) = rw (← differ-take xs ys) refl

is_pvd→ : (buf : List ℕ) → is_pvd buf ≡ true → IsPvd buf
unfolding is_pvd IsPvd
is_pvd→ buf h =
    let (same, kind, version) : (strings_differ 5 iso_id (drop 1 buf) ≡ false)
        × (get_or buf 0 0 ≡ 1)
        × (get_or buf 6 0 ≡ 1) =
      ground arith in
    (kind, iso_prefix (drop 1 buf) same, version)

no_pvd : (buf : List ℕ) → is_pvd buf ≡ false → IsPvd buf → ⊥
unfolding is_pvd IsPvd strings_differ
no_pvd buf h (kind, id, version) =
    let same : strings_differ 5 iso_id (drop 1 buf) ≡ false =
      differ-take iso_id (drop 1 buf) ∙ ap (strings_differ 5 iso_id) id in
    ground arith

-- A primary volume descriptor with the system identifier CDTV, read in full.
unfoldable pub IsCdtv : ℕ × List ℕ → Type 0
IsCdtv r = (2048 ≤ r.0) × IsPvd r.1 × (take 4 (drop 8 r.1) ≡ b'C' ∷ b'D' ∷ b'T' ∷ b'V' ∷ [])

-- None of the sectors from i on before sector j is a primary volume descriptor.
abbrev pub First : Disc → ℕ → ℕ → Type 0
First disc i j = (k : ℕ) → i ≤ k → k < j → ¬ IsPvd (sector disc k).1

loop-IsCdtv :
    (disc : Disc) (left i : ℕ)
    → pvd_loop disc left i ≡ true
    → (j : ℕ) × (j < i + left) × IsCdtv (sector disc j) × First disc i j
unfolding pvd_loop IsCdtv
loop-IsCdtv disc zero i e = absurd (stuck e)
  where
    stuck : false ≡ true → ⊥
    stuck e = cc
loop-IsCdtv disc (suc left) i e = elim (Bool-cases (ltb (sector disc i).0 2048)) [
  | inl short ↦ absurd (stuck (rw short at e))
  | inr full ↦ elim (Bool-cases (is_pvd (sector disc i).1)) [
    | inl here ↦ (
      i,
      omega arith,
      (
        ground arith,
        is_pvd→ (sector disc i).1 here,
        is_amiga-cdtv (sector disc i).1 (rw (full, here) at e),
      ),
      λ k low high. absurd (omega arith),
    )
    | inr other ↦
        let (j, in_range, cdtv, first) = loop-IsCdtv disc left (i + 1) (rw (full, other) at e) in
        (
          j,
          omega (arith, in_range),
          cdtv,
          λ k low high. elim (Bool-cases (k == i)) [
            | inl same ↦
                let eq : k ≡ i = ground arith in
                subst (λ x. ¬ IsPvd (sector disc x).1) (sym eq) (no_pvd (sector disc i).1 other)
            | inr later ↦ first k (ground arith) high
          ],
        )
  ]
]
  where
    stuck : false ≡ true → ⊥
    stuck e = cc

-- `CheckPVD` returns TRUE only for a disc of which one of the 32 sectors from 16 on was read in full, is a
-- primary volume descriptor, the first one of these sectors, and has the system identifier CDTV: a
-- disc with the identifier AMIGA BOOT is not recognised.
pub check_pvd-IsCdtv :
    (memory : Bool) (change : ℤ × ℕ) (disc : Disc)
    → check_pvd memory change disc ≡ true
    → (j : ℕ) × (j < 32) × IsCdtv (sector disc j) × First disc 0 j
unfolding check_pvd
check_pvd-IsCdtv memory change disc e = loop-IsCdtv disc 32 0 (ground arith)
