-- ===== src/Romtool/Bytes.antt =====
-- Ranges of bytes: `memcpy` into and out of an image, `memset` with 0xff. What lies outside of the
-- image is neither read nor written.
use native.Mathlib.Numerals.{unary_clauses}
use a4091_software.Base.{
  ℕ, zero, suc, ◌+◌, ◌-◌, ◌≤◌, ◌≡◌, refl, sym, ap, ◌∙◌, List, [], ◌∷◌, ◌++◌, arith, length, take,
  drop,
}

-- `len` bytes from `off` on.
abbrev pub slice : ℕ → ℕ → List ℕ → List ℕ
slice off len xs = take len (drop off xs)

-- `memset` with 0xff from `off` to the end.
pub erase : ℕ → List ℕ → List ℕ
erase off [] = []
erase zero (d ∷ ds) = 0xff ∷ erase zero ds
erase (suc off) (d ∷ ds) = d ∷ erase off ds

-- `memcpy` to `off`.
pub put : ℕ → List ℕ → List ℕ → List ℕ
put off [] ds = ds
put off (b ∷ bs) [] = []
put zero (b ∷ bs) (d ∷ ds) = b ∷ put zero bs ds
put (suc off) (b ∷ bs) (d ∷ ds) = d ∷ put off (b ∷ bs) ds

-- n erased bytes.
abbrev pub blank : ℕ → List ℕ
blank zero = []
blank (suc n) = 0xff ∷ blank n

pub length-blank : (n : ℕ) → length (blank n) ≡ n
length-blank zero = refl
length-blank (suc n) = ap (λ (k : ℕ). suc k) (length-blank n)

erase_all : (xs : List ℕ) → erase 0 xs ≡ blank (length xs)
unfolding erase
erase_all [] = refl
erase_all (x ∷ xs) = ap (λ (t : List ℕ). 0xff ∷ t) (erase_all xs)

pub erase_lem :
    (off : ℕ) (xs : List ℕ)
    → off ≤ length xs
    → erase off xs ≡ take off xs ++ blank (length xs - off)
unfolding erase
erase_lem zero xs h = simp unary_clauses (erase_all xs)
erase_lem (suc off) [] h = absurd (omega arith)
erase_lem (suc off) (x ∷ xs) h =
    simp unary_clauses (ap (λ (t : List ℕ). x ∷ t) (erase_lem off xs (omega arith)))

put-blank : (bs : List ℕ) (n : ℕ) → length bs ≤ n → put 0 bs (blank n) ≡ bs ++ blank (n - length bs)
unfolding put
put-blank [] n h = simp unary_clauses refl
put-blank (b ∷ bs) zero h = absurd (omega arith)
put-blank (b ∷ bs) (suc n) h =
    simp unary_clauses (ap (λ (t : List ℕ). b ∷ t) (put-blank bs n (omega arith)))

put-append : (xs bs ys : List ℕ) → put (length xs) bs (xs ++ ys) ≡ xs ++ put 0 bs ys
unfolding put
put-append xs [] ys = refl
put-append [] (b ∷ bs) ys = refl
put-append (x ∷ xs) (b ∷ bs) ys = ap (λ (t : List ℕ). x ∷ t) (put-append xs (b ∷ bs) ys)

pub append_assoc : (xs ys zs : List ℕ) → (xs ++ ys) ++ zs ≡ xs ++ (ys ++ zs)
append_assoc [] ys zs = refl
append_assoc (x ∷ xs) ys zs = ap (λ (t : List ℕ). x ∷ t) (append_assoc xs ys zs)

-- Bytes that are written where the erased part begins follow what is there.
pub put_next :
    (off : ℕ) (xs bs : List ℕ) (n : ℕ)
    → off ≡ length xs
    → length bs ≤ n
    → put off bs (xs ++ blank n) ≡ (xs ++ bs) ++ blank (n - length bs)
put_next off xs bs n e h = rw e (
    put-append xs bs (blank n)
    ∙ ap (λ (t : List ℕ). xs ++ t) (put-blank bs n h)
    ∙ sym (append_assoc xs bs (blank (n - length bs))))

pub length-take : (n : ℕ) (xs : List ℕ) → n ≤ length xs → length (take n xs) ≡ n
length-take zero xs h = refl
length-take (suc n) [] h = absurd (omega arith)
length-take (suc n) (x ∷ xs) h = ap (λ (k : ℕ). suc k) (length-take n xs (omega arith))

pub length-drop : (n : ℕ) (xs : List ℕ) → length (drop n xs) ≡ length xs - n
length-drop zero xs = omega arith
length-drop (suc n) [] = omega arith
length-drop (suc n) (x ∷ xs) = omega (arith, length-drop n xs)

pub length-slice :
    (off len : ℕ) (xs : List ℕ) → off + len ≤ length xs → length (slice off len xs) ≡ len
length-slice off len xs h = length-take len (drop off xs) (omega (arith, length-drop off xs))

take-append : (xs ys : List ℕ) → take (length xs) (xs ++ ys) ≡ xs
take-append [] ys = refl
take-append (x ∷ xs) ys = ap (λ (t : List ℕ). x ∷ t) (take-append xs ys)

drop-append : (xs ys : List ℕ) → drop (length xs) (xs ++ ys) ≡ ys
drop-append [] ys = refl
drop-append (x ∷ xs) ys = drop-append xs ys

-- What stands between two parts is found at the length of the first.
pub slice-append :
    (off : ℕ) (xs bs ys : List ℕ) → off ≡ length xs → slice off (length bs) ((xs ++ bs) ++ ys) ≡ bs
slice-append off xs bs ys e =
    rw (e, append_assoc xs bs ys, drop-append xs (bs ++ ys)) (take-append bs ys)

take_within : (n : ℕ) (xs ys : List ℕ) → n ≤ length xs → take n (xs ++ ys) ≡ take n xs
take_within zero xs ys h = refl
take_within (suc n) [] ys h = absurd (omega arith)
take_within (suc n) (x ∷ xs) ys h = ap (λ (t : List ℕ). x ∷ t) (take_within n xs ys (omega arith))

-- A range within the first part is not affected by what follows.
pub slice_within :
    (off n : ℕ) (xs ys : List ℕ) → off + n ≤ length xs → slice off n (xs ++ ys) ≡ slice off n xs
slice_within zero n xs ys h = take_within n xs ys (omega arith)
slice_within (suc off) n [] ys h = absurd (omega arith)
slice_within (suc off) n (x ∷ xs) ys h = slice_within off n xs ys (omega arith)

take-drop : (n : ℕ) (xs : List ℕ) → take n xs ++ drop n xs ≡ xs
take-drop zero xs = refl
take-drop (suc n) [] = refl
take-drop (suc n) (x ∷ xs) = ap (λ (t : List ℕ). x ∷ t) (take-drop n xs)

-- Nor by cutting what lies behind it.
pub slice-take :
    (off n m : ℕ) (xs : List ℕ)
    → off + n ≤ m
    → m ≤ length xs
    → slice off n (take m xs) ≡ slice off n xs
slice-take off n m xs h k =
    sym (slice_within off n (take m xs) (drop m xs) (omega (arith, length-take m xs k)))
    ∙ ap (λ (t : List ℕ). slice off n t) (take-drop m xs)
