-- ===== src/Port/Itoa/Value.antt =====
-- `itoa` writes the number that its bytes read as.
use native.Mathlib.Nat.{mod-lt, div-add-mod, div-lt_self}
use a4091_software.Base.{
  ℕ, zero, suc, ◌+◌, ◌-◌, ◌*◌, ◌/◌, ◌%◌, ◌≤◌, ◌<◌, ◌≡◌, refl, ◌∙◌, some, List, [], ◌∷◌, ◌++◌, ◌==◌,
  leb, if◌then◌else◌, arith, length, length-append, Bool-cases, inl, inr,
}
use a4091_software.Base.Int.{ℤ, pos, negsuc}
use a4091_software.Port.Itoa.{
  digit, prepend, digits, or_zero, reversed, magnitude, is_negative, signed, itoa,
}

-- The digit that a byte stands for.
unfoldable pub digit_value : ℕ → ℕ
digit_value c = if leb b'a' c then c - b'a' + 10 else c - b'0'

-- Reading digits, the first one the highest.
unfoldable pub read_digits : ℕ → ℕ → List ℕ → ℕ
unfolding digit_value
read_digits radix n [] = n
read_digits radix n (c ∷ cs) = read_digits radix (n * radix + digit_value c) cs

-- Reading digits, the first one the lowest.
read_back : ℕ → List ℕ → ℕ
read_back radix [] = 0
read_back radix (c ∷ cs) = radix * read_back radix cs + digit_value c

digit_value-digit : (r : ℕ) → r < 36 → digit_value (digit r) ≡ r
unfolding digit_value digit
digit_value-digit r h = ground arith

read_digits-append :
    (radix n c : ℕ) (cs : List ℕ)
    → read_digits radix n (cs ++ c ∷ []) ≡ read_digits radix n cs * radix + digit_value c
unfolding read_digits
read_digits-append radix n c [] = refl
read_digits-append radix n c (d ∷ ds) = read_digits-append radix (n * radix + digit_value d) c ds

read_digits-reversed :
    (radix : ℕ) (cs : List ℕ) → read_digits radix 0 (reversed cs) ≡ read_back radix cs
unfolding read_digits reversed read_back
read_digits-reversed radix [] = refl
read_digits-reversed radix (c ∷ cs) =
    read_digits-append radix 0 c (reversed cs) ∙ rw (read_digits-reversed radix cs) (omega arith)

-- Enough rounds, and the digits of the number.
digits-value :
    (radix fuel n : ℕ)
    → 1 < radix
    → radix ≤ 36
    → n < fuel
    → (cs : List ℕ) × (digits fuel n radix ≡ some cs) × (read_back radix cs ≡ n)
unfolding digits read_back prepend
digits-value radix zero n h k f = absurd (omega arith)
digits-value radix (suc fuel) n h k f = elim (Bool-cases (n == 0)) [
  | inl last ↦ let is_zero : n ≡ 0 = ground arith in rw last ([], refl, omega (arith, is_zero))
  | inr going ↦
      let some_left : 0 < n = ground arith in
      let less : n / radix < n = div-lt_self some_left h in
      let (cs, e, v) = digits-value radix fuel (n / radix) h k (omega arith) in
      let rest : n % radix < radix = mod-lt n (omega arith) in
      rw (going, e)
        (
          digit (n % radix) ∷ cs,
          refl,
          rw (v, digit_value-digit (n % radix) (omega arith)) (div-add-mod n radix),
        )
]

-- The sign that is written.
unfoldable pub sign : ℤ → ℕ → List ℕ
sign (pos n) radix = []
sign (negsuc n) radix = if radix == 10 then b'-' ∷ [] else []

or_zero-read_back : (radix : ℕ) (cs : List ℕ) → read_back radix (or_zero cs) ≡ read_back radix cs
unfolding or_zero read_back digit_value
or_zero-read_back radix [] = omega arith
or_zero-read_back radix (c ∷ cs) = refl

or_zero-reversed : (cs : List ℕ) → 0 < length (reversed (or_zero cs))
unfolding or_zero reversed
or_zero-reversed [] = omega arith
or_zero-reversed (c ∷ cs) = omega (arith, length-append (reversed cs) (c ∷ []))

reversed-append : (cs : List ℕ) (d : ℕ) → reversed (cs ++ d ∷ []) ≡ d ∷ reversed cs
unfolding reversed
reversed-append [] d = refl
reversed-append (c ∷ cs) d = rw (reversed-append cs d) refl

reversed-signed :
    (value : ℤ) (radix : ℕ) (cs : List ℕ)
    → reversed (signed value radix cs) ≡ sign value radix ++ reversed cs
unfolding signed sign is_negative
reversed-signed (pos n) radix cs = refl
reversed-signed (negsuc n) radix cs = elim (Bool-cases (radix == 10)) [
  | inl ten ↦ rw ten (reversed-append cs b'-')
  | inr other ↦ rw other refl
]

-- In a radix from 2 to 36 `itoa` ends and writes at least one digit; the digits, read in that radix,
-- are the value without its sign. A minus sign stands before them for a negative value in radix 10,
-- and in no other case.
pub itoa-value :
    (value : ℤ) (radix : ℕ)
    → 1 < radix
    → radix ≤ 36
    → (cs : List ℕ) × (itoa value radix ≡ some (sign value radix ++ cs))
      × (0 < length cs)
      × (read_digits radix 0 cs ≡ magnitude value)
unfolding itoa
itoa-value value radix h k =
    let n = magnitude value in
    let (cs, e, v) = digits-value radix (n + 1) n h k (omega arith) in
    (
      reversed (or_zero cs),
      rw (e, itoa, reversed-signed value radix (or_zero cs)) refl,
      or_zero-reversed cs,
      read_digits-reversed radix (or_zero cs) ∙ (or_zero-read_back radix cs ∙ v),
    )
