-- ===== src/Port/Itoa.antt =====
-- `itoa` of port.c. The string is the list of its bytes before the terminating 0.
pub mod Value
use a4091_software.Base.{
  ℕ, zero, suc, ◌+◌, ◌-◌, ◌*◌, ◌/◌, ◌%◌, ◌≡◌, Bool, true, false, Option, none, some, List, [], ◌∷◌,
  ◌++◌, ◌==◌, ltb, leb, if◌then◌else◌,
}
use a4091_software.Base.Int.{ℤ, pos, negsuc}

digit : ℕ → ℕ
digit r = if leb 10 r then b'a' + (r - 10) else b'0' + r

prepend : ℕ → Option (List ℕ) → Option (List ℕ)
prepend c none = none
prepend c (some cs) = some (c ∷ cs)

-- The first loop: the digits from the last one on. `none` where the fuel runs out.
digits : ℕ → ℕ → ℕ → Option (List ℕ)
unfolding digit prepend
digits zero n radix = none
digits (suc fuel) n radix =
    let rest = digits fuel (n / radix) radix in
    if n == 0 then some [] else prepend (digit (n % radix)) rest

-- At least one digit.
or_zero : List ℕ → List ℕ
or_zero [] = b'0' ∷ []
or_zero (c ∷ cs) = c ∷ cs

-- The second loop swaps the bytes from both ends.
reversed : List ℕ → List ℕ
reversed [] = []
reversed (c ∷ cs) = reversed cs ++ c ∷ []

-- The value without its sign.
unfoldable pub magnitude : ℤ → ℕ
magnitude (pos n) = n
magnitude (negsuc n) = n + 1

is_negative : ℤ → Bool
is_negative (pos n) = false
is_negative (negsuc n) = true

-- A minus sign in radix 10 only. `value` is a 32-bit int above -2 ^ 31.
signed : ℤ → ℕ → List ℕ → List ℕ
unfolding is_negative
signed value radix cs =
    if is_negative value then (if radix == 10 then cs ++ b'-' ∷ [] else cs) else cs

-- `none` where the first loop does not end, which is so in radix 1.
unfoldable pub itoa : ℤ → ℕ → Option (List ℕ)
unfolding digits or_zero signed reversed magnitude
itoa value radix = elim (digits (magnitude value + 1) (magnitude value) radix) [
  | none ↦ none
  | some cs ↦ some (reversed (signed value radix (or_zero cs)))
]
