-- ===== src/Mounter/Names/Climb.antt =====
-- The names that `CheckAndFixDevName` tries climb: each ranks above the one before.
use a4091_software.Base.{
  ℕ, suc, ◌+◌, ◌-◌, ◌*◌, ◌%◌, ◌≤◌, ◌<◌, ◌≡◌, refl, ap, true, false, ◌&&◌, List, [], ◌∷◌, ◌++◌, ◌==◌,
  leb, ltb, if◌then◌else◌, length, get_or, length-append, arith, Bool-cases, inl, inr,
}
use a4091_software.Base.Table.{every_below, every_below_lem}
use a4091_software.Mounter.Names.{
  to_upper, same_bytes, compare_bstr_no_case, ends_in_digit, next_digit, add_one, rename, is_taken,
}

upper_table : every_below 256 (λ c. ltb (to_upper c) 256) ≡ true
unfolding every_below to_upper
upper_table = refl

digit_table :
    every_below 256 (λ c. if leb 0x30 c && leb c 0x39 then to_upper c == c else true) ≡ true
unfolding every_below to_upper
digit_table = refl

pub to_upper-mod : (c : ℕ) → to_upper (c % 256) ≡ to_upper c
unfolding to_upper
to_upper-mod c = let e : c % 256 % 256 ≡ c % 256 = omega arith in rw e refl

to_upper-lt : (c : ℕ) → to_upper c < 256
to_upper-lt c = ground (arith, every_below_lem 256 _ (c % 256) upper_table, to_upper-mod c)

to_upper_digit : (c : ℕ) → 0x30 ≤ c → c ≤ 0x39 → to_upper c ≡ c
to_upper_digit c lo hi = ground (arith, every_below_lem 256 _ c digit_table)

-- The last byte of a name, as the comparison sees it.
pub last_upper : List ℕ → ℕ
last_upper [] = 0
last_upper (c ∷ []) = to_upper c
last_upper (c ∷ d ∷ cs) = last_upper (d ∷ cs)

last_upper-lt : (name : List ℕ) → last_upper name < 256
unfolding last_upper
last_upper-lt [] = omega arith
last_upper-lt (c ∷ []) = to_upper-lt c
last_upper-lt (c ∷ d ∷ cs) = last_upper-lt (d ∷ cs)

-- The order in which renaming climbs.
pub rank : List ℕ → ℕ
rank name = 256 * length name + last_upper name

same-last_upper :
    (xs ys : List ℕ)
    → length xs ≡ length ys
    → same_bytes xs ys ≡ true
    → last_upper xs ≡ last_upper ys
unfolding same_bytes last_upper
same-last_upper [] [] l h = refl
same-last_upper [] (y ∷ ys) l h = absurd (omega arith)
same-last_upper (x ∷ xs) [] l h = absurd (omega arith)
same-last_upper (x ∷ []) (y ∷ []) l h = ground arith
same-last_upper (x ∷ []) (y ∷ z ∷ ys) l h = absurd (omega arith)
same-last_upper (x ∷ w ∷ xs) (y ∷ []) l h = absurd (omega arith)
same-last_upper (x ∷ w ∷ xs) (y ∷ z ∷ ys) l h =
    same-last_upper (w ∷ xs) (z ∷ ys) (omega arith) (ground arith)

compare-rank : (xs ys : List ℕ) → compare_bstr_no_case xs ys ≡ true → rank xs ≡ rank ys
unfolding compare_bstr_no_case rank
compare-rank xs ys h =
    omega
      (arith, same_length xs ys h, same-last_upper xs ys (same_length xs ys h) (same_rest xs ys h))
  where
    same_length : (xs ys : List ℕ) → compare_bstr_no_case xs ys ≡ true → length xs ≡ length ys
    same_length xs ys h = ground arith

    same_rest : (xs ys : List ℕ) → compare_bstr_no_case xs ys ≡ true → same_bytes xs ys ≡ true
    same_rest xs ys h = ground arith

last_upper-append : (name : List ℕ) → last_upper (name ++ b'.' ∷ b'1' ∷ []) ≡ 0x31
unfolding last_upper to_upper
last_upper-append [] = refl
last_upper-append (c ∷ []) = refl
last_upper-append (c ∷ d ∷ cs) = last_upper-append (d ∷ cs)

length-next_digit : (name : List ℕ) → length (next_digit name) ≡ length name
unfolding next_digit
length-next_digit [] = refl
length-next_digit (c ∷ []) = refl
length-next_digit (c ∷ d ∷ cs) = ap (λ (n : ℕ). suc n) (length-next_digit (d ∷ cs))

unfoldable pub last_byte : List ℕ → ℕ
last_byte [] = 0
last_byte (c ∷ []) = c
last_byte (c ∷ d ∷ cs) = last_byte (d ∷ cs)

get_or-last_byte : (name : List ℕ) → get_or name (length name - 1) 0 ≡ last_byte name
unfolding last_byte
get_or-last_byte [] = refl
get_or-last_byte (c ∷ []) = refl
get_or-last_byte (c ∷ d ∷ cs) =
    let before : suc (suc (length cs)) - 1 ≡ suc (length (d ∷ cs) - 1) = omega arith in
    rw before (get_or-last_byte (d ∷ cs))

next_digit-last_upper :
    (name : List ℕ)
    → 0x30 ≤ last_byte name
    → last_byte name < 0x39
    → last_upper (next_digit name) ≡ last_upper name + 1
unfolding last_byte last_upper next_digit
next_digit-last_upper [] lo hi = absurd (omega arith)
next_digit-last_upper (c ∷ []) lo hi =
    let small : (c + 1) % 256 ≡ c + 1 = omega arith in
    rw small (
      omega (
        arith,
        to_upper_digit c (omega arith) (omega arith),
        to_upper_digit (c + 1) (omega arith) (omega arith),
      ))
next_digit-last_upper (c ∷ d ∷ []) lo hi = next_digit-last_upper (d ∷ []) lo hi
next_digit-last_upper (c ∷ d ∷ e ∷ cs) lo hi = next_digit-last_upper (d ∷ e ∷ cs) lo hi

pub digit_of :
    (name : List ℕ) → ends_in_digit name ≡ true → (0x30 ≤ last_byte name) × (last_byte name < 0x39)
unfolding ends_in_digit
digit_of name h = ground (arith, get_or-last_byte name)

add_one_short : (name : List ℕ) → length name ≤ 253 → add_one name ≡ name ++ b'.' ∷ b'1' ∷ []
unfolding add_one
add_one_short name h =
    let most : (length name == 255) ≡ false = ground arith in
    let more : (length name == 254) ≡ false = ground arith in rw (most, more) refl

-- As long as the length byte does not wrap around, a new name ranks above the old one, and is at most two
-- bytes longer.
pub rename-rank :
    (name : List ℕ)
    → length name ≤ 253
    → (rank name < rank (rename name)) × (length (rename name) ≤ length name + 2)
unfolding rename rank
rename-rank name h = elim (Bool-cases (ends_in_digit name)) [
  | inl yes_digit ↦
      let (lo, hi) = digit_of name yes_digit in
      let same_length = length-next_digit name in
      rw yes_digit
        (omega (arith, same_length, next_digit-last_upper name lo hi), omega (arith, same_length))
  | inr other ↦
      let longer = length-append name (b'.' ∷ b'1' ∷ []) in
      rw (other, add_one_short name h)
        (omega (arith, longer, last_upper-append name, last_upper-lt name), omega (arith, longer))
]

-- The names on the list at or above a rank.
pub above : ℕ → List (List ℕ) → ℕ
above k [] = 0
above k (n ∷ ns) = (if leb k (rank n) then 1 else 0) + above k ns

above-le : (j k : ℕ) (ns : List (List ℕ)) → j ≤ k → above k ns ≤ above j ns
unfolding above
above-le j k [] h = omega arith
above-le j k (n ∷ ns) h = ground (arith, above-le j k ns h)

pub above-length : (k : ℕ) (ns : List (List ℕ)) → above k ns ≤ length ns
unfolding above
above-length k [] = omega arith
above-length k (n ∷ ns) = ground (arith, above-length k ns)

-- Renaming leaves a name that is met behind.
pub above-lt :
    (name : List ℕ) (k : ℕ) (ns : List (List ℕ))
    → rank name < k
    → is_taken name ns ≡ true
    → above k ns < above (rank name) ns
unfolding above is_taken
above-lt name k [] h t = cc
above-lt name k (n ∷ ns) h t = elim (Bool-cases (compare_bstr_no_case name n)) [
  | inl met ↦
      let same = compare-rank name n met in ground (arith, above-le (rank name) k ns (omega arith))
  | inr other ↦ ground (arith, above-lt name k ns h (rw other at t))
]
