-- ===== src/Mounter/Names/Strings.antt =====
-- The names that `CheckAndFixDevName` makes of C strings are C strings.
use a4091_software.Base.{
  ℕ, zero, suc, ◌<◌, ◌≡◌, ◌≢◌, refl, false, some, List, [], ◌∷◌, ◌++◌, ◌==◌, length, arith,
  Bool-cases, inl, inr,
}
use a4091_software.Mounter.Names.{
  ends_in_digit, next_digit, add_one, rename, c_string, is_taken, check_and_fix_dev_name,
}
use a4091_software.Mounter.Names.Climb.{digit_of, last_byte}

-- A name without a NUL.
unfoldable pub IsString : List ℕ → Type 0
IsString [] = Unit
IsString (c ∷ cs) = (c ≢ 0) × IsString cs

pub c_string_all : (name : List ℕ) → IsString name → c_string name ≡ name
unfolding c_string IsString
c_string_all [] h = refl
c_string_all (c ∷ cs) (h, hs) =
    let here : (c == 0) ≡ false = ground arith in rw (here, c_string_all cs hs) refl

IsString-append : (name : List ℕ) → IsString name → IsString (name ++ b'.' ∷ b'1' ∷ [])
unfolding IsString
IsString-append [] h = (omega arith, (omega arith, tt))
IsString-append (c ∷ cs) (h, hs) = (h, IsString-append cs hs)

next_digit-IsString :
    (name : List ℕ) → last_byte name < 0x39 → IsString name → IsString (next_digit name)
unfolding next_digit last_byte IsString
next_digit-IsString [] low h = tt
next_digit-IsString (c ∷ []) low h = (omega arith, tt)
next_digit-IsString (c ∷ d ∷ cs) low (h, hs) = (h, next_digit-IsString (d ∷ cs) low hs)

add_one-IsString : (name : List ℕ) → IsString name → IsString (add_one name)
unfolding add_one IsString
add_one-IsString name h = elim (Bool-cases (length name == 255)) [
  | inl full ↦ rw full (omega arith, tt)
  | inr other ↦ elim (Bool-cases (length name == 254)) [
    | inl almost ↦ rw (other, almost) tt
    | inr room ↦ rw (other, room) (IsString-append name h)
  ]
]

rename-IsString : (name : List ℕ) → IsString name → IsString (rename name)
unfolding rename
rename-IsString name h = elim (Bool-cases (ends_in_digit name)) [
  | inl digit ↦ rw digit (next_digit-IsString name (digit_of name digit).1 h)
  | inr other ↦ rw other (add_one-IsString name h)
]

pub fix-IsString :
    (fuel : ℕ) (ns : List (List ℕ)) (name : List ℕ) {r : List ℕ}
    → IsString name
    → check_and_fix_dev_name fuel ns name ≡ some r
    → IsString r
unfolding check_and_fix_dev_name
fix-IsString zero ns name h e = absurd (ground arith)
fix-IsString (suc fuel) ns name {r} h e = elim (Bool-cases (is_taken name ns)) [
  | inl met ↦ fix-IsString fuel ns (rename name) {r = r} (rename-IsString name h) (rw met at e)
  | inr free ↦ let same : name ≡ r = cc (rw free at e) in rw same at h
]
