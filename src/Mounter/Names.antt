-- ===== src/Mounter/Names.antt =====
-- Device names in mounter.c: `ToUpper`, `CompareBSTRNoCase` and `CheckAndFixDevName`. A name is the
-- bytes behind its length byte, at most 255 of them; the mount list is the list of its names.
pub mod Climb
pub mod Fresh
pub mod Strings
use a4091_software.Base.{
  ℕ, zero, suc, ◌+◌, ◌-◌, ◌%◌, Bool, true, false, ◌&&◌, ◌||◌, Option, none, some, List, [], ◌∷◌,
  ◌++◌, ◌==◌, leb, ltb, if◌then◌else◌, bit_or, length, get_or,
}

-- The test is true of every byte.
unfoldable pub to_upper : ℕ → ℕ
to_upper c = let b = c % 256 in if leb b'a' b || leb b b'z' then bit_or b 0x20 else b

same_bytes : List ℕ → List ℕ → Bool
same_bytes [] ys = true
same_bytes (x ∷ xs) [] = true
same_bytes (x ∷ xs) (y ∷ ys) = to_upper x == to_upper y && same_bytes xs ys

unfoldable pub compare_bstr_no_case : List ℕ → List ℕ → Bool
unfolding same_bytes
compare_bstr_no_case src1 src2 = length src1 == length src2 && same_bytes src1 src2

-- The string that starts at the first of some bytes: it ends at a NUL, and one follows the bytes.
unfoldable pub c_string : List ℕ → List ℕ
c_string [] = []
c_string (c ∷ cs) = let rest = c_string cs in if c == 0 then [] else c ∷ rest

-- Whether a name ends in a dot and a digit below 9, behind at least one other byte.
pub ends_in_digit : List ℕ → Bool
ends_in_digit name =
    let len = length name in
    let digit = get_or name (len - 1) 0 in
    ltb 2 len && (get_or name (len - 2) 0 == b'.' && (leb b'0' digit && ltb digit b'9'))

-- `name[len - 1]++`.
pub next_digit : List ℕ → List ℕ
next_digit [] = []
next_digit (c ∷ []) = ((c + 1) % 256) ∷ []
next_digit (c ∷ d ∷ cs) = c ∷ next_digit (d ∷ cs)

-- `name[len++]` twice and `bname[0] += 2`, where `len` and the length byte are 8 bits wide.
unfoldable pub add_one : List ℕ → List ℕ
add_one name =
    if length name == 255
    then b'1' ∷ []
    else if length name == 254
    then []
    else name ++ b'.' ∷ b'1' ∷ []

pub rename : List ℕ → List ℕ
unfolding ends_in_digit next_digit
rename name = if ends_in_digit name then next_digit name else add_one name

-- Whether the walk of the mount list meets the name.
unfoldable pub is_taken : List ℕ → List (List ℕ) → Bool
unfolding compare_bstr_no_case
is_taken name [] = false
is_taken name (n ∷ ns) = compare_bstr_no_case name n || is_taken name ns

-- Each time the name is found it is changed, and the walk starts again; `none` where the fuel runs
-- out.
unfoldable pub check_and_fix_dev_name : ℕ → List (List ℕ) → List ℕ → Option (List ℕ)
unfolding rename is_taken
check_and_fix_dev_name zero mount_list name = none
check_and_fix_dev_name (suc fuel) mount_list name =
    let again = check_and_fix_dev_name fuel mount_list (rename name) in
    if is_taken name mount_list then again else some name
