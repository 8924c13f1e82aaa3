-- ===== src/Siop/Queue/Count.antt =====
-- Weights on the queues of siop.c: how often an id, or a LUN of a target, stands in them.
pub use a4091_software.Base.{In, here, there}
use a4091_software.Base.{
  ℕ, ◌+◌, ◌≤◌, ◌≡◌, refl, Bool, true, false, ◌&&◌, Option, none, some, List, [], ◌∷◌, ◌++◌, ◌==◌,
  if◌then◌else◌, arith, Bool-cases, inl, inr,
}
use a4091_software.Siop.Queue.{Acb, take_first, is_last, is_in, remove, set_busy}

unfoldable pub bit : Bool → ℕ
bit b = if b then 1 else 0

unfoldable pub weight : (Acb → ℕ) → List Acb → ℕ
weight f [] = 0
weight f (a ∷ rest) = f a + weight f rest

-- The ACB of the nexus, in a list.
unfoldable pub opt : Option Acb → List Acb
opt none = []
opt (some a) = a ∷ []

unfoldable pub same : ℕ → Acb → ℕ
unfolding bit
same k a = bit (a.id == k)

unfoldable pub at : (t l : ℕ) → Acb → ℕ
unfolding bit
at t l a = bit (t == a.target && l == a.lun)

unfoldable pub one : Acb → ℕ
one a = 1

pub weight-append :
    (f : Acb → ℕ) (xs ys : List Acb) → weight f (xs ++ ys) ≡ weight f xs + weight f ys
unfolding weight
weight-append f [] ys = omega arith
weight-append f (x ∷ xs) ys = omega (arith, weight-append f xs ys)

-- What a test takes out satisfies it, and nothing else is gone; where it takes nothing, all fail it.
unfoldable pub Taken : (Acb → Bool) → List Acb → Option (Acb × List Acb) → Type 0
Taken p xs none = (a : Acb) → In a xs → p a ≡ false
Taken p xs (some r) = (p r.0 ≡ true) × ((f : Acb → ℕ) → weight f xs ≡ f r.0 + weight f r.1)

pub nil-In : (a : Acb) → In a [] → ⊥
nil-In a i = elim i [ ]

fails_all :
    (p : Acb → Bool) (a : Acb) (rest : List Acb)
    → p a ≡ false
    → ((b : Acb) → In b rest → p b ≡ false)
    → (b : Acb) → In b (a ∷ rest)
    → p b ≡ false
fails_all p a rest fails t _ (here _) = fails
fails_all p a rest fails t b (there _ _ i) = t b i

Taken-cons :
    (p : Acb → Bool) (a : Acb) (rest : List Acb) (o : Option (Acb × List Acb))
    → p a ≡ false
    → Taken p rest o
    → Taken p (a ∷ rest) (elim o [ none ↦ none | some r ↦ some (r.0, a ∷ r.1) ])
unfolding Taken weight
Taken-cons p a rest none fails t = fails_all p a rest fails t
Taken-cons p a rest (some r) fails (ok, w) = (ok, λ f. omega (arith, w f))

pub take_first-Taken : (p : Acb → Bool) (xs : List Acb) → Taken p xs (take_first p xs)
unfolding take_first Taken weight
take_first-Taken p [] = λ a i. absurd (nil-In a i)
take_first-Taken p (a ∷ rest) = elim (Bool-cases (p a)) [
  | inl ok ↦ rw ok (ok, λ f. refl)
  | inr fails ↦ rw fails (Taken-cons p a rest (take_first p rest) fails (take_first-Taken p rest))
]

-- A busy bit that is set or cleared, beside the number of commands it stands for.
pub set_busy-mark :
    (a : Acb) (busy : ℕ → ℕ → Bool) (t l n : ℕ)
    → busy a.target a.lun ≡ false
    → n ≡ bit (busy t l)
    → at t l a + n ≡ bit (set_busy a true busy t l)
unfolding at bit set_busy
set_busy-mark a busy t l n idle e = elim (Bool-cases (t == a.target && l == a.lun)) [
  | inl this ↦
      let et : t ≡ a.target = ground arith in
      let el : l ≡ a.lun = ground arith in
      let free : busy t l ≡ false = rw (et, el) idle in rw this (omega (arith, rw free at e))
  | inr other ↦ rw other (omega (arith, e))
]

pub set_busy-clear :
    (a : Acb) (busy : ℕ → ℕ → Bool) (t l n : ℕ)
    → at t l a + n ≡ bit (busy t l)
    → n ≡ bit (set_busy a false busy t l)
unfolding at bit set_busy
set_busy-clear a busy t l n e = ground arith

pub In-same : (a : Acb) (xs : List Acb) → In a xs → 1 ≤ weight (same a.id) xs
unfolding weight same bit
In-same a [] i = elim i [ ]
In-same a (_ ∷ rest) (here _) = ground arith
In-same a (b ∷ rest) (there _ _ i) = omega (arith, In-same a rest i)

pub is_last-same : (a : Acb) (xs : List Acb) → is_last a xs ≡ true → 1 ≤ weight (same a.id) xs
unfolding weight same bit is_last
is_last-same a [] h = absurd (cc h)
is_last-same a (b ∷ []) h = ground arith
is_last-same a (b ∷ c ∷ bs) h = omega (arith, is_last-same a (c ∷ bs) h)

pub In-is_in : (a : Acb) (xs : List Acb) → In a xs → is_in a xs ≡ true
unfolding is_in
In-is_in a [] i = elim i [ ]
In-is_in a (_ ∷ rest) (here _) = ground arith
In-is_in a (b ∷ rest) (there _ _ i) = rw (In-is_in a rest i) (ground arith)

pub is_in-same : (a : Acb) (xs : List Acb) → is_in a xs ≡ true → 1 ≤ weight (same a.id) xs
unfolding weight same bit is_in
is_in-same a [] h = absurd (cc h)
is_in-same a (b ∷ rest) h = elim (Bool-cases (b.id == a.id)) [
  | inl same_id ↦ ground arith
  | inr other ↦ omega (arith, is_in-same a rest (rw other at h))
]

-- Where the id stands once, `remove` takes out the ACB itself.
pub remove-weight :
    (a : Acb) (xs : List Acb) (f : Acb → ℕ)
    → In a xs
    → weight (same a.id) xs ≤ 1
    → weight f xs ≡ f a + weight f (remove a xs)
unfolding weight same bit remove
remove-weight a [] f i once = elim i [ ]
remove-weight a (_ ∷ rest) f (here _) once =
    let self : (a.id == a.id) ≡ true = ground arith in rw self refl
remove-weight a (b ∷ rest) f (there _ _ i) once = elim (Bool-cases (b.id == a.id)) [
  | inl twin ↦
      let two : 1 + weight (same a.id) rest ≤ 1 = rw twin at once in
      absurd (omega (arith, two, In-same a rest i))
  | inr other ↦
      let here : 0 + weight (same a.id) rest ≤ 1 = rw other at once in
      rw other (omega (arith, remove-weight a rest f i (omega (arith, here))))
]
