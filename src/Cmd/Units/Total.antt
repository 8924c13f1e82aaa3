-- ===== src/Cmd/Units/Total.antt =====
-- The number of references to the open units, as `bump` and `unref` change it.
use a4091_software.Base.{
  ℕ, ◌+◌, ◌-◌, ◌%◌, ◌^◌, ◌<◌, ◌≡◌, refl, inl, inr, Bool, true, false, some, List, [], ◌∷◌, arith,
  ltb, ◌==◌, if◌then◌else◌, Bool-cases, Option-cases,
}
use a4091_software.Base.Int.{is_zero}
use a4091_software.Cmd.Units.{Entry, Units, Attached, bump, unref, open_unit, close_unit}
use a4091_software.Cmd.Units.Refs.{has_periph}

pub total : List Entry → ℕ
total [] = 0
total (u ∷ us) = u.count + total us

pub Positive : List Entry → Type 0
Positive [] = Unit
Positive (u ∷ us) = (0 < u.count) × Positive us

bump-total :
    (target : ℕ) (us : List Entry) {p : ℕ} {vs : List Entry}
    → total us + 1 < 2 ^ 32
    → Positive us
    → bump target us ≡ some (p, vs)
    → (total vs ≡ total us + 1) × Positive vs
unfolding bump total Positive
bump-total target [] b k h = cc
bump-total target (u ∷ us) {p} {vs} b k h = elim (Bool-cases (u.scsi_target == target)) [
  | inl hit ↦
      let same : vs ≡ record u { count = (u.count + 1) % 2 ^ 32 } ∷ us = ground arith in
      rw same (omega arith, (omega arith, k.1))
  | inr miss ↦ elim (Option-cases (bump target us)) [
    | inl e ↦ absurd (ground arith)
    | inr ((q, ws), e) ↦
        let (sum, rest) = bump-total target us {p = q} {vs = ws} (omega arith) k.1 e in
        let same : vs ≡ u ∷ ws = ground arith in rw same (omega arith, (k.0, rest))
  ]
]

unref-total :
    (p : ℕ) (us : List Entry) {last : Bool} {vs : List Entry}
    → total us < 2 ^ 32
    → Positive us
    → unref p us ≡ some (last, vs)
    → (total us ≡ total vs + 1) × Positive vs
unfolding unref total Positive
unref-total p [] b k h = cc
unref-total p (u ∷ us) {last} {vs} b k h = elim (Bool-cases (u.periph == p)) [
  | inl hit ↦ elim (Bool-cases (ltb 0 ((u.count + 2 ^ 32 - 1) % 2 ^ 32))) [
    | inl more ↦
        let same : vs ≡ record u { count = (u.count + 2 ^ 32 - 1) % 2 ^ 32 } ∷ us = ground arith in
        rw same (omega arith, (ground arith, k.1))
    | inr one ↦ let same : vs ≡ us = ground arith in rw same (ground arith, k.1)
  ]
  | inr miss ↦ elim (Option-cases (unref p us)) [
    | inl e ↦ absurd (ground arith)
    | inr ((l, ws), e) ↦
        let (sum, rest) = unref-total p us {last = l} {vs = ws} (omega arith) k.1 e in
        let same : vs ≡ u ∷ ws = ground arith in rw same (omega arith, (k.0, rest))
  ]
]

unref-some :
    (p : ℕ) (us : List Entry)
    → has_periph p us ≡ true
    → (r : Bool × List Entry) × (unref p us ≡ some r)
unfolding unref has_periph
unref-some p [] h = absurd (ground arith)
unref-some p (u ∷ us) h = elim (Bool-cases (u.periph == p)) [
  | inl hit ↦ elim (Bool-cases (ltb 0 ((u.count + 2 ^ 32 - 1) % 2 ^ 32))) [
    | inl more ↦ ((false, record u { count = (u.count + 2 ^ 32 - 1) % 2 ^ 32 } ∷ us), ground arith)
    | inr one ↦ ((true, us), ground arith)
  ]
  | inr miss ↦
      let ((last, vs), e) = unref-some p us (ground arith) in ((last, u ∷ vs), ground arith)
]

-- Opening adds a reference exactly if it succeeds.
pub open_unit-total :
    (memory : Bool) (attached : Attached) (target flags : ℕ) (s : Units)
    → total s.entries + 1 < 2 ^ 32
    → Positive s.entries
    → let r = open_unit memory attached target flags s in
      (total r.0.entries ≡ total s.entries + (if is_zero r.1 then 1 else 0)) × Positive r.0.entries
unfolding open_unit total Positive
open_unit-total memory attached target flags s b k = elim (Option-cases (bump target s.entries)) [
  | inl e ↦ (ground arith, ground arith)
  | inr ((p, vs), e) ↦
      let (sum, rest) = bump-total target s.entries b k e in rw (e, open_unit) (sum, rest)
]

-- Closing an open peripheral takes one.
pub close_unit-total :
    (p : ℕ) (s : Units)
    → total s.entries < 2 ^ 32
    → Positive s.entries
    → has_periph p s.entries ≡ true
    → let r = close_unit p s in (total s.entries ≡ total r.0.entries + 1) × Positive r.0.entries
unfolding close_unit
close_unit-total p s b k h =
    let ((last, vs), e) = unref-some p s.entries h in
    let both = unref-total p s.entries b k e in
    elim last
        as (λ l.
          unref p s.entries ≡ some (l, vs)
          → (total s.entries ≡ total (close_unit p s).0.entries + 1)
            × Positive (close_unit p s).0.entries) [
              | true ↦ λ f. rw (f, close_unit) both
              | false ↦ λ f. rw (f, close_unit) both
            ]
      e

-- No reference is left exactly where no unit is open.
pub Positive-none : (us : List Entry) → Positive us → total us ≡ 0 → us ≡ []
unfolding total Positive
Positive-none [] k h = refl
Positive-none (u ∷ us) k h = absurd (omega arith)

pub Positive-nil : Positive []
unfolding Positive
Positive-nil = tt

pub total-nil : total [] ≡ 0
unfolding total
total-nil = refl
