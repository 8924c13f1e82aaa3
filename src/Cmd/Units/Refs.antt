-- ===== src/Cmd/Units/Refs.antt =====
-- The list of open units: no target and no peripheral stands in it twice, and closing undoes opening.
use a4091_software.Base.{
  ℕ, suc, ◌+◌, ◌%◌, ◌^◌, ◌≤◌, ◌<◌, ◌≡◌, ◌≢◌, Bool, true, false, ◌||◌, none, some, List, [], ◌∷◌,
  ◌==◌, if◌then◌else◌, arith, ◌⊎◌, Bool-cases, inl, inr, Option-cases,
}
use a4091_software.Base.Int.{pos}
use a4091_software.Cmd.Units.{Entry, Units, Attached, bump, unref, open_unit, close_unit}
use a4091_software.Cmd.Units.Failed.{has_target, bump-none}

unfoldable pub has_periph : ℕ → List Entry → Bool
has_periph periph [] = false
has_periph periph (u ∷ us) = u.periph == periph || has_periph periph us

-- Targets and peripherals are distinct, and each entry has between 1 and `most` references.
unfoldable pub Distinct : ℕ → List Entry → Type 0
Distinct most [] = Unit
Distinct most (u ∷ us) =
    (has_target u.scsi_target us ≡ false)
    × (has_periph u.periph us ≡ false)
    × (0 < u.count)
    × (u.count ≤ most)
    × Distinct most us

bump-has_periph :
    (target : ℕ) (us : List Entry) {p : ℕ} {vs : List Entry}
    → bump target us ≡ some (p, vs)
    → has_periph p us ≡ true
unfolding bump has_periph
bump-has_periph target [] h = cc
bump-has_periph target (u ∷ us) {p} {vs} h = elim (Option-cases (bump target us)) [
  | inl e ↦ ground arith
  | inr ((q, ws), e) ↦ ground (arith, bump-has_periph target us {p = q} {vs = ws} e)
]

-- The reference that `bump` adds to the first entry is the one that `unref` takes.
head-unref :
    (most : ℕ) (u : Entry) (us : List Entry)
    → most + 1 < 2 ^ 32
    → 0 < u.count
    → u.count ≤ most
    → unref u.periph (record u { count = (u.count + 1) % 2 ^ 32 } ∷ us) ≡ some (false, u ∷ us)
unfolding unref
head-unref most u us b low high = ground arith

tail-unref :
    (u : Entry) (p : ℕ) (ws : List Entry) {us : List Entry} {last : Bool}
    → u.periph ≢ p
    → unref p ws ≡ some (last, us)
    → unref p (u ∷ ws) ≡ some (last, u ∷ us)
unfolding unref
tail-unref u p ws ne e = ground arith

ne_of_has : (a p : ℕ) (us : List Entry) → has_periph a us ≡ false → has_periph p us ≡ true → a ≢ p
ne_of_has a p us f t e = cc

-- Where `bump` finds the target: in the first entry, or behind it.
bump-cases :
    (target : ℕ) (u : Entry) (us : List Entry) {p : ℕ} {vs : List Entry}
    → bump target (u ∷ us) ≡ some (p, vs)
    → ((p ≡ u.periph) × (vs ≡ record u { count = (u.count + 1) % 2 ^ 32 } ∷ us)
        ⊎ ((ws : List Entry) × (bump target us ≡ some (p, ws)) × (vs ≡ u ∷ ws)))
unfolding bump
bump-cases target u us {p} {vs} h = elim (Bool-cases (u.scsi_target == target)) [
  | inl hit ↦ inl (ground arith, ground arith)
  | inr miss ↦ elim (Option-cases (bump target us)) [
    | inl e ↦ absurd (ground arith)
    | inr ((q, ws), e) ↦ inr (ws, ground arith, ground arith)
  ]
]

bump-unref :
    (most target : ℕ) (us : List Entry) {p : ℕ} {vs : List Entry}
    → most + 1 < 2 ^ 32
    → Distinct most us
    → bump target us ≡ some (p, vs)
    → unref p vs ≡ some (false, us)
unfolding Distinct
bump-unref most target [] b d h = absurd (unfold bump in cc)
bump-unref most target (u ∷ us) {p} {vs} b (_, alone, low, high, d) h =
    elim (bump-cases target u us h) [
      | inl (here, changed) ↦ rw (here, changed) (head-unref most u us b low high)
      | inr (ws, e, changed) ↦ rw changed (
          tail-unref u p ws (ne_of_has _ _ us alone (bump-has_periph target us e))
            (bump-unref most target us b d e))
    ]

bump-some :
    (target : ℕ) (us : List Entry)
    → has_target target us ≡ true
    → (r : ℕ × List Entry) × (bump target us ≡ some r)
unfolding bump has_target
bump-some target [] h = absurd (ground arith)
bump-some target (u ∷ us) h = elim (Bool-cases (u.scsi_target == target)) [
  | inl hit ↦ ((u.periph, record u { count = (u.count + 1) % 2 ^ 32 } ∷ us), ground arith)
  | inr miss ↦ let ((q, ws), e) = bump-some target us (ground arith) in ((q, u ∷ ws), ground arith)
]

module _ (memory : Bool) (attached : Attached) (target flags : ℕ) {p : ℕ} (s : Units) {t : Units}
    (opened : open_unit memory attached target flags s ≡ (t, pos 0, some p)) where
  opened_new :
      bump target s.entries ≡ none
      → t ≡ record {
        entries = record { periph = p; scsi_target = target; count = 1 } ∷ s.entries;
        allocated = suc s.allocated;
      }
  unfolding open_unit
  opened_new e = ground arith

  opened_again :
      (q : ℕ) (ws : List Entry)
      → bump target s.entries ≡ some (q, ws)
      → (t ≡ record s { entries = ws }) × (p ≡ q)
  unfolding open_unit
  opened_again q ws e = (ground arith, ground arith)

close_first :
    (p target : ℕ) (s : Units)
    → close_unit p (record {
      entries = record { periph = p; scsi_target = target; count = 1 } ∷ s.entries;
      allocated = suc s.allocated;
    })
      ≡ (s, some p)
unfolding close_unit
close_first p target s = ground arith

close_again :
    (p : ℕ) (ws : List Entry) (s : Units)
    → unref p ws ≡ some (false, s.entries)
    → close_unit p (record s { entries = ws }) ≡ (s, none)
unfolding close_unit
close_again p ws s e = rw (e, close_unit)

-- Closing what a successful `open_unit` opened gives the list back as it was, and detaches the
-- peripheral exactly if the target was not open before; for a list in which no target and no
-- peripheral stands twice and each has at most 2 ^ 32 - 2 references.
pub close_unit-open :
    (most : ℕ) (memory : Bool) (attached : Attached) (target flags : ℕ) {p : ℕ} (s : Units)
    {t : Units}
    → most + 1 < 2 ^ 32
    → Distinct most s.entries
    → open_unit memory attached target flags s ≡ (t, pos 0, some p)
    → close_unit p t ≡ (s, if has_target target s.entries then none else some p)
close_unit-open most memory attached target flags {p} s b d h =
    elim (Bool-cases (has_target target s.entries)) [
      | inl yes_open ↦
          let ((q, ws), e) = bump-some target s.entries yes_open in
          let (same, unit) = opened_again memory attached target flags s h q ws e in
          rw (yes_open, same, unit) (close_again q ws s (bump-unref most target s.entries b d e))
      | inr closed ↦
          rw
            (
              closed,
              opened_new memory attached target flags s h (bump-none target s.entries closed),
            )
            (close_first p target s)
    ]
