-- ===== src/Port/Callout/Removed.antt =====
-- Taking a callout off the list.
use mathlib.Core.Path.{subst}
use a4091_software.Base.{
  ℕ, ◌≡◌, refl, sym, ◌∙◌, Bool, true, false, Option, some, List, [], ◌∷◌, ◌==◌, if◌then◌else◌,
  arith, Bool-cases, inl, inr,
}
use a4091_software.Port.Callout.{Callouts, edit, edit_if, set_next, set_prev, is_head}
use a4091_software.Port.Callout.Linked.{
  Seg, Absent, Distinct, edit_same, edit_if_other, Seg-edit, Seg-set_prev, Seg-head,
}

unfoldable pub is_on : ℕ → List ℕ → Bool
is_on c [] = false
is_on c (x ∷ xs) = if x == c then true else is_on c xs

unfoldable pub unlink : ℕ → List ℕ → List ℕ
unlink c [] = []
unlink c (x ∷ xs) = if x == c then xs else x ∷ unlink c xs

pub is_on→Absent : (c : ℕ) (xs : List ℕ) → is_on c xs ≡ false → Absent c xs
unfolding is_on Absent
is_on→Absent c [] h = tt
is_on→Absent c (x ∷ xs) h = elim (Bool-cases (x == c)) [
  | inl same ↦ absurd (stuck (rw same at h))
  | inr other ↦ (other, is_on→Absent c xs (rw other at h))
]
  where
    stuck : true ≡ false → ⊥
    stuck e = cc

pub unlink_missing : (c : ℕ) (xs : List ℕ) → Absent c xs → unlink c xs ≡ xs
unfolding unlink Absent
unlink_missing c [] a = refl
unlink_missing c (x ∷ xs) (other, a) = rw (other, unlink_missing c xs a) refl

Absent-unlink : (c d : ℕ) (xs : List ℕ) → Absent d xs → Absent d (unlink c xs)
unfolding unlink Absent
Absent-unlink c d [] a = a
Absent-unlink c d (x ∷ xs) (other, a) = elim (Bool-cases (x == c)) [
  | inl same ↦ rw same a
  | inr differs ↦ rw differs (other, Absent-unlink c d xs a)
]

pub Distinct-unlink : (c : ℕ) (xs : List ℕ) → Distinct xs → Distinct (unlink c xs)
unfolding unlink Distinct
Distinct-unlink c [] d = d
Distinct-unlink c (x ∷ xs) (a, d) = elim (Bool-cases (x == c)) [
  | inl same ↦ rw same d
  | inr differs ↦ rw differs (Absent-unlink c x xs a, Distinct-unlink c xs d)
]

pub unlink-Absent : (c : ℕ) (xs : List ℕ) → Distinct xs → Absent c (unlink c xs)
unfolding unlink Distinct Absent
unlink-Absent c [] d = tt
unlink-Absent c (x ∷ xs) (a, d) = elim (Bool-cases (x == c)) [
  | inl same ↦ let e : x ≡ c = ground arith in rw (same) (rw e at a)
  | inr differs ↦ rw differs (differs, unlink-Absent c xs d)
]

-- What a callout behind another one links to is neither itself nor one that stands elsewhere.
neighbours :
    (s : Callouts) (c d : ℕ) (q : Option ℕ) (r : ℕ) (rs : List ℕ)
    → Seg s.at q (some r) (r ∷ rs)
    → is_on c rs ≡ true
    → Absent d (r ∷ rs)
    → (is_head d (s.at c).prev ≡ false) × (is_head d (s.at c).next ≡ false)
unfolding Seg is_on Absent
neighbours s c d q r [] seg on a = absurd (stuck on)
  where
    stuck : false ≡ true → ⊥
    stuck e = cc
neighbours s c d q r (k ∷ ks) (here, back, (next, prev, rest)) on (other, (others, a)) =
    elim (Bool-cases (k == c)) [
      | inl same ↦
          let e : k ≡ c = ground arith in
          (rw (sym e, prev) other, rw (sym e) (Seg-head s d (some k) (s.at k).next ks a rest))
      | inr differs ↦
          neighbours s c d (some r) k ks (refl, prev, rest) (rw differs at on) (others, a)
    ]

pub not_before_itself :
    (s : Callouts) (c : ℕ) (q : Option ℕ) (r : ℕ) (rs : List ℕ)
    → Seg s.at q (some r) (r ∷ rs)
    → is_on c rs ≡ true
    → Distinct (r ∷ rs)
    → is_head c (s.at c).prev ≡ false
unfolding Seg is_on Distinct Absent
not_before_itself s c q r [] seg on d = absurd (stuck on)
  where
    stuck : false ≡ true → ⊥
    stuck e = cc
not_before_itself s c q r (k ∷ ks) (here, back, (next, prev, rest)) on ((other, a), d) =
    elim (Bool-cases (k == c)) [
      | inl same ↦ let e : k ≡ c = ground arith in rw (sym e, prev) (ground arith)
      | inr differs ↦ not_before_itself s c (some r) k ks (refl, prev, rest) (rw differs at on) d
    ]

-- The links that the removal writes where the callout is not the head.
unfoldable pub bridge : Option ℕ → Option ℕ → Callouts → Callouts
bridge prev next s = edit_if next (set_prev prev) (edit_if prev (set_next next) s)

pub bridge_other :
    (prev next : Option ℕ) (s : Callouts) (d : ℕ)
    → is_head d prev ≡ false
    → is_head d next ≡ false
    → (bridge prev next s).at d ≡ s.at d
unfolding bridge
bridge_other prev next s d before behind =
    edit_if_other next d (set_prev prev) (edit_if prev (set_next next) s) behind
    ∙ edit_if_other prev d (set_next next) s before

-- The callout stands right behind r.
bridge_next :
    (s : Callouts) (q next : Option ℕ) (r c : ℕ) (ks : List ℕ)
    → (s.at r).prev ≡ q
    → Absent r ks
    → Distinct ks
    → Seg s.at (some c) next ks
    → Seg (bridge (some r) next s).at q (some r) (r ∷ ks)
unfolding Seg bridge edit_if
bridge_next s q next r c ks back a d rest =
    let s1 = edit r (set_next next) s in
    let kept = Seg-edit r (set_next next) s (some c) next ks a rest in
    let first =
      edit_if_other next r (set_prev (some r)) s1 (Seg-head s r (some c) next ks a rest)
      ∙ edit_same r (set_next next) s in
    (refl, rw first back, rw first (Seg-set_prev s1 (some c) (some r) next ks d kept))

pub bridge-Seg :
    (s : Callouts) (c : ℕ) (q : Option ℕ) (r : ℕ) (rs : List ℕ)
    → Seg s.at q (some r) (r ∷ rs)
    → is_on c rs ≡ true
    → Distinct (r ∷ rs)
    → Seg (bridge (s.at c).prev (s.at c).next s).at q (some r) (r ∷ unlink c rs)
unfolding is_on Distinct unlink Seg Absent
bridge-Seg s c q r [] seg on d = absurd (stuck on)
  where
    stuck : false ≡ true → ⊥
    stuck e = cc
bridge-Seg s c q r (k ∷ ks) (here, back, (next, prev, rest)) on ((other, a), d) =
    elim (Bool-cases (k == c)) [
      | inl same ↦
          let e : k ≡ c = ground arith in
          rw same (
            subst (λ (o : Option ℕ). Seg (bridge o (s.at c).next s).at q (some r) (r ∷ ks))
              (sym (rw e at prev)) (bridge_next s q (s.at c).next r c ks back a d.1 (rw e at rest)))
      | inr differs ↦
          let deep : is_on c ks ≡ true = rw differs at on in
          let (before, behind) =
            neighbours s c r (some r) k ks (refl, prev, rest) deep (other, a) in
          let same = bridge_other (s.at c).prev (s.at c).next s r before behind in
          let kept = bridge-Seg s c (some r) k ks (refl, prev, rest) deep d in
          rw differs (refl, rw same back, (rw same next, kept.1, kept.2))
    ]
