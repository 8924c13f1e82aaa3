-- ===== src/Port/Callout/Tidy.antt =====
-- The removal of a callout from the list, at its head, behind it, or where it is not on the list.
use mathlib.Core.Path.{subst}
use a4091_software.Base.{
  ℕ, ◌≡◌, ◌⊎◌, refl, sym, ◌∙◌, true, false, Option, none, some, List, [], ◌∷◌, ◌==◌, arith,
  Bool-cases, inl, inr,
}
use a4091_software.Port.Callout.{
  Callout, Callouts, edit, edit_if, set_next, set_prev, is_head, callout_remove,
}
use a4091_software.Port.Callout.Linked.{
  Seg, Absent, Distinct, Lists, edit_if_other, Seg-set_prev, Seg-head,
}
use a4091_software.Port.Callout.Removed.{
  is_on, unlink, is_on→Absent, unlink_missing, Distinct-unlink, not_before_itself, bridge,
  bridge-Seg,
}

edit_if-head : (o : Option ℕ) (f : Callout → Callout) (s : Callouts) → (edit_if o f s).head ≡ s.head
unfolding edit_if edit
edit_if-head none f s = refl
edit_if-head (some c) f s = refl

bridge-head : (prev next : Option ℕ) (s : Callouts) → (bridge prev next s).head ≡ s.head
unfolding bridge
bridge-head prev next s =
    edit_if-head next (set_prev prev) (edit_if prev (set_next next) s)
    ∙ edit_if-head prev (set_next next) s

remove_behind :
    (c : ℕ) (s : Callouts)
    → is_head c s.head ≡ false
    → is_head c (s.at c).prev ≡ false
    → callout_remove c s ≡ bridge (s.at c).prev (s.at c).next s
unfolding callout_remove bridge
remove_behind c s behind apart =
    let same = edit_if_other (s.at c).prev c (set_next (s.at c).next) s apart in
    rw behind (rw same refl)

remove_first :
    (c : ℕ) (s : Callouts)
    → is_head c s.head ≡ true
    → callout_remove c s ≡ edit_if (s.at c).next (set_prev none) (record s { head = (s.at c).next })
unfolding callout_remove
remove_first c s first = rw first refl

first-Lists :
    (c : ℕ) (s : Callouts) (xs : List ℕ) → Lists s (c ∷ xs) → Lists (callout_remove c s) xs
unfolding Lists Seg Distinct
first-Lists c s xs ((here, back, rest), (a, d)) =
    let next = (s.at c).next in
    let cut : Callouts = record s { head = next } in
    let first : is_head c s.head ≡ true = rw here (ground arith) in
    rw (remove_first c s first, edit_if-head next (set_prev none) cut)
      (Seg-set_prev cut (some c) none next xs d rest, d)

unlink_behind : (c x : ℕ) (xs : List ℕ) → (x == c) ≡ false → unlink c (x ∷ xs) ≡ x ∷ unlink c xs
unfolding unlink
unlink_behind c x xs differs = rw differs refl

listed :
    (s : Callouts) (cur : Option ℕ) (xs : List ℕ)
    → s.head ≡ cur
    → Seg s.at none cur xs
    → Distinct xs
    → Lists s xs
unfolding Lists
listed s cur xs e seg d = (subst (λ (o : Option ℕ). Seg s.at none o xs) (sym e) seg, d)

behind-Lists :
    (c x : ℕ) (s : Callouts) (xs : List ℕ)
    → (x == c) ≡ false
    → Lists s (x ∷ xs)
    → is_on c xs ≡ true
    → Lists (callout_remove c s) (x ∷ unlink c xs)
behind-Lists c x s xs differs h on =
    let seg : Seg s.at none s.head (x ∷ xs) = unfold Lists in h.0 in
    let d : Distinct (x ∷ xs) = unfold Lists in h.1 in
    let here : s.head ≡ some x = unfold Seg in seg.0 in
    let seg1 = subst (λ (o : Option ℕ). Seg s.at none o (x ∷ xs)) here seg in
    let apart = not_before_itself s c none x xs seg1 on d in
    let behind : is_head c s.head ≡ false = rw here differs in
    let kept = bridge-Seg s c none x xs seg1 on d in
    let head = bridge-head (s.at c).prev (s.at c).next s ∙ here in
    let ds : Distinct (x ∷ unlink c xs) =
      rw (unlink_behind c x xs differs) at (Distinct-unlink c (x ∷ xs) d) in
    rw (remove_behind c s behind apart)
      (listed (bridge (s.at c).prev (s.at c).next s) (some x) (x ∷ unlink c xs) head kept ds)

-- The removal of a callout on the list.
remove_on :
    (c : ℕ) (s : Callouts) (xs : List ℕ)
    → Lists s xs
    → is_on c xs ≡ true
    → Lists (callout_remove c s) (unlink c xs)
unfolding is_on unlink
remove_on c s [] h on = absurd (stuck on)
  where
    stuck : false ≡ true → ⊥
    stuck e = cc
remove_on c s (x ∷ xs) h on = elim (Bool-cases (x == c)) [
  | inl same ↦ let e : x ≡ c = ground arith in rw same (first-Lists c s xs (rw e at h))
  | inr differs ↦ rw differs (behind-Lists c x s xs differs h (rw differs at on))
]

-- A callout that is not on the list, and links to nothing.
remove_off :
    (c : ℕ) (s : Callouts) (xs : List ℕ)
    → Lists s xs
    → Absent c xs
    → (s.at c).next ≡ none
    → (s.at c).prev ≡ none
    → callout_remove c s ≡ s
unfolding Lists callout_remove edit_if
remove_off c s xs (seg, d) a next prev =
    let behind = Seg-head s c none s.head xs a seg in rw (behind, prev, next) refl

-- On the list, or with no links.
unfoldable pub Tidy : Callouts → List ℕ → ℕ → Type 0
Tidy s xs c =
    (is_on c xs ≡ true) ⊎ ((is_on c xs ≡ false) × ((s.at c).next ≡ none) × ((s.at c).prev ≡ none))

pub remove-Lists :
    (c : ℕ) (s : Callouts) (xs : List ℕ)
    → Lists s xs
    → Tidy s xs c
    → Lists (callout_remove c s) (unlink c xs)
unfolding Tidy
remove-Lists c s xs h tidy = elim tidy [
  | inl on ↦ remove_on c s xs h on
  | inr (off, next, prev) ↦
      let a = is_on→Absent c xs off in rw (remove_off c s xs h a next prev, unlink_missing c xs a) h
]
