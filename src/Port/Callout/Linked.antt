-- ===== src/Port/Callout/Linked.antt =====
-- The callouts stand on a doubly linked list, which adding and removing keep.
use mathlib.Core.Path.{subst}
use a4091_software.Base.{
  ℕ, ◌≡◌, refl, sym, ◌∙◌, true, false, Option, none, some, List, [], ◌∷◌, ◌==◌, arith,
}
use a4091_software.Port.Callout.{Callout, Callouts, edit, edit_if, set_prev, is_head, callout_add}

-- The callouts from an address on, behind another one.
unfoldable pub Seg : (ℕ → Callout) → Option ℕ → Option ℕ → List ℕ → Type 0
Seg at prev cur [] = cur ≡ none
Seg at prev cur (x ∷ xs) = (cur ≡ some x) × ((at x).prev ≡ prev) × Seg at (some x) (at x).next xs

unfoldable pub Absent : ℕ → List ℕ → Type 0
Absent c [] = Unit
Absent c (x ∷ xs) = ((x == c) ≡ false) × Absent c xs

unfoldable pub Distinct : List ℕ → Type 0
unfolding Absent
Distinct [] = Unit
Distinct (x ∷ xs) = Absent x xs × Distinct xs

-- The callouts on the list, the head first.
unfoldable pub Lists : Callouts → List ℕ → Type 0
unfolding Seg Distinct
Lists s xs = Seg s.at none s.head xs × Distinct xs

pub edit_other :
    (c k : ℕ) (f : Callout → Callout) (s : Callouts) → (k == c) ≡ false → (edit c f s).at k ≡ s.at k
unfolding edit
edit_other c k f s e = rw e refl

pub edit_same : (c : ℕ) (f : Callout → Callout) (s : Callouts) → (edit c f s).at c ≡ f (s.at c)
unfolding edit
edit_same c f s = let same : (c == c) ≡ true = ground arith in rw same refl

pub Seg-edit :
    (c : ℕ) (f : Callout → Callout) (s : Callouts) (prev cur : Option ℕ) (xs : List ℕ)
    → Absent c xs
    → Seg s.at prev cur xs
    → Seg (edit c f s).at prev cur xs
unfolding Seg Absent
Seg-edit c f s prev cur [] a h = h
Seg-edit c f s prev cur (x ∷ xs) (other, a) (here, back, rest) =
    let same = edit_other c x f s other in
    (here, rw same back, rw same (Seg-edit c f s (some x) (s.at x).next xs a rest))

-- Only the links matter.
pub Seg-same :
    (at after : ℕ → Callout)
    → ((k : ℕ) → (after k).next ≡ (at k).next)
    → ((k : ℕ) → (after k).prev ≡ (at k).prev)
    → (prev cur : Option ℕ) (xs : List ℕ) → Seg at prev cur xs
    → Seg after prev cur xs
unfolding Seg
Seg-same at after n p prev cur [] h = h
Seg-same at after n p prev cur (x ∷ xs) (here, back, rest) =
    (here, rw (p x) back, rw (n x) (Seg-same at after n p (some x) (at x).next xs rest))

-- The first of a segment takes another callout before it.
Seg-set_first :
    (s : Callouts) (prev new : Option ℕ) (x : ℕ) (xs : List ℕ)
    → Distinct (x ∷ xs)
    → Seg s.at prev (some x) (x ∷ xs)
    → Seg (edit x (set_prev new) s).at new (some x) (x ∷ xs)
unfolding Seg Distinct
Seg-set_first s prev new x xs (a, d) (here, back, rest) =
    let same = edit_same x (set_prev new) s in
    (refl, rw same refl, rw same (Seg-edit x (set_prev new) s (some x) (s.at x).next xs a rest))

pub Seg-set_prev :
    (s : Callouts) (prev new cur : Option ℕ) (xs : List ℕ)
    → Distinct xs
    → Seg s.at prev cur xs
    → Seg (edit_if cur (set_prev new) s).at new cur xs
unfolding edit_if
Seg-set_prev s prev new cur [] d h = unfold Seg in h
Seg-set_prev s prev new cur (x ∷ xs) d h =
    let here : cur ≡ some x = unfold Seg in h.0 in
    let first = subst (λ (o : Option ℕ). Seg s.at prev o (x ∷ xs)) here h in
    subst (λ (o : Option ℕ). Seg (edit_if o (set_prev new) s).at new o (x ∷ xs)) (sym here)
      (Seg-set_first s prev new x xs d first)

pub Seg-head :
    (s : Callouts) (c : ℕ) (prev cur : Option ℕ) (xs : List ℕ)
    → Absent c xs
    → Seg s.at prev cur xs
    → is_head c cur ≡ false
unfolding Seg Absent
Seg-head s c prev cur [] a h = rw h refl
Seg-head s c prev cur (x ∷ xs) (other, a) (here, back, rest) = rw here other

pub edit_if_other :
    (o : Option ℕ) (c : ℕ) (f : Callout → Callout) (s : Callouts)
    → is_head c o ≡ false
    → (edit_if o f s).at c ≡ s.at c
unfolding edit_if
edit_if_other none c f s h = refl
edit_if_other (some k) c f s h = edit_other k c f s (ground arith)

-- Adding a callout that is not on the list.
pub callout_add-Lists :
    (c : ℕ) (s : Callouts) (xs : List ℕ)
    → Lists s xs
    → Absent c xs
    → Lists (callout_add c s) (c ∷ xs)
unfolding Lists callout_add Seg Distinct
callout_add-Lists c s xs (seg, d) a =
    let link : Callout → Callout = λ o. record o { prev = none; next = s.head } in
    let linked = edit c link s in
    let kept = Seg-edit c link s none s.head xs a seg in
    let first =
      edit_if_other s.head c (set_prev (some c)) linked (Seg-head s c none s.head xs a seg)
      ∙ edit_same c link s in
    ((refl, rw first refl, rw first (Seg-set_prev linked none (some c) s.head xs d kept)), (a, d))
