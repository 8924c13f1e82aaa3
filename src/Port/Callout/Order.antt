-- ===== src/Port/Callout/Order.antt =====
-- Stopping and resetting a callout, seen as a change of the list's order and of one callout's data.
use a4091_software.Base.{
  ℕ, ◌≡◌, refl, ap, ◌∙◌, Option, none, some, List, ◌∷◌, ◌==◌, if◌then◌else◌, arith, Bool-cases, inl,
  inr,
}
use a4091_software.Base.Int.{ℤ}
use a4091_software.Port.Callout.{
  Callout, Callouts, edit, edit_if, set_next, set_prev, is_head, callout_remove, callout_add,
  callout_init, callout_stop, callout_reset,
}
use a4091_software.Port.Callout.Linked.{Seg-same, Distinct, Lists, callout_add-Lists}
use a4091_software.Port.Callout.Removed.{unlink, unlink-Absent}
use a4091_software.Port.Callout.Tidy.{Tidy, remove-Lists}

-- What a client does to a callout.
pub data Op : Type 0 where
  reset : (ticks : ℤ) (func arg : ℕ) → Op
  stop : Op

unfoldable pub apply : Op → ℕ → Callouts → Callouts
unfolding callout_reset callout_stop
apply (reset ticks func arg) c s = callout_reset c ticks func arg s
apply stop c s = (callout_stop c s).1

-- The ticks, the function and its argument.
abbrev pub Data : Type 0
Data = ℤ × Option ℕ × ℕ

abbrev pub data_of : Callout → Data
data_of o = (o.ticks, o.func, o.arg)

unfoldable pub new_order : Op → ℕ → List ℕ → List ℕ
unfolding unlink
new_order (reset ticks func arg) c xs = c ∷ unlink c xs
new_order stop c xs = unlink c xs

unfoldable pub new_data : Op → Data → Data
new_data (reset ticks func arg) d = (ticks, some func, arg)
new_data stop d = (d.0, none, d.2)

-- A change that keeps a field keeps it at every address.
module _ {ℓ} {A : Type ℓ} (field : Callout → A) (f : Callout → Callout)
    (keeps : (o : Callout) → field (f o) ≡ field o) where
  edit_keeps : (c k : ℕ) (s : Callouts) → field ((edit c f s).at k) ≡ field (s.at k)
  unfolding edit
  edit_keeps c k s = elim (Bool-cases (k == c)) [
    | inl same ↦ rw same (keeps (s.at k))
    | inr other ↦ rw other refl
  ]

  edit_if_keeps :
      (o : Option ℕ) (k : ℕ) (s : Callouts) → field ((edit_if o f s).at k) ≡ field (s.at k)
  unfolding edit_if
  edit_if_keeps none k s = refl
  edit_if_keeps (some c) k s = edit_keeps c k s

remove-data : (c k : ℕ) (s : Callouts) → data_of ((callout_remove c s).at k) ≡ data_of (s.at k)
unfolding callout_remove
remove-data c k s =
    let bridged = edit_if (s.at c).prev (set_next (s.at c).next) s in
    elim (Bool-cases (is_head c s.head)) [
      | inl first ↦ rw first (
          edit_if_keeps data_of (set_prev none) (λ o. refl) (s.at c).next k
            (record s { head = (s.at c).next }))
      | inr behind ↦ rw behind (
          edit_if_keeps data_of (set_prev (bridged.at c).prev) (λ o. refl) (bridged.at c).next k
            bridged
          ∙ edit_if_keeps data_of (set_next (s.at c).next) (λ o. refl) (s.at c).prev k s)
    ]

add-data : (c k : ℕ) (s : Callouts) → data_of ((callout_add c s).at k) ≡ data_of (s.at k)
unfolding callout_add
add-data c k s =
    let link : Callout → Callout = λ o. record o { prev = none; next = s.head } in
    edit_if_keeps data_of (set_prev (some c)) (λ o. refl) s.head k (edit c link s)
    ∙ edit_keeps data_of link (λ o. refl) c k s

-- A change of the data keeps the list.
module _ (f : Callout → Callout) (next : (o : Callout) → (f o).next ≡ o.next)
    (prev : (o : Callout) → (f o).prev ≡ o.prev) where
  data-Lists : (c : ℕ) (s : Callouts) (xs : List ℕ) → Lists s xs → Lists (edit c f s) xs
  unfolding Lists edit
  data-Lists c s xs (seg, d) = (
    Seg-same s.at (edit c f s).at (λ k. edit_keeps (λ o. o.next) f next c k s)
        (λ k. edit_keeps (λ o. o.prev) f prev c k s) none s.head xs seg,
    d,
  )

  data-Tidy : (c : ℕ) (s : Callouts) (xs : List ℕ) → Tidy s xs c → Tidy (edit c f s) xs c
  unfolding Tidy
  data-Tidy c s xs (inl on) = inl on
  data-Tidy c s xs (inr (off, n, p)) = inr (
    off,
    rw (edit_keeps (λ o. o.next) f next c c s) n,
    rw (edit_keeps (λ o. o.prev) f prev c c s) p,
  )

edit_here :
    (c k : ℕ) (f : Callout → Callout) (s : Callouts)
    → data_of ((edit c f s).at k) ≡ (if k == c then data_of (f (s.at c)) else data_of (s.at k))
unfolding edit
edit_here c k f s = elim (Bool-cases (k == c)) [
  | inl same ↦ let e : k ≡ c = ground arith in rw same (ap (λ (j : ℕ). data_of (f (s.at j))) e)
  | inr other ↦ rw other refl
]

Lists-Distinct : (s : Callouts) (xs : List ℕ) → Lists s xs → Distinct xs
unfolding Lists
Lists-Distinct s xs h = h.1

-- Stopping or resetting a callout that is on the list, or that links to nothing, keeps the list doubly
-- linked and without repetition: `callout_stop` takes the callout off it and clears its function,
-- `callout_reset` puts it at the head with the new ticks, function and argument, wherever it was.
-- The other callouts keep their order, their ticks and their functions.
pub apply-Lists :
    (op : Op) (c : ℕ) (s : Callouts) (xs : List ℕ)
    → Lists s xs
    → Tidy s xs c
    → Lists (apply op c s) (new_order op c xs)
      × ((k : ℕ)
          → data_of ((apply op c s).at k)
            ≡ (if k == c then new_data op (data_of (s.at c)) else data_of (s.at k)))
unfolding apply new_order new_data callout_reset callout_stop callout_init
apply-Lists (reset ticks func arg) c s xs h tidy =
    let arm : Callout → Callout = λ o. record o { ticks = ticks; func = some func; arg = arg } in
    let armed = edit c arm s in
    let kept = data-Lists arm (λ o. refl) (λ o. refl) c s xs h in
    let neat = data-Tidy arm (λ o. refl) (λ o. refl) c s xs tidy in
    (
      callout_add-Lists c (callout_remove c armed) (unlink c xs) (remove-Lists c armed xs kept neat)
          (unlink-Absent c xs (Lists-Distinct s xs h)),
      λ k. add-data c k (callout_remove c armed) ∙ (remove-data c k armed ∙ edit_here c k arm s),
    )
apply-Lists stop c s xs h tidy =
    let clear : Callout → Callout = λ o. record o { func = none } in
    (
      remove-Lists c (edit c clear s) xs (data-Lists clear (λ o. refl) (λ o. refl) c s xs h)
          (data-Tidy clear (λ o. refl) (λ o. refl) c s xs tidy),
      λ k. remove-data c k (edit c clear s) ∙ edit_here c k clear s,
    )
