-- ===== src/Port/Callout.antt =====
-- The callouts of port.c and callout.h: functions to be called after a number of ticks, on a doubly
-- linked list. A callout is named by its address; a function by a number, and NULL by `none`.
pub mod Linked
pub mod Removed
pub mod Tidy
pub mod Order
use a4091_software.Base.{
  ℕ, zero, suc, ◌+◌, ◌-◌, ◌≡◌, Bool, true, false, Option, none, some, ◌==◌, ltb, if◌then◌else◌,
}
use a4091_software.Base.Int.{ℤ, pos, negsuc}

pub record Callout : Type 0 where
  pub ticks : ℤ
  pub func : Option ℕ
  pub arg : ℕ
  pub next : Option ℕ
  pub prev : Option ℕ

-- The memory of the callouts, and callout_head.
pub record Callouts : Type 0 where
  pub at : ℕ → Callout
  pub head : Option ℕ

-- A change of the callout at an address.
unfoldable pub edit : ℕ → (Callout → Callout) → Callouts → Callouts
edit c f s = record s { at = λ k. if k == c then f (s.at k) else s.at k }

-- The same where the address may be NULL.
unfoldable pub edit_if : Option ℕ → (Callout → Callout) → Callouts → Callouts
unfolding edit
edit_if none f s = s
edit_if (some c) f s = edit c f s

abbrev pub set_next : Option ℕ → Callout → Callout
set_next next o = record o { next = next }

abbrev pub set_prev : Option ℕ → Callout → Callout
set_prev prev o = record o { prev = prev }

unfoldable pub callout_add : ℕ → Callouts → Callouts
unfolding edit_if
callout_add c s =
    let linked = edit c (λ o. record o { prev = none; next = s.head }) s in
    record (edit_if s.head (set_prev (some c)) linked) { head = some c }

abbrev pub is_head : ℕ → Option ℕ → Bool
is_head c none = false
is_head c (some h) = h == c

unfoldable pub callout_remove : ℕ → Callouts → Callouts
unfolding edit_if
callout_remove c s =
    let here = s.at c in
    let bridged = edit_if here.prev (set_next here.next) s in
    if is_head c s.head
    then edit_if here.next (set_prev none) (record s { head = here.next })
    else edit_if (bridged.at c).next (set_prev (bridged.at c).prev) bridged

unfoldable pub callout_init : ℕ → Callouts → Callouts
callout_init c s = edit c (λ o. record o { func = none }) s

unfoldable pub callout_pending : ℕ → Callouts → Bool
callout_pending c s = elim (s.at c).func [ none ↦ false | some f ↦ true ]

unfoldable pub callout_stop : ℕ → Callouts → Bool × Callouts
unfolding callout_pending callout_init callout_remove
callout_stop c s = (callout_pending c s, callout_remove c (callout_init c s))

unfoldable pub callout_reset : ℕ → ℤ → ℕ → ℕ → Callouts → Callouts
unfolding callout_remove callout_add
callout_reset c ticks func arg s =
    let armed = edit c (λ o. record o { ticks = ticks; func = some func; arg = arg }) s in
    callout_add c (callout_remove c armed)

-- TICKS_PER_SECOND of dos/dos.h is 50. A count goes down to 1, not further; one below -2 ^ 31 + 50 is
-- left out.
unfoldable pub counted_down : ℤ → ℤ
counted_down (pos n) = if ltb 50 n then pos (n - 50) else pos 1
counted_down (negsuc n) = pos 1

-- What calling a function with an argument does, to the callouts and to all else.
abbrev pub Runner : Type 0 → Type 0
Runner W = ℕ → ℕ → Callouts × W → Callouts × W

abbrev pub set_ticks : ℤ → Callout → Callout
set_ticks ticks o = record o { ticks = ticks }

module _ {W : Type 0} (run : Runner W) where
  -- Nothing is called where the function is NULL.
  unfoldable pub callout_call : ℕ → Callouts × W → Callouts × W
  callout_call c (s, w) = elim (s.at c).func [ none ↦ (s, w) | some f ↦ run f (s.at c).arg (s, w) ]

  -- The body of the loop.
  unfoldable pub run_timeout : ℕ → Callouts × W → Callouts × W
  unfolding callout_call counted_down
  run_timeout c (s, w) = elim (s.at c).ticks [
    | pos zero ↦ (s, w)
    | pos (suc zero) ↦ callout_call c (edit c (set_ticks (pos 0)) s, w)
    | pos (suc (suc n)) ↦ (edit c (set_ticks (counted_down (pos (suc (suc n))))) s, w)
    | negsuc n ↦ (edit c (set_ticks (counted_down (negsuc n))) s, w)
  ]

  -- The walk of the list, whose links are read after each callout; `none` where the fuel runs out.
  unfoldable pub walk_from : ℕ → Option ℕ → Callouts × W → Option (Callouts × W)
  unfolding run_timeout
  walk_from zero cur sw = none
  walk_from (suc fuel) none sw = some sw
  walk_from (suc fuel) (some c) sw =
      let after = run_timeout c sw in walk_from fuel (after.0.at c).next after

  unfoldable pub callout_run_timeouts : ℕ → Callouts × W → Option (Callouts × W)
  unfolding walk_from
  callout_run_timeouts fuel sw = walk_from fuel sw.0.head sw
