-- ===== src/Examples/Port.antt =====
-- The theorems on port.c at concrete inputs.
use a4091_software.Base.{
  ℕ, ◌+◌, ◌≡◌, refl, inl, Option, none, some, List, [], ◌∷◌, ◌==◌, if◌then◌else◌,
}
use a4091_software.Base.Int.{pos, negsuc}
use a4091_software.Port.Level.{Interrupts, nested, disables, enables, nested-calls}
use a4091_software.Port.Itoa.{itoa}
use a4091_software.Port.Callout.{
  Callout, Callouts, Runner, edit, counted_down, callout_call, run_timeout, walk_from,
  callout_run_timeouts,
}
use a4091_software.Port.Callout.Linked.{Seg, Absent, Distinct, Lists}
use a4091_software.Port.Callout.Removed.{is_on}
use a4091_software.Port.Callout.Tidy.{Tidy}
use a4091_software.Port.Callout.Order.{reset, apply, new_order, new_data, data_of, apply-Lists}

abbrev running : Interrupts
running = record { ilevel = 0; calls = [] }

nested-calls_example :
    ((nested 2 running).ilevel ≡ 0)
    × (disables (nested 2 running).calls ≡ disables running.calls + 2)
    × (enables (nested 2 running).calls ≡ enables running.calls + 1)
nested-calls_example = nested-calls 1 running refl

-- -42 in radix 10 is written "-42".
minus_42 : itoa (negsuc 41) 10 ≡ some (b'-' ∷ b'4' ∷ b'2' ∷ [])
unfolding itoa
minus_42 = refl

abbrev first_callout : Callout
first_callout = record { ticks = pos 1; func = some 7; arg = 70; next = some 2; prev = none }

abbrev last_callout : Callout
last_callout = record { ticks = pos 500; func = some 8; arg = 80; next = none; prev = some 1 }

-- The callouts 1 and 2, in this order.
abbrev two_callouts : Callouts
two_callouts = record { at = λ k. if k == 1 then first_callout else last_callout; head = some 1 }

two_callouts-Lists : Lists two_callouts (1 ∷ 2 ∷ [])
unfolding Lists Seg Distinct Absent
two_callouts-Lists = ((refl, refl, (refl, refl, refl)), ((refl, tt), (tt, tt)))

second_is_Tidy : Tidy two_callouts (1 ∷ 2 ∷ []) 2
unfolding Tidy is_on
second_is_Tidy = inl refl

apply-Lists_example :
    Lists
      (apply (reset (pos 250) 9 90) 2 two_callouts)
      (new_order (reset (pos 250) 9 90) 2 (1 ∷ 2 ∷ []))
    × ((k : ℕ)
        → data_of ((apply (reset (pos 250) 9 90) 2 two_callouts).at k) ≡ (
            if k == 2
            then new_data (reset (pos 250) 9 90) (data_of (two_callouts.at 2))
            else data_of (two_callouts.at k)))
apply-Lists_example =
    apply-Lists (reset (pos 250) 9 90) 2 two_callouts (1 ∷ 2 ∷ []) two_callouts-Lists second_is_Tidy

-- Calling a function notes it.
abbrev note_run : Runner (List ℕ)
note_run f a sw = (sw.0, f ∷ sw.1)

abbrev noted : Option (Callouts × List ℕ) → List ℕ
noted none = []
noted (some sw) = sw.1

-- Only the function of the callout that is due is called.
one_fired : noted (callout_run_timeouts note_run 3 (two_callouts, [])) ≡ 7 ∷ []
unfolding callout_run_timeouts walk_from run_timeout callout_call counted_down edit
one_fired = refl
