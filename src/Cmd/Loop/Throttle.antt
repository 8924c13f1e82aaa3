-- ===== src/Cmd/Loop/Throttle.antt =====
-- The handler takes the requests in order, and none while there are too many active commands.
use a4091_software.Base.{
  ◌≤◌, ◌≡◌, refl, ap, ◌⊎◌, inl, inr, List, [], ◌∷◌, ◌++◌, ltb, arith, Bool-cases,
}
use a4091_software.Cmd.Loop.{
  Handler, Wait, for_all, without_requests, exited, requests, run_completion_queue, pass,
}

ended : exited ≡ for_all → ⊥
ended e = cc e

throttled : without_requests ≡ for_all → ⊥
throttled e = cc e

module _ {Request State : Type 0} (h : Handler Request State) where
  -- All the requests of a list, one after the other.
  unfoldable pub run_all : List Request → State → State
  run_all [] s = s
  run_all (ior ∷ port) s = run_all port (h.do_request ior s).0

  -- Each of the requests starts with 20 active commands or fewer.
  unfoldable pub AllThrottled : List Request → State → Type 0
  AllThrottled [] s = Unit
  AllThrottled (ior ∷ port) s = (h.active s ≤ 20) × AllThrottled port (h.do_request ior s).0

  -- What is served is the front of the port; all of it is, unless the handler ends or is throttled.
  unfoldable Served : List Request → State → List Request × State × Wait → Type 0
  Served port s (left, served, wait) =
      ((taken : List Request) × (port ≡ taken ++ left)
        × AllThrottled taken s
        × (served ≡ run_all taken s))
      × ((wait ≡ for_all) → left ≡ [])

  requests-Served :
      (port : List Request) (s : State) → h.active s ≤ 20 → Served port s (requests h port s)
  unfolding requests run_all Served AllThrottled
  requests-Served [] s few = (([], refl, tt, refl), λ w. refl)
  requests-Served (ior ∷ port) s few =
      let next = (h.do_request ior s).0 in
      elim (Bool-cases (h.do_request ior s).1) [
        | inl exit ↦ rw exit ((ior ∷ [], refl, (few, tt), refl), λ w. absurd (ended w))
        | inr stay ↦ elim (Bool-cases (ltb 20 (h.active next))) [
          | inl full ↦
              rw (stay, full) ((ior ∷ [], refl, (few, tt), refl), λ w. absurd (throttled w))
          | inr free ↦
              let room : h.active next ≤ 20 = ground arith in
              let ((taken, split, under, same), all) = requests-Served port next room in
              rw (stay, free)
                ((ior ∷ taken, ap (λ (l : List Request). ior ∷ l) split, (few, under), same), all)
        ]
      ]

  -- What a pass leaves at the port is its end. What it took was run in order, after the interrupts and the
  -- timer, and before the completion queue unless the handler ended.
  unfoldable pub IsInOrder : List Request → State → List Request × State × Wait → Type 0
  IsInOrder port s (left, served, wait) =
      ((taken : List Request) × (port ≡ taken ++ left)
        × AllThrottled taken (h.background s)
        × ((served ≡ run_all taken (h.background s))
            ⊎ (served ≡ h.completion_poll (run_all taken (h.background s)))))
      × ((wait ≡ for_all) → left ≡ [])

  completion-IsInOrder :
      (port : List Request) (s : State) (r : List Request × State × Wait)
      → Served port (h.background s) r
      → IsInOrder port s (run_completion_queue h r)
  unfolding run_completion_queue IsInOrder Served
  completion-IsInOrder port s (left, served, exited) ((taken, split, under, same), all) =
      ((taken, split, under, inl same), all)
  completion-IsInOrder port s (left, served, for_all) ((taken, split, under, same), all) =
      ((taken, split, under, inr (ap h.completion_poll same)), all)
  completion-IsInOrder port s (left, served, without_requests) ((taken, split, under, same), all) =
      ((taken, split, under, inr (ap h.completion_poll same)), all)

  -- A pass takes requests from the front of the port and runs them in order, each of them with at most 20
  -- commands active; it leaves the others as they are, and none if it waits for more of them next.
  pub pass-IsInOrder : (port : List Request) (s : State) → IsInOrder port s (pass h port s)
  unfolding pass Served run_all AllThrottled
  pass-IsInOrder port s =
      let ready = h.background s in
      elim (Bool-cases (ltb 20 (h.active ready))) [
        | inl full ↦
            rw (pass, full)
              (completion-IsInOrder port s (port, ready, without_requests)
                (([], refl, tt, refl), λ w. absurd (throttled w)))
        | inr free ↦
            let room : h.active ready ≤ 20 = ground arith in
            rw (pass, free)
              (completion-IsInOrder port s (requests h port ready)
                (requests-Served port ready room))
      ]
