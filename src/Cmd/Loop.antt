-- ===== src/Cmd/Loop.antt =====
-- The loop of cmd_handler in cmdhandler.c: how it takes requests from its port. What a request does, and
-- what interrupts, the timer and the completion queue do, are arguments.
pub mod Throttle
use a4091_software.Base.{ℕ, Bool, true, false, List, [], ◌∷◌, ltb, if◌then◌else◌}

-- The handler: cmd_do_iorequest and whether it ends the handler, what comes before the requests in a pass
-- (interrupts and the timer), scsipi_completion_poll, and chan_active.
pub record Handler (Request State : Type 0) : Type 0 where
  pub do_request : Request → State → State × Bool
  pub background : State → State
  pub completion_poll : State → State
  pub active : State → ℕ

-- A pass: the requests left at the port, the state, and how it ended. The next pass waits for requests
-- unless there are too many commands active.
pub data Wait : Type 0 where
  for_all without_requests exited : Wait

module _ {Request State : Type 0} (h : Handler Request State) where
  unfoldable pub requests : List Request → State → List Request × State × Wait
  requests [] s = ([], s, for_all)
  requests (ior ∷ port) s =
      let (next, exit) = h.do_request ior s in
      let rest = requests port next in
      if exit
      then (port, next, exited)
      else if ltb 20 (h.active next)
      then (port, next, without_requests)
      else rest

  -- The completion queue is run, unless the handler has ended.
  unfoldable pub run_completion_queue : List Request × State × Wait → List Request × State × Wait
  run_completion_queue (left, served, exited) = (left, served, exited)
  run_completion_queue (left, served, for_all) = (left, h.completion_poll served, for_all)
  run_completion_queue (left, served, without_requests) =
      (left, h.completion_poll served, without_requests)

  unfoldable pub pass : List Request → State → List Request × State × Wait
  pass port s =
      let ready = h.background s in
      run_completion_queue
        (if ltb 20 (h.active ready) then (port, ready, without_requests) else requests port ready)
