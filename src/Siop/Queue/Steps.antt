-- ===== src/Siop/Queue/Steps.antt =====
-- The requests, interrupts, timeouts and resets that the queues of siop.c see, in any order.
use a4091_software.Base.{ℕ, zero, suc, ◌+◌, ◌≡◌, refl, ◌&&◌, some, List, arith, leb, ltb}
use a4091_software.Siop.Queue.{
  Acb, Answer, LogEntry, started, Softc, take_first, siop_timeout, siop_scsipi_request, disconnect,
  is_reselecting, reselect, complete, acbs, first_reset, Latched, siopreset,
}
use a4091_software.Siop.Queue.Count.{bit, weight, opt, In}
use a4091_software.Siop.Queue.Sound.{Sound, count, miscounted}
use a4091_software.Siop.Queue.Kept.{
  InFlight, IsPossible, request-Sound, disconnect-Sound, reselect-Sound, timeout-Sound,
  complete-Sound, reset-Sound, late-Sound,
}

-- The memory of the driver is cleared when siopreset runs first. From then on a transfer is requested, the
-- command at the chip is answered or its target disconnects, the target of a waiting command reselects,
-- a command that was started times out, at a target or put back on the ready list, or everything is
-- reset. k counts the timeouts of commands on the ready list that were not the last of it.
pub data Reachable : ℕ → Softc → Type 0 where
  initial : (log : List LogEntry) → Reachable 0 (first_reset log)
  requested :
      (target lun k : ℕ) (s : Softc)
      → Reachable k s
      → Reachable k (siop_scsipi_request target lun s)
  completed :
      (answer : Answer) (k : ℕ) (s : Softc) → Reachable k s → Reachable k (complete answer s)
  disconnected : (k : ℕ) (s : Softc) → Reachable k s → Reachable k (disconnect s)
  reselected :
      (scratch sfbr : ℕ) (r : Acb × List Acb) (k : ℕ) (s : Softc)
      → take_first (is_reselecting scratch sfbr) s.nexus_list ≡ some r
      → Reachable k s
      → Reachable k (reselect scratch sfbr s)
  timed_out :
      (a : Acb) (k : ℕ) (s : Softc) → InFlight a s → Reachable k s → Reachable k (siop_timeout a s)
  timed_out_ready :
      (a : Acb) (k : ℕ) (s : Softc)
      → In a s.ready
      → In (started a) s.log
      → Reachable k s
      → Reachable (miscounted a s + k) (siop_timeout a s)
  all_reset :
      (latched : Latched) (k : ℕ) (s : Softc)
      → IsPossible latched s
      → Reachable k s
      → Reachable k (siopreset latched s)

count-acbs : (k n from : ℕ) → count k (acbs n from) ≡ bit (leb from k && ltb k (from + n))
unfolding count acbs bit
count-acbs k zero from = ground arith
count-acbs k (suc n) from = let rest = count-acbs k n (from + 1) in ground arith

first-Sound : (log : List LogEntry) → Sound 0 (first_reset log)
unfolding first_reset weight opt bit
first-Sound log = record {
  luns = λ t l. refl;
  active = refl;
  copies = λ k. let all = count-acbs k 16 0 in ground arith;
}

-- In every state that is reached, each of the 16 ACBs is free, ready, on the nexus list or the nexus, and
-- only one of these and only once; a LUN is busy exactly if one command of it is at its target, and no
-- LUN has two; and sc_active is the number of the commands at a target, less 1 modulo 2 ^ 32 for each
-- timeout of a command that a reselection had put back on the ready list and that was not the last of it.
pub Reachable-Sound : (k : ℕ) (s : Softc) → Reachable k s → Sound k s
Reachable-Sound _ _ (initial log) = first-Sound log
Reachable-Sound _ _ (requested target lun k s r) =
    request-Sound target lun s (Reachable-Sound k s r)
Reachable-Sound _ _ (completed answer k s r) = complete-Sound answer s (Reachable-Sound k s r)
Reachable-Sound _ _ (disconnected k s r) = disconnect-Sound s (Reachable-Sound k s r)
Reachable-Sound _ _ (reselected scratch sfbr t k s e r) =
    reselect-Sound scratch sfbr t s e (Reachable-Sound k s r)
Reachable-Sound _ _ (timed_out a k s i r) = timeout-Sound a s i (Reachable-Sound k s r)
Reachable-Sound _ _ (timed_out_ready a k s i _ r) = late-Sound a s i (Reachable-Sound k s r)
Reachable-Sound _ _ (all_reset latched k s p r) = reset-Sound latched s p (Reachable-Sound k s r)
