-- ===== src/Siop/Queue/Kept.antt =====
-- Each step of the queues of siop.c keeps what they hold.
use a4091_software.Base.{
  ℕ, zero, suc, ◌+◌, ◌≡◌, refl, sym, Bool, true, false, ◌&&◌, none, some, List, [], ◌∷◌, arith,
  length, ◌⊎◌, Bool-cases, Option-cases, List-cases, inl, inr,
}
use a4091_software.Siop.Queue.{
  Acb, Answer, LogEntry, answered, chip_reset, Softc, take_first, is_nexus, has_ready, unqueue,
  reset_pending, reset_chip, is_idle, finish, siop_scsidone, siop_timeout, siop_scsipi_request,
  enqueue, disconnect, to_nexus_list, is_reselecting, put_back, reselect, complete, reset_list,
  answer_all, Latched, nothing, ended, left, back, siopintr, siopreset,
}
use a4091_software.Siop.Queue.Count.{
  bit, weight, opt, same, at, one, In, here, Taken, take_first-Taken, set_busy-clear, weight-append,
}
use a4091_software.Siop.Queue.Sound.{
  Sound, count, opt-none, opt-some, sched-Sound, unqueue_nexus-Sound, unqueue_waiting-Sound,
  unqueue_ready-Sound, stands, miscounted,
}
use a4091_software.Siop.Queue.Served.{put_back-nexus_list}

-- A command has the chip, or waits for its target.
abbrev pub InFlight : Acb → Softc → Type 0
InFlight a s = (s.nexus ≡ some a) ⊎ In a s.nexus_list

-- A reselection that is latched is that of a target for which a command waits.
unfoldable pub IsPossible : Latched → Softc → Type 0
IsPossible nothing s = Unit
IsPossible (ended answer) s = Unit
IsPossible left s = Unit
IsPossible (back scratch sfbr) s =
    (r : Acb × List Acb) × (take_first (is_reselecting scratch sfbr) s.nexus_list ≡ some r)

-- The log and the reset that waits say nothing of the queues.
relabel :
    {k : ℕ} (pend : Bool) (log : List LogEntry) (s : Softc)
    → Sound k s
    → Sound k (record s { reset_pend = pend; log = log })
relabel pend log s v = record { luns = v.luns; active = v.active; copies = v.copies }

reset_pending-Sound : {k : ℕ} (s : Softc) → Sound k s → Sound k (reset_pending s)
unfolding reset_pending reset_chip
reset_pending-Sound s v = elim (Bool-cases (s.reset_pend && is_idle s)) [
  | inl now ↦ rw (reset_pending, now) (relabel false (chip_reset ∷ s.log) s v)
  | inr later ↦ rw (reset_pending, later) v
]

reset_pending-nexus : (s : Softc) → (reset_pending s).nexus ≡ s.nexus
unfolding reset_pending reset_chip
reset_pending-nexus s = ground arith

finish-nexus :
    (a : Acb) (answer : Answer) (s : Softc)
    → is_nexus a s.nexus ≡ true
    → (finish a answer s).nexus ≡ none
unfolding finish unqueue
finish-nexus a answer s this = rw (finish, reset_pending-nexus) (rw (unqueue, this) refl)

finish-Sound :
    {k : ℕ} (a : Acb) (answer : Answer) (s : Softc)
    → Sound k (unqueue a s)
    → Sound k (finish a answer s)
unfolding finish
finish-Sound a answer s v =
    let left = unqueue a s in
    reset_pending-Sound (record left { log = answered a answer ∷ left.log })
      (relabel left.reset_pend (answered a answer ∷ left.log) left v)

unqueue-Sound : {k : ℕ} (a : Acb) (s : Softc) → InFlight a s → Sound k s → Sound k (unqueue a s)
unqueue-Sound a s (inl e) v = unqueue_nexus-Sound a s e v
unqueue-Sound a s (inr i) v = unqueue_waiting-Sound a s i v

pub done-Sound :
    {k : ℕ} (a : Acb) (answer : Answer) (s : Softc)
    → InFlight a s
    → Sound k s
    → Sound k (siop_scsidone a answer s)
unfolding siop_scsidone
done-Sound a answer s i v =
    let w = finish-Sound a answer s (unqueue-Sound a s i v) in
    elim (Bool-cases (is_nexus a s.nexus)) [
      | inl this ↦ elim (Bool-cases (has_ready s)) [
        | inl more ↦
            rw (siop_scsidone, this, more)
              (sched-Sound (finish a answer s) (finish-nexus a answer s this) w)
        | inr last ↦ rw (siop_scsidone, this, last) w
      ]
      | inr other ↦ rw (siop_scsidone, other) w
    ]

enqueue-Sound :
    {k : ℕ} (id : ℕ) (rest : List ℕ) (target lun : ℕ) (s : Softc)
    → s.free ≡ id ∷ rest
    → Sound k s
    → Sound k (enqueue id rest target lun s)
unfolding enqueue weight count same
enqueue-Sound id rest target lun s e v =
    let acb : Acb = record { id = id; target = target; lun = lun } in
    record {
      luns = v.luns;
      active = v.active;
      copies = λ k.
          let now = rw e at (v.copies k) in
          let longer = weight-append (same k) s.ready (acb ∷ []) in omega (arith, now, longer);
    }

pub request-Sound :
    {k : ℕ} (target lun : ℕ) (s : Softc) → Sound k s → Sound k (siop_scsipi_request target lun s)
unfolding siop_scsipi_request enqueue
request-Sound target lun s v = elim (List-cases s.free) [
  | inl e ↦ rw (siop_scsipi_request, e) v
  | inr (id, rest, e) ↦
      let queued = enqueue-Sound id rest target lun s e v in
      elim (Option-cases s.nexus) [
        | inl idle ↦
            rw (siop_scsipi_request, e, idle)
              (sched-Sound (enqueue id rest target lun s) idle queued)
        | inr (n, f) ↦ rw (siop_scsipi_request, e, f) queued
      ]
]

pub disconnect-Sound : {k : ℕ} (s : Softc) → Sound k s → Sound k (disconnect s)
unfolding disconnect weight opt one
disconnect-Sound {k} s v = elim (Option-cases s.nexus) [
  | inl e ↦ rw (disconnect, e) v
  | inr (a, e) ↦
      let some1 = λ (f : Acb → ℕ). opt-some f s.nexus a e in
      let w : Sound k (to_nexus_list a s) = record {
        luns = λ t l. omega (arith, some1 (at t l), v.luns t l);
        active = omega (arith, some1 one, v.active);
        copies = λ k. omega (arith, some1 (same k), v.copies k);
      } in
      elim (Bool-cases (has_ready s)) [
        | inl more ↦ rw (disconnect, e, more) (sched-Sound (to_nexus_list a s) refl w)
        | inr last ↦ rw (disconnect, e, last) w
      ]
]

-- A command that was being started does not count any more.
put_back-Sound : {k : ℕ} (s : Softc) → Sound k s → Sound k (record (put_back s) { nexus = none })
unfolding put_back weight opt one
put_back-Sound s v = elim (Option-cases s.nexus) [
  | inl e ↦
      let none0 = λ (f : Acb → ℕ). opt-none f s.nexus e in
      rw (put_back, e)
        (record {
          luns = λ t l. omega (arith, none0 (at t l), v.luns t l);
          active = omega (arith, none0 one, v.active);
          copies = λ k. omega (arith, none0 (same k), v.copies k);
        })
  | inr (n, e) ↦
      let some1 = λ (f : Acb → ℕ). opt-some f s.nexus n e in
      rw (put_back, e)
        (record {
          luns = λ t l.
              let before : at t l n + weight (at t l) s.nexus_list ≡ bit (s.busy t l) =
                omega (arith, some1 (at t l), v.luns t l) in
              omega (arith, set_busy-clear n s.busy t l (weight (at t l) s.nexus_list) before);
          active = omega (arith, some1 one, v.active);
          copies = λ k. omega (arith, some1 (same k), v.copies k);
        })
]

pub reselect-Sound :
    {k : ℕ} (scratch sfbr : ℕ) (r : Acb × List Acb) (s : Softc)
    → take_first (is_reselecting scratch sfbr) s.nexus_list ≡ some r
    → Sound k s
    → Sound k (reselect scratch sfbr s)
unfolding reselect Taken weight opt one
reselect-Sound scratch sfbr r s e v =
    let (_, w) : Taken (is_reselecting scratch sfbr) s.nexus_list (some r) =
      rw e at (take_first-Taken (is_reselecting scratch sfbr) s.nexus_list) in
    let back = put_back-Sound s v in
    let all = λ (f : Acb → ℕ). rw (sym (put_back-nexus_list s)) at (w f) in
    rw (reselect, put_back-nexus_list s, e)
      (record {
        luns = λ t l. omega (arith, all (at t l), back.luns t l);
        active = omega (arith, all one, back.active);
        copies = λ k. omega (arith, all (same k), back.copies k);
      })

pub timeout-Sound :
    {k : ℕ} (a : Acb) (s : Softc) → InFlight a s → Sound k s → Sound k (siop_timeout a s)
unfolding siop_timeout
timeout-Sound a s i v =
    done-Sound a Answer.timeout (record s { reset_pend = true }) i (relabel true s.log s v)

pub complete-Sound : {k : ℕ} (answer : Answer) (s : Softc) → Sound k s → Sound k (complete answer s)
unfolding complete
complete-Sound answer s v = elim (Option-cases s.nexus) [
  | inl e ↦ rw (complete, e) v
  | inr (a, e) ↦ rw (complete, e) (done-Sound a answer s (inl e) v)
]

reset_list-Sound : {k : ℕ} (n : ℕ) (s : Softc) → Sound k s → Sound k (reset_list n s)
unfolding reset_list
reset_list-Sound zero s v = v
reset_list-Sound (suc n) s v = elim (List-cases s.nexus_list) [
  | inl e ↦ rw (reset_list, e) v
  | inr (a, rest, e) ↦
      let first : In a s.nexus_list = rw e (here rest) in
      rw (reset_list, e)
        (reset_list-Sound n (siop_scsidone a Answer.reset_error s)
          (done-Sound a Answer.reset_error s (inr first) v))
]

chip-Sound : {k : ℕ} (s : Softc) → Sound k s → Sound k (reset_chip s)
unfolding reset_chip
chip-Sound s v = relabel false (chip_reset ∷ s.log) s v

all_gone :
    {k : ℕ} (s : Softc) → Sound k s → Sound k (reset_chip (reset_list (length s.nexus_list) s))
all_gone s v = let n = length s.nexus_list in chip-Sound (reset_list n s) (reset_list-Sound n s v)

answer_all-Sound : {k : ℕ} (s : Softc) → Sound k s → Sound k (answer_all s)
unfolding answer_all
answer_all-Sound s v = elim (Option-cases s.nexus) [
  | inl e ↦ rw (answer_all, e) (all_gone s v)
  | inr (a, e) ↦
      rw (answer_all, e)
        (all_gone (siop_scsidone a Answer.reset_error s)
          (done-Sound a Answer.reset_error s (inl e) v))
]

pub siopintr-Sound :
    {k : ℕ} (latched : Latched) (s : Softc)
    → IsPossible latched s
    → Sound k s
    → Sound k (siopintr latched s)
unfolding siopintr IsPossible
siopintr-Sound nothing s p v = v
siopintr-Sound (ended answer) s p v = complete-Sound answer s v
siopintr-Sound left s p v = disconnect-Sound s v
siopintr-Sound (back scratch sfbr) s (r, e) v = reselect-Sound scratch sfbr r s e v

pub reset-Sound :
    {k : ℕ} (latched : Latched) (s : Softc)
    → IsPossible latched s
    → Sound k s
    → Sound k (siopreset latched s)
unfolding siopreset
reset-Sound latched s p v = answer_all-Sound (siopintr latched s) (siopintr-Sound latched s p v)

pub late-Sound :
    {k : ℕ} (a : Acb) (s : Softc)
    → In a s.ready
    → Sound k s
    → Sound (miscounted a s + k) (siop_timeout a s)
unfolding siop_timeout siop_scsidone
late-Sound a s i v =
    let pending : Softc = record s { reset_pend = true } in
    let (other, _, _) = stands a s i v in
    rw (siop_timeout, siop_scsidone, other)
      (finish-Sound a Answer.timeout pending
        (unqueue_ready-Sound a pending i (relabel true s.log s v)))
