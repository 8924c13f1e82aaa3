-- ===== src/Siop/Queue/Served.antt =====
-- The scheduler of siop.c leaves no command waiting whose LUN is idle.
use a4091_software.Base.{
  ℕ, ◌≡◌, refl, Bool, true, false, not, Option, none, some, List, [], ◌∷◌, arith, Bool-cases,
  Option-cases, List-cases, inl, inr,
}
use a4091_software.Siop.Queue.{
  Acb, Answer, Softc, take_first, is_nexus, is_busy, has_ready, unqueue, reset_pending, reset_chip,
  siop_sched, finish, siop_scsidone, siop_timeout, siop_scsipi_request, enqueue, disconnect,
  to_nexus_list, reselect, put_back, complete, is_reselecting,
}
use a4091_software.Siop.Queue.Count.{In, nil-In, Taken, take_first-Taken}

-- Where no command has the chip, every ready command is for a LUN that is busy.
unfoldable pub Served : Softc → Type 0
Served s = s.nexus ≡ none → (a : Acb) → In a s.ready → is_busy s a ≡ true

-- The steps in which a command gets to the chip or leaves it. A target reselects for a command that
-- waits on the nexus list.
pub data Ordinary (s : Softc) : Softc → Type 0 where
  requested : (target lun : ℕ) → Ordinary s (siop_scsipi_request target lun s)
  completed : (answer : Answer) → Ordinary s (complete answer s)
  timed_out : (a : Acb) → s.nexus ≡ some a → Ordinary s (siop_timeout a s)
  disconnected : Ordinary s (disconnect s)
  reselected :
      (scratch sfbr : ℕ) (r : Acb × List Acb)
      → take_first (is_reselecting scratch sfbr) s.nexus_list ≡ some r
      → Ordinary s (reselect scratch sfbr s)

taken : (a : Acb) → ◌≡◌ {A = Option Acb} (some a) none → ⊥
taken a e = cc e

twice_not : (b : Bool) → not b ≡ false → b ≡ true
twice_not true e = refl
twice_not false e = absurd (cc e)

sched-Served : (s : Softc) → Served (siop_sched s)
unfolding Served siop_sched Taken
sched-Served s =
    let t = take_first-Taken (λ a. not (is_busy s a)) s.ready in
    elim (Option-cases (take_first (λ a. not (is_busy s a)) s.ready)) [
      | inl e ↦
          let fails : Taken (λ a. not (is_busy s a)) s.ready none = rw e at t in
          rw (siop_sched, e) (λ idle a i. twice_not (is_busy s a) (fails a i))
      | inr (r, e) ↦ rw (siop_sched, e) (λ idle. absurd (taken r.0 idle))
    ]

none_ready :
    (xs : List Acb) → elim xs [ [] ↦ false | ◌∷◌ a rest ↦ true ] ≡ false → (a : Acb) → In a xs → ⊥
none_ready [] e a i = nil-In a i
none_ready (x ∷ xs) e a i = cc e

empty-Served : (s : Softc) → has_ready s ≡ false → Served s
unfolding Served
empty-Served s e = λ idle a i. absurd (none_ready s.ready e a i)

reset_pending-ready : (s : Softc) → (reset_pending s).ready ≡ s.ready
unfolding reset_pending reset_chip
reset_pending-ready s = ground arith

finish-ready :
    (a : Acb) (answer : Answer) (s : Softc)
    → is_nexus a s.nexus ≡ true
    → (finish a answer s).ready ≡ s.ready
unfolding finish unqueue
finish-ready a answer s self = rw (finish, reset_pending-ready) (rw (unqueue, self) refl)

is_nexus_self : (a : Acb) → is_nexus a (some a) ≡ true
unfolding is_nexus
is_nexus_self a = ground arith

scsidone-Served :
    (a : Acb) (answer : Answer) (s : Softc) → s.nexus ≡ some a → Served (siop_scsidone a answer s)
unfolding siop_scsidone
scsidone-Served a answer s e =
    let self : is_nexus a s.nexus ≡ true = rw e (is_nexus_self a) in
    elim (Bool-cases (has_ready s)) [
      | inl more ↦ rw (siop_scsidone, self, more) (sched-Served (finish a answer s))
      | inr last ↦
          rw (siop_scsidone, self, last)
            (empty-Served (finish a answer s) (rw (finish-ready a answer s self) last))
    ]

taken-Served : (a : Acb) (s : Softc) → s.nexus ≡ some a → Served s
unfolding Served
taken-Served a s e = λ idle. absurd (taken a (rw e at idle))

request-Served : (target lun : ℕ) (s : Softc) → Served s → Served (siop_scsipi_request target lun s)
unfolding siop_scsipi_request enqueue
request-Served target lun s v = elim (List-cases s.free) [
  | inl e ↦ rw (siop_scsipi_request, e) v
  | inr (id, rest, e) ↦ elim (Option-cases s.nexus) [
    | inl idle ↦ rw (siop_scsipi_request, e, idle) (sched-Served (enqueue id rest target lun s))
    | inr (n, f) ↦ rw (siop_scsipi_request, e, f) (taken-Served n (enqueue id rest target lun s) f)
  ]
]

disconnect-Served : (s : Softc) → Served s → Served (disconnect s)
unfolding disconnect
disconnect-Served s v = elim (Option-cases s.nexus) [
  | inl e ↦ rw (disconnect, e) v
  | inr (a, e) ↦ elim (Bool-cases (has_ready s)) [
    | inl more ↦ rw (disconnect, e, more) (sched-Served (to_nexus_list a s))
    | inr last ↦ rw (disconnect, e, last) (empty-Served (to_nexus_list a s) last)
  ]
]

pub put_back-nexus_list : (s : Softc) → (put_back s).nexus_list ≡ s.nexus_list
unfolding put_back
put_back-nexus_list s = elim (Option-cases s.nexus) [
  | inl e ↦ rw (put_back, e) refl
  | inr (a, e) ↦ rw (put_back, e) refl
]

reselect-Served :
    (scratch sfbr : ℕ) (s : Softc) (r : Acb × List Acb)
    → take_first (is_reselecting scratch sfbr) s.nexus_list ≡ some r
    → Served (reselect scratch sfbr s)
unfolding reselect Served
reselect-Served scratch sfbr s r e =
    rw (reselect, put_back-nexus_list s, e)
      (taken-Served r.0 (record (put_back s) { nexus_list = r.1; nexus = some r.0 }) refl)

timeout-Served : (a : Acb) (s : Softc) → s.nexus ≡ some a → Served (siop_timeout a s)
unfolding siop_timeout
timeout-Served a s e = scsidone-Served a Answer.timeout (record s { reset_pend = true }) e

complete-Served : (answer : Answer) (s : Softc) → Served s → Served (complete answer s)
unfolding complete
complete-Served answer s v = elim (Option-cases s.nexus) [
  | inl e ↦ rw (complete, e) v
  | inr (a, e) ↦ rw (complete, e) (scsidone-Served a answer s e)
]

-- A request, the end, a timeout or a disconnection of the command that has the chip, and a reselection
-- keep it so that while no command has the chip, every ready command is for a LUN that is busy.
pub Ordinary-Served : (s after : Softc) → Ordinary s after → Served s → Served after
Ordinary-Served s _ (requested target lun) v = request-Served target lun s v
Ordinary-Served s _ (completed answer) v = complete-Served answer s v
Ordinary-Served s _ (timed_out a e) v = timeout-Served a s e
Ordinary-Served s _ disconnected v = disconnect-Served s v
Ordinary-Served s _ (reselected scratch sfbr r e) v = reselect-Served scratch sfbr s r e
