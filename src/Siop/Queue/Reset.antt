-- ===== src/Siop/Queue/Reset.antt =====
-- `siopreset` of siop.c answers all the commands that are at a target.
use a4091_software.Base.{
  ℕ, zero, suc, ◌≡◌, refl, true, not, ◌&&◌, ◌==◌, Option, none, some, List, [], ◌∷◌, length, arith,
  Bool-cases, Option-cases, List-cases, inl, inr,
}
use a4091_software.Siop.Queue.{
  Acb, Answer, LogEntry, Softc, answered, started, chip_reset, take_first, is_busy, is_nexus,
  remove, has_ready, unqueue, reset_pending, reset_chip, is_idle, siop_sched, finish, siop_scsidone,
  reset_list, answer_all, Latched, siopintr, siopreset,
}
use a4091_software.Siop.Queue.Count.{In, here, there, In-is_in}
use a4091_software.Siop.Queue.Sound.{Sound, waits}
use a4091_software.Siop.Queue.Kept.{InFlight, IsPossible, siopintr-Sound, done-Sound}
use a4091_software.Siop.Queue.Steps.{Reachable, Reachable-Sound}

unqueue-log : (a : Acb) (s : Softc) → (unqueue a s).log ≡ s.log
unfolding unqueue
unqueue-log a s = ground arith

reset_pending-log : (x : LogEntry) (s : Softc) → In x s.log → In x (reset_pending s).log
unfolding reset_pending reset_chip
reset_pending-log x s i = elim (Bool-cases (s.reset_pend && is_idle s)) [
  | inl now ↦ rw (reset_pending, now) (there chip_reset s.log i)
  | inr later ↦ rw (reset_pending, later) i
]

sched-log : (x : LogEntry) (s : Softc) → In x s.log → In x (siop_sched s).log
unfolding siop_sched
sched-log x s i = elim (Option-cases (take_first (λ a. not (is_busy s a)) s.ready)) [
  | inl e ↦ rw (siop_sched, e) i
  | inr (r, e) ↦ rw (siop_sched, e) (there (started r.0) s.log i)
]

-- An entry that is in the log once the command is answered stays in it.
done-log :
    (x : LogEntry) (a : Acb) (answer : Answer) (s : Softc)
    → In x (answered a answer ∷ s.log)
    → In x (siop_scsidone a answer s).log
unfolding siop_scsidone finish
done-log x a answer s i =
    let left = unqueue a s in
    let logged : In x (answered a answer ∷ left.log) = rw (unqueue-log a s) i in
    let after : In x (finish a answer s).log =
      reset_pending-log x (record left { log = answered a answer ∷ left.log }) logged in
    elim (Bool-cases (is_nexus a s.nexus && has_ready s)) [
      | inl next ↦ rw (siop_scsidone, next) (sched-log x (finish a answer s) after)
      | inr last ↦ rw (siop_scsidone, last) after
    ]

reset_list-log : (n : ℕ) (x : LogEntry) (s : Softc) → In x s.log → In x (reset_list n s).log
unfolding reset_list
reset_list-log zero x s i = i
reset_list-log (suc n) x s i = elim (List-cases s.nexus_list) [
  | inl e ↦ rw (reset_list, e) i
  | inr (a, rest, e) ↦
      rw (reset_list, e)
        (reset_list-log n x (siop_scsidone a Answer.reset_error s)
          (done-log x a Answer.reset_error s (there (answered a Answer.reset_error) s.log i)))
]

reset_pending-nexus_list : (s : Softc) → (reset_pending s).nexus_list ≡ s.nexus_list
unfolding reset_pending reset_chip
reset_pending-nexus_list s = ground arith

remove_first : (a : Acb) (rest : List Acb) → remove a (a ∷ rest) ≡ rest
unfolding remove
remove_first a rest = let self : (a.id == a.id) ≡ true = ground arith in rw self refl

unqueue-nexus_list :
    {k : ℕ} (a : Acb) (rest : List Acb) (s : Softc)
    → s.nexus_list ≡ a ∷ rest
    → Sound k s
    → (unqueue a s).nexus_list ≡ rest
unfolding unqueue
unqueue-nexus_list a rest s e v =
    let first : In a s.nexus_list = rw e (here rest) in
    let (other, not_last, _) = waits a s first v in
    rw (unqueue, other, not_last, In-is_in a s.nexus_list first, e) (remove_first a rest)

-- The first command of the nexus list goes, and nothing is started.
done-nexus_list :
    {k : ℕ} (a : Acb) (rest : List Acb) (s : Softc)
    → s.nexus_list ≡ a ∷ rest
    → Sound k s
    → (siop_scsidone a Answer.reset_error s).nexus_list ≡ rest
unfolding siop_scsidone finish
done-nexus_list a rest s e v =
    let (other, _, _) = waits a s (rw e (here rest)) v in
    rw (siop_scsidone, other)
      (rw (finish, reset_pending-nexus_list) (unqueue-nexus_list a rest s e v))

sched-nexus_list : (s : Softc) → (siop_sched s).nexus_list ≡ s.nexus_list
unfolding siop_sched
sched-nexus_list s = elim (Option-cases (take_first (λ a. not (is_busy s a)) s.ready)) [
  | inl e ↦ rw (siop_sched, e) refl
  | inr (r, e) ↦ rw (siop_sched, e) refl
]

finish-nexus_list :
    (a : Acb) (s : Softc)
    → is_nexus a s.nexus ≡ true
    → (finish a Answer.reset_error s).nexus_list ≡ s.nexus_list
unfolding finish unqueue
finish-nexus_list a s this = rw (finish, reset_pending-nexus_list) (rw (unqueue, this) refl)

-- The nexus list stays as it is where the nexus is answered.
nexus_done-nexus_list :
    (a : Acb) (s : Softc)
    → is_nexus a s.nexus ≡ true
    → (siop_scsidone a Answer.reset_error s).nexus_list ≡ s.nexus_list
unfolding siop_scsidone
nexus_done-nexus_list a s this = elim (Bool-cases (has_ready s)) [
  | inl next ↦
      rw (siop_scsidone, this, next, sched-nexus_list (finish a Answer.reset_error s))
        (finish-nexus_list a s this)
  | inr last ↦ rw (siop_scsidone, this, last) (finish-nexus_list a s this)
]

-- One round for each command of the nexus list is enough.
reset_list-empty :
    {k : ℕ} (xs : List Acb) (s : Softc)
    → s.nexus_list ≡ xs
    → Sound k s
    → (reset_list (length xs) s).nexus_list ≡ []
unfolding reset_list
reset_list-empty [] s e v = e
reset_list-empty (a ∷ rest) s e v =
    let first : In a s.nexus_list = rw e (here rest) in
    rw (reset_list, e)
      (reset_list-empty rest (siop_scsidone a Answer.reset_error s) (done-nexus_list a rest s e v)
        (done-Sound a Answer.reset_error s (inr first) v))

reset_list-answered :
    {k : ℕ} (xs : List Acb) (s : Softc) (a : Acb)
    → s.nexus_list ≡ xs
    → Sound k s
    → In a xs
    → In (answered a Answer.reset_error) (reset_list (length xs) s).log
unfolding reset_list
reset_list-answered [] s a e v i = elim i [ ]
reset_list-answered (_ ∷ rest) s a e v (here _) =
    rw (reset_list, e)
      (reset_list-log (length rest) (answered a Answer.reset_error)
        (siop_scsidone a Answer.reset_error s)
        (done-log (answered a Answer.reset_error) a Answer.reset_error s (here s.log)))
reset_list-answered (b ∷ rest) s a e v (there _ _ i) =
    let first : In b s.nexus_list = rw e (here rest) in
    rw (reset_list, e)
      (reset_list-answered rest (siop_scsidone b Answer.reset_error s) a
        (done-nexus_list b rest s e v) (done-Sound b Answer.reset_error s (inr first) v) i)

waiting-all_answered :
    {k : ℕ} (s : Softc)
    → Sound k s
    → ((reset_chip (reset_list (length s.nexus_list) s)).nexus_list ≡ [])
      × ((a : Acb)
          → In a s.nexus_list
          → In
              (answered a Answer.reset_error)
              (reset_chip (reset_list (length s.nexus_list) s)).log)
unfolding reset_chip
waiting-all_answered s v = (
  reset_list-empty s.nexus_list s refl v,
  λ a i.
      there chip_reset (reset_list (length s.nexus_list) s).log
        (reset_list-answered s.nexus_list s a refl v i),
)

nexus_self : (a : Acb) (s : Softc) → s.nexus ≡ some a → is_nexus a s.nexus ≡ true
unfolding is_nexus
nexus_self a s e = rw e (ground arith)

-- The command that had the chip was answered before the others.
nexus-answered :
    (a n : Acb) (s : Softc)
    → ◌≡◌ {A = Option Acb} (some n) (some a)
    → In
        (answered a Answer.reset_error)
        (reset_chip (
          reset_list
            (length (siop_scsidone n Answer.reset_error s).nexus_list)
            (siop_scsidone n Answer.reset_error s))).log
unfolding reset_chip
nexus-answered a n s same =
    let it : n ≡ a = cc same in
    let first = siop_scsidone n Answer.reset_error s in
    let logged : In (answered a Answer.reset_error) first.log =
      rw it (done-log (answered a Answer.reset_error) a Answer.reset_error s (here s.log)) in
    let rounds = length first.nexus_list in
    there chip_reset (reset_list rounds first).log
      (reset_list-log rounds (answered a Answer.reset_error) first logged)

idle_nexus : (a : Acb) → ◌≡◌ {A = Option Acb} none (some a) → ⊥
idle_nexus a e = cc e

answer_all-answers :
    {k : ℕ} (s : Softc)
    → Sound k s
    → ((answer_all s).nexus_list ≡ [])
      × ((a : Acb) → InFlight a s → In (answered a Answer.reset_error) (answer_all s).log)
unfolding answer_all
answer_all-answers s v = elim (Option-cases s.nexus) [
  | inl e ↦
      let (gone, all) = waiting-all_answered s v in
      rw (answer_all, e) (gone, λ a i. elim i [ inl h ↦ absurd (idle_nexus a h) | inr j ↦ all a j ])
  | inr (n, e) ↦
      let first = siop_scsidone n Answer.reset_error s in
      let (gone, all) = waiting-all_answered first (done-Sound n Answer.reset_error s (inl e) v) in
      let same = nexus_done-nexus_list n s (nexus_self n s e) in
      rw (answer_all, e)
        (gone, λ a i. elim i [ inl h ↦ nexus-answered a n s h | inr j ↦ all a (rw same j) ])
]

-- After a reset no command waits for its target, and each command that has the chip or waits for its
-- target once the interrupt is handled that the chip had latched, if any, is answered with the error
-- XS_RESET.
pub siopreset-all_answered :
    (latched : Latched) (k : ℕ) (s : Softc)
    → IsPossible latched s
    → Reachable k s
    → ((siopreset latched s).nexus_list ≡ [])
      × ((a : Acb)
          → InFlight a (siopintr latched s)
          → In (answered a Answer.reset_error) (siopreset latched s).log)
unfolding siopreset
siopreset-all_answered latched k s p r =
    answer_all-answers (siopintr latched s) (siopintr-Sound latched s p (Reachable-Sound k s r))
