-- ===== src/Siop/Queue/Sound.antt =====
-- What the queues of siop.c hold: no ACB is lost or in two places, a LUN that is busy has one command at
-- its target, and the active commands are counted,
-- but for those that time out while they are ready.
use a4091_software.Base.{
  ℕ, ◌+◌, ◌-◌, ◌*◌, ◌%◌, ◌^◌, ◌≤◌, ◌≡◌, refl, sym, Bool, true, false, not, Option, none, some, List,
  [], ◌∷◌, ◌==◌, if◌then◌else◌, ltb, arith, Bool-cases, Option-cases, inl, inr,
}
use a4091_software.Siop.Queue.{
  Acb, Softc, take_first, is_nexus, is_last, is_in, remove, is_busy, unqueue, siop_sched,
}
use a4091_software.Siop.Queue.Count.{
  bit, weight, opt, same, at, one, In, Taken, take_first-Taken, set_busy-mark, set_busy-clear,
  In-same, In-is_in, is_in-same, is_last-same, remove-weight,
}

unfoldable pub count : ℕ → List ℕ → ℕ
count k [] = 0
count k (id ∷ ids) = bit (id == k) + count k ids

-- k is how often the driver has taken a command off sc_active that was not counted in it.
pub record Sound (k : ℕ) (s : Softc) : Type 0 where
  pub luns :
      (t l : ℕ) → weight (at t l) (opt s.nexus) + weight (at t l) s.nexus_list ≡ bit (s.busy t l)
  pub active :
      s.active ≡ (weight one (opt s.nexus) + weight one s.nexus_list + k * (2 ^ 32 - 1)) % 2 ^ 32
  pub copies :
      (i : ℕ)
      → count i s.free
          + weight (same i) s.ready
          + weight (same i) (opt s.nexus)
          + weight (same i) s.nexus_list
        ≡ bit (ltb i 16)

at_most_one : (b : Bool) → bit b ≤ 1
unfolding bit
at_most_one true = omega arith
at_most_one false = omega arith

self : (a : Acb) → same a.id a ≡ 1
unfolding same bit
self a = ground arith

pub opt-none : (f : Acb → ℕ) (o : Option Acb) → o ≡ none → weight f (opt o) ≡ 0
unfolding weight opt
opt-none f o e = rw e refl

pub opt-some : (f : Acb → ℕ) (o : Option Acb) (a : Acb) → o ≡ some a → weight f (opt o) ≡ f a
unfolding weight opt
opt-some f o a e = rw e (omega arith)

refuted : (b : Bool) → not b ≡ true → b ≡ false
refuted true e = absurd (cc e)
refuted false e = refl

-- With nothing at the chip, the next command is started.
pub sched-Sound : {k : ℕ} (s : Softc) → s.nexus ≡ none → Sound k s → Sound k (siop_sched s)
unfolding siop_sched Taken weight opt one
sched-Sound s idle v =
    let t = take_first-Taken (λ a. not (is_busy s a)) s.ready in
    elim (Option-cases (take_first (λ a. not (is_busy s a)) s.ready)) [
      | inl e ↦ rw (siop_sched, e) v
      | inr (r, e) ↦
          let (free, w) : Taken (λ a. not (is_busy s a)) s.ready (some r) = rw e at t in
          let none0 = λ (f : Acb → ℕ). opt-none f s.nexus idle in
          rw (siop_sched, e)
            (record {
              luns = λ t l.
                  let before : weight (at t l) s.nexus_list ≡ bit (s.busy t l) =
                    sym (omega (arith, none0 (at t l), v.luns t l)) in
                  let after =
                    set_busy-mark r.0 s.busy t l (weight (at t l) s.nexus_list)
                      (refuted (is_busy s r.0) free) before in
                  omega (arith, after);
              active = omega (arith, none0 one, v.active);
              copies = λ k. omega (arith, none0 (same k), v.copies k, w (same k));
            })
    ]

-- The command at the chip leaves.
pub unqueue_nexus-Sound :
    {k : ℕ} (a : Acb) (s : Softc) → s.nexus ≡ some a → Sound k s → Sound k (unqueue a s)
unfolding unqueue weight opt one is_nexus count
unqueue_nexus-Sound a s e v =
    let this : is_nexus a s.nexus ≡ true = rw e (ground arith) in
    let some1 = λ (f : Acb → ℕ). opt-some f s.nexus a e in
    rw (unqueue, this)
      (record {
        luns = λ t l.
            let before : at t l a + weight (at t l) s.nexus_list ≡ bit (s.busy t l) =
              omega (arith, some1 (at t l), v.luns t l) in
            omega (arith, set_busy-clear a s.busy t l (weight (at t l) s.nexus_list) before);
        active = omega (arith, some1 one, v.active);
        copies = λ k. unfold same in omega (arith, some1 (same k), v.copies k);
      })

is_nexus-same : (a : Acb) (o : Option Acb) → is_nexus a o ≡ true → 1 ≤ weight (same a.id) (opt o)
unfolding weight opt is_nexus same bit
is_nexus-same a none h = absurd (cc h)
is_nexus-same a (some n) h = ground arith

-- The places of a command that waits for its target.
pub waits :
    {k : ℕ} (a : Acb) (s : Softc)
    → In a s.nexus_list
    → Sound k s
    → (is_nexus a s.nexus ≡ false)
      × (is_last a s.ready ≡ false)
      × (weight (same a.id) s.nexus_list ≤ 1)
waits a s i v =
    let all = v.copies a.id in
    let cap = at_most_one (ltb a.id 16) in
    let here = In-same a s.nexus_list i in
    (
      (elim (Bool-cases (is_nexus a s.nexus)) [
        | inl h ↦ absurd (omega (arith, all, cap, here, is_nexus-same a s.nexus h))
        | inr h ↦ h
      ]),
      (elim (Bool-cases (is_last a s.ready)) [
        | inl h ↦ absurd (omega (arith, all, cap, here, is_last-same a s.ready h))
        | inr h ↦ h
      ]),
      omega (arith, all, cap),
    )

-- A command that waits for its target leaves.
pub unqueue_waiting-Sound :
    {k : ℕ} (a : Acb) (s : Softc) → In a s.nexus_list → Sound k s → Sound k (unqueue a s)
unfolding unqueue weight opt one count
unqueue_waiting-Sound a s i v =
    let (other, not_last, once) = waits a s i v in
    let gone = λ (f : Acb → ℕ). remove-weight a s.nexus_list f i once in
    rw (unqueue, other, not_last, In-is_in a s.nexus_list i)
      (record {
        luns = λ t l.
            let rest = weight (at t l) (opt s.nexus) + weight (at t l) (remove a s.nexus_list) in
            set_busy-clear a s.busy t l rest (omega (arith, gone (at t l), v.luns t l));
        active = omega (arith, gone one, v.active);
        copies = λ k. unfold same in omega (arith, gone (same k), v.copies k);
      })

-- The places of a command that is ready.
pub stands :
    {k : ℕ} (a : Acb) (s : Softc)
    → In a s.ready
    → Sound k s
    → (is_nexus a s.nexus ≡ false)
      × (is_in a s.nexus_list ≡ false)
      × (weight (same a.id) s.ready ≤ 1)
stands a s i v =
    let all = v.copies a.id in
    let cap = at_most_one (ltb a.id 16) in
    let here = In-same a s.ready i in
    (
      (elim (Bool-cases (is_nexus a s.nexus)) [
        | inl h ↦ absurd (omega (arith, all, cap, here, is_nexus-same a s.nexus h))
        | inr h ↦ h
      ]),
      (elim (Bool-cases (is_in a s.nexus_list)) [
        | inl h ↦ absurd (omega (arith, all, cap, here, is_in-same a s.nexus_list h))
        | inr h ↦ h
      ]),
      omega (arith, all, cap),
    )

-- Whether sc_active is one less after a ready command has left.
abbrev pub miscounted : Acb → Softc → ℕ
miscounted a s = if is_last a s.ready then 0 else 1

-- A ready command leaves: it is taken off sc_active, unless it is the last of its list.
pub unqueue_ready-Sound :
    {k : ℕ} (a : Acb) (s : Softc)
    → In a s.ready
    → Sound k s
    → Sound (miscounted a s + k) (unqueue a s)
unfolding unqueue weight one count
unqueue_ready-Sound {k} a s i v =
    let (other, elsewhere, once) = stands a s i v in
    let gone = λ (f : Acb → ℕ). remove-weight a s.ready f i once in
    elim (Bool-cases (is_last a s.ready)) [
      | inl last ↦
          rw (unqueue, other, last)
            (record {
              luns = v.luns;
              active = omega (arith, v.active);
              copies = λ j. unfold same in omega (arith, gone (same j), v.copies j);
            })
      | inr early ↦
          rw (unqueue, other, early, elsewhere, In-is_in a s.ready i)
            (record {
              luns = v.luns;
              active = omega (arith, v.active);
              copies = λ j. unfold same in omega (arith, gone (same j), v.copies j);
            })
    ]
