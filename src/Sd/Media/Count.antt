-- ===== src/Sd/Media/Count.antt =====
-- The change count follows the medium: what one completed TEST UNIT READY changes, and a sequence.
use a4091_software.Base.{
  ℕ, ◌+◌, ◌-◌, ◌%◌, ◌^◌, ◌<◌, ◌≡◌, Bool, true, false, not, Option, none, List, [], ◌∷◌, arith, ◌==◌,
  if◌then◌else◌, ap, ◌∙◌, some, map, refl, Option-cases, inl, inr,
}
use a4091_software.Periph.{ChangeInt, Periph}
use a4091_software.Sd.Errors.{XsResult, xs_sense, no_disk}
use a4091_software.Sd.Media.{
  changeint_signals, call_changeintlist, sd_media_loaded, sd_media_unloaded,
}
use a4091_software.Sd.Media.Tur.{sd_tur_completed}

-- Whether the result says that there is a medium, given whether there was one: a sense key other
-- than "not ready" says nothing.
abbrev pub medium_after : XsResult → Bool → Bool
medium_after xs before =
    if xs.error == xs_sense
    then (if xs.sense_key == 2 then not (no_disk xs.asc xs.ascq) else before)
    else true

abbrev pub differs : Bool → Bool → Bool
differs true b = not b
differs false b = b

abbrev pub tick : Bool → ℕ
tick true = 1
tick false = 0

-- The interrupts that a list of TD_ADDCHANGEINT requests asks for; a request may have none.
unfoldable pub asked_for : List (Option ℕ) → List ℕ
asked_for [] = []
asked_for (none ∷ rest) = asked_for rest
asked_for (some i ∷ rest) = i ∷ asked_for rest

-- The registered change interrupts: that of TD_REMOVE, then that of each TD_ADDCHANGEINT request.
unfoldable pub registered : Periph → List ℕ
registered p = asked_for (p.changeint ∷ map (λ (c : ChangeInt). c.handler) p.changeintlist)

signals-asked_for :
    (cs : List ChangeInt) → changeint_signals cs ≡ asked_for (map (λ (c : ChangeInt). c.handler) cs)
unfolding changeint_signals asked_for
signals-asked_for [] = refl
signals-asked_for (c ∷ cs) = elim (Option-cases c.handler) [
  | inl e ↦ rw e (signals-asked_for cs)
  | inr (i, e) ↦ rw e (ap (λ (is : List ℕ). i ∷ is) (signals-asked_for cs))
]

call_changeintlist-registered : (p : Periph) → call_changeintlist p ≡ registered p
unfolding call_changeintlist registered asked_for
call_changeintlist-registered p =
    let rest = signals-asked_for p.changeintlist in
    elim (Option-cases p.changeint) [
      | inl e ↦ rw e rest
      | inr (i, e) ↦ rw e (ap (λ (is : List ℕ). i ∷ is) rest)
    ]

sd_tur_completed-calls :
    (p : Periph) (xs : XsResult) (ior : Option ℕ)
    → (sd_tur_completed p xs ior).1 ≡ (
        if differs p.media_loaded (medium_after xs p.media_loaded)
        then call_changeintlist p
        else [])
unfolding sd_tur_completed sd_media_loaded sd_media_unloaded call_changeintlist
sd_tur_completed-calls p xs ior = ground arith

-- For a change count below 2 ^ 32, a completed TEST UNIT READY sets the loaded flag to what the
-- result says of the medium, adds 1 modulo 2 ^ 32 to the change count exactly if the flag changed,
-- takes 1 off the commands under way, and changes nothing else of the peripheral. Exactly if the flag
-- changed it sends, each once and in order, the interrupt of TD_REMOVE, if one is registered, and that of
-- each TD_ADDCHANGEINT request that has one.
pub sd_tur_completed-medium :
    (p : Periph) (xs : XsResult) (ior : Option ℕ)
    → p.changenum < 2 ^ 32
    → let after = medium_after xs p.media_loaded in
      let changed = differs p.media_loaded after in
      ((sd_tur_completed p xs ior).0 ≡ record p {
        media_loaded = after;
        changenum = (p.changenum + tick changed) % 2 ^ 32;
        tur_active = (p.tur_active + 2 ^ 32 - 1) % 2 ^ 32;
      })
      × ((sd_tur_completed p xs ior).1 ≡ (if changed then registered p else []))
unfolding sd_tur_completed sd_media_loaded sd_media_unloaded
sd_tur_completed-medium p xs ior h =
    (ground arith, rw (call_changeintlist-registered p) at (sd_tur_completed-calls p xs ior))

-- The results of a sequence of commands, one after the other.
pub watch : Periph → List XsResult → Periph
watch p [] = p
watch p (xs ∷ rest) = watch (sd_tur_completed p xs none).0 rest

-- How often the medium comes or goes over the sequence.
unfoldable pub changes : Bool → List XsResult → ℕ
changes b [] = 0
changes b (xs ∷ rest) = tick (differs b (medium_after xs b)) + changes (medium_after xs b) rest

-- Over any sequence of completed TEST UNIT READY commands, from a change count below 2 ^ 32, the
-- count advances modulo 2 ^ 32 by the number of times that the medium came or went.
pub watch-changes :
    (p : Periph) (results : List XsResult)
    → p.changenum < 2 ^ 32
    → (watch p results).changenum ≡ (p.changenum + changes p.media_loaded results) % 2 ^ 32
unfolding watch changes
watch-changes p [] h = omega arith
watch-changes p (xs ∷ rest) h =
    let first = sd_tur_completed-medium p xs none h in
    let count = ap (λ (q : Periph). q.changenum) first.0 in
    let medium = ap (λ (q : Periph). q.media_loaded) first.0 in
    let ih = watch-changes (sd_tur_completed p xs none).0 rest (omega arith) in
    ih ∙ (rw (count, medium) (omega arith))
