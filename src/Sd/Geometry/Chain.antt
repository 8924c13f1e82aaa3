-- ===== src/Sd/Geometry/Chain.antt =====
-- The chain of TD_GETGEOMETRY completes its request once, whatever the device answers.
use a4091_software.Base.{
  ℕ, ◌<◌, ◌≤◌, ◌≡◌, refl, true, false, Option, none, some, List, [], ◌∷◌, arith, length,
}
use a4091_software.Base.Int.{ℤ}
use a4091_software.Scsi.{Scsipi}
use a4091_software.Periph.{Periph}
use a4091_software.Sd.Geometry.Step.{
  Stage, inquiry, capacity, page_3, page_4, page_5, Chain, Next, sent, replied, Event, done,
  sd_getgeometry,
}

-- The commands that the chain can still send, this one included.
pub rank : Stage → ℕ
rank inquiry = 8
rank capacity = 7
rank (page_3 true) = 6
rank (page_3 false) = 5
rank (page_4 true) = 4
rank (page_4 false) = 3
rank (page_5 true) = 2
rank (page_5 false) = 1

-- The buffers that the chain owns while a command is under way.
pub held : Stage → ℕ
held capacity = 0
held _ = 1

follow : (Stage → Chain → Chain × Option ℤ) → Chain × Next → Chain × Option ℤ
follow more (c, replied rc) = (c, some rc)
follow more (c, sent following) = more following c

-- Feeds one completion after the other to the chain, until the request is completed: the chain and
-- the request's code, `none` while it is not completed.
unfoldable pub run : List Event → Stage → Chain → Chain × Option ℤ
unfolding follow
run [] stage c = (c, none)
run (e ∷ es) stage c = follow (run es) (done stage e c)

-- One completion: a later stage with the buffers that it owns, or none left.
IsProgress : Stage → Chain → Next → Type 0
IsProgress stage c (sent following) = (rank following < rank stage) × (c.buffers ≡ held following)
IsProgress stage c (replied rc) = c.buffers ≡ 0

done-IsProgress :
    (stage : Stage) (e : Event) (c : Chain)
    → c.buffers ≡ held stage
    → IsProgress stage (done stage e c).0 (done stage e c).1
unfolding done rank held IsProgress
done-IsProgress inquiry e c h = ground arith
done-IsProgress capacity e c h = ground arith
done-IsProgress (page_3 true) e c h = ground arith
done-IsProgress (page_3 false) e c h = ground arith
done-IsProgress (page_4 true) e c h = ground arith
done-IsProgress (page_4 false) e c h = ground arith
done-IsProgress (page_5 true) e c h = ground arith
done-IsProgress (page_5 false) e c h = ground arith

IsComplete : Chain × Option ℤ → Type 0
IsComplete (c, o) = ((rc : ℤ) × (o ≡ some rc)) × (c.buffers ≡ 0)

rank-pos : (stage : Stage) → 0 < rank stage
unfolding rank
rank-pos (page_3 true) = omega arith
rank-pos (page_3 false) = omega arith
rank-pos (page_4 true) = omega arith
rank-pos (page_4 false) = omega arith
rank-pos (page_5 true) = omega arith
rank-pos _ = omega arith

follow-IsComplete :
    (more : Stage → Chain → Chain × Option ℤ) (stage : Stage) (r : Chain × Next)
    → IsProgress stage r.0 r.1
    → ((following : Stage) (c : Chain)
        → rank following < rank stage
        → c.buffers ≡ held following
        → IsComplete (more following c))
    → IsComplete (follow more r)
unfolding follow IsComplete IsProgress
follow-IsComplete more stage (c, replied rc) p ih = ((rc, refl), p)
follow-IsComplete more stage (c, sent following) p ih = ih following c p.0 p.1

run-IsComplete :
    (es : List Event) (stage : Stage) (c : Chain)
    → c.buffers ≡ held stage
    → rank stage ≤ length es
    → IsComplete (run es stage c)
unfolding run
run-IsComplete [] stage c h l = absurd (omega (arith, rank-pos stage))
run-IsComplete (e ∷ es) stage c h l =
    follow-IsComplete (run es) stage (done stage e c) (done-IsProgress stage e c h)
      λ following d less kept. run-IsComplete es following d kept (omega arith)

-- Once `sd_getgeometry` has started the chain with its INQUIRY, at most 8 completions end it,
-- whatever the device and the memory allocator answer: the request is completed with a code, and
-- every buffer of the chain has been freed.
pub sd_getgeometry-completes :
    (s : Scsipi) (buf buflen : ℕ) (p : Periph) (ior : Option ℕ) (es : List Event)
    → 8 ≤ length es
    → let end = run es inquiry (sd_getgeometry s true buf buflen p ior).0 in
      ((rc : ℤ) × (end.1 ≡ some rc)) × (end.0.buffers ≡ 0)
unfolding sd_getgeometry IsComplete rank held
sd_getgeometry-completes s buf buflen p ior es h =
    run-IsComplete es inquiry (sd_getgeometry s true buf buflen p ior).0 refl h
