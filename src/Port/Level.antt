-- ===== src/Port/Level.antt =====
-- `bsd_splbio` and `bsd_splx` of port.c. `calls` are the calls of Disable and Enable, the last first.
use a4091_software.Base.{
  ℕ, zero, suc, ◌+◌, ◌≡◌, refl, List, [], ◌∷◌, ◌==◌, if◌then◌else◌, arith, ◌<◌, false, true,
}

pub data Call : Type 0 where
  disable enable : Call

pub record Interrupts : Type 0 where
  pub ilevel : ℕ
  pub calls : List Call

-- The level before, which the caller keeps.
unfoldable pub bsd_splbio : Interrupts → ℕ × Interrupts
bsd_splbio s = (s.ilevel, record s { ilevel = s.ilevel + 1; calls = disable ∷ s.calls })

unfoldable pub bsd_splx : ℕ → Interrupts → Interrupts
bsd_splx ilevel s =
    if ilevel == 0
    then record s { ilevel = ilevel; calls = enable ∷ s.calls }
    else record s { ilevel = ilevel }

-- n sections within one another, each between the two calls.
unfoldable pub nested : ℕ → Interrupts → Interrupts
nested zero s = s
nested (suc n) s = let (ilevel, inside) = bsd_splbio s in bsd_splx ilevel (nested n inside)

unfoldable pub disables : List Call → ℕ
disables [] = 0
disables (disable ∷ cs) = suc (disables cs)
disables (enable ∷ cs) = disables cs

unfoldable pub enables : List Call → ℕ
enables [] = 0
enables (disable ∷ cs) = enables cs
enables (enable ∷ cs) = suc (enables cs)

-- What n sections do at level l.
abbrev Adds : ℕ → ℕ → Interrupts → Interrupts → Type 0
Adds n k s t =
    (t.ilevel ≡ s.ilevel)
    × (disables t.calls ≡ disables s.calls + n)
    × (enables t.calls ≡ enables s.calls + k)

inner-Adds : (n : ℕ) (s : Interrupts) → 0 < s.ilevel → Adds n 0 s (nested n s)
unfolding nested bsd_splbio bsd_splx disables enables
inner-Adds zero s h = (refl, omega arith, omega arith)
inner-Adds (suc n) s h =
    let inside : Interrupts = record s { ilevel = s.ilevel + 1; calls = disable ∷ s.calls } in
    let (same, on, off) = inner-Adds n inside (omega arith) in
    let above : (s.ilevel == 0) ≡ false = ground arith in rw above (refl, omega (arith, on), off)

-- n + 1 sections within one another, entered at level 0, come back to level 0 after n + 1 calls of
-- Disable and one call of Enable: only where nothing is nested (n is 0) do these balance.
pub nested-calls :
    (n : ℕ) (s : Interrupts)
    → s.ilevel ≡ 0
    → ((nested (suc n) s).ilevel ≡ 0)
      × (disables (nested (suc n) s).calls ≡ disables s.calls + suc n)
      × (enables (nested (suc n) s).calls ≡ enables s.calls + 1)
unfolding nested bsd_splbio bsd_splx disables enables
nested-calls n s h =
    let inside : Interrupts = record s { ilevel = s.ilevel + 1; calls = disable ∷ s.calls } in
    let (same, on, off) = inner-Adds n inside (omega arith) in
    let outermost : (s.ilevel == 0) ≡ true = ground arith in
    rw outermost (h, omega (arith, on), omega (arith, off))
