-- ===== src/Mounter/Relocate/InBounds.antt =====
-- Every access of the second loop of `fsrelocate` is within the memory of the hunks.
use a4091_software.Base.{
  ℕ, zero, suc, ◌+◌, ◌*◌, ◌^◌, ◌≤◌, ◌<◌, ◌≡◌, refl, sym, ap, ◌∙◌, false, Option, none, some, List,
  [], ◌∷◌, ltb, arith, length, map,
}
use a4091_software.Mounter.Blocks.{Outcome, done, failed, hung}
use a4091_software.Mounter.Lseg.{Lseg}
use a4091_software.Mounter.Relocate.{
  Hunk, Final, refused, loaded, fault, endless, with_value, store, hunk_at, put_hunk, write_hunk,
  bytes_of,
}

-- What no write changes of a hunk: its size, its address and the extent of its memory.
abbrev pub Extent : Type 0
Extent = ℕ × ℕ × ℕ

abbrev pub extent : Hunk → Extent
extent h = (h.size, h.addr, length h.bytes)

abbrev pub extents : List Hunk → List Extent
extents = map extent

-- At least one long, fewer than 2 ^ 30, and memory for all of them.
abbrev pub Sound : Extent → Type 0
Sound x = (0 < x.0) × (x.0 < 2 ^ 30) × (x.2 ≡ 4 * x.0)

unfoldable pub AllSound : List Extent → Type 0
AllSound [] = Unit
AllSound (x ∷ xs) = Sound x × AllSound xs

-- The hunks that are loaded, or freed, are those of the table.
unfoldable pub Safe : List Extent → Final → Type 0
Safe zs (refused hs) = extents hs ≡ zs
Safe zs (loaded hs) = extents hs ≡ zs
Safe zs fault = ⊥
Safe zs endless = Unit

pub with_value-Safe :
    (zs : List Extent) (r : Option (Outcome ℕ × Lseg)) (ok : ℕ → Lseg → Final) (fail : Final)
    → ((v : ℕ) (t : Lseg) → Safe zs (ok v t))
    → Safe zs fail
    → Safe zs (with_value r ok fail)
unfolding with_value Safe
with_value-Safe zs none ok fail good bad = tt
with_value-Safe zs (some (done v, t)) ok fail good bad = good v t
with_value-Safe zs (some (failed, t)) ok fail good bad = bad
with_value-Safe zs (some (hung, t)) ok fail good bad = tt

length-store : (i : ℕ) (xs ys : List ℕ) → length (store i xs ys) ≡ length ys
unfolding store
length-store i xs [] = refl
length-store (suc i) xs (y ∷ ys) = ap suc (length-store i xs ys)
length-store zero [] (y ∷ ys) = refl
length-store zero (x ∷ xs) (y ∷ ys) = ap suc (length-store zero xs ys)

extents_put :
    (i : ℕ) (h k : Hunk) (hs : List Hunk)
    → hunk_at hs i ≡ some h
    → extent k ≡ extent h
    → extents (put_hunk i k hs) ≡ extents hs
unfolding hunk_at put_hunk
extents_put i h k [] e same = refl
extents_put zero h k (j ∷ js) e same =
    let here : j ≡ h = cc in ap (λ (x : Extent). x ∷ extents js) (rw here same)
extents_put (suc i) h k (j ∷ js) e same =
    ap (λ (xs : List Extent). extent j ∷ xs) (extents_put i h k js e same)

-- The hunk of an index of the table.
abbrev pub Found : List Hunk → ℕ → Type 0
Found hs i = (h : Hunk) × (hunk_at hs i ≡ some h) × Sound (extent h)

find : (hs : List Hunk) (i : ℕ) → AllSound (extents hs) → i < length hs → Found hs i
unfolding AllSound hunk_at
find [] i a h = absurd (omega arith)
find (j ∷ js) zero (good, a) h = (j, refl, good)
find (j ∷ js) (suc i) (good, a) h = find js i a (omega arith)

module _ (zs : List Extent) (sound : AllSound zs) where
  pub known_hunk : (hs : List Hunk) (i : ℕ) → extents hs ≡ zs → i < length hs → Found hs i
  known_hunk hs i e h = find hs i (rw e sound) h

  pub write-Safe :
      (i offset : ℕ) (xs : List ℕ) (hs : List Hunk) (h : Hunk) (more : List Hunk → Final)
      → extents hs ≡ zs
      → hunk_at hs i ≡ some h
      → offset + length xs ≤ length h.bytes
      → ((ks : List Hunk) → extents ks ≡ zs → Safe zs (more ks))
      → Safe zs (write_hunk i offset xs hs more)
  unfolding write_hunk
  write-Safe i offset xs hs h more e here room next =
      let inside : ltb (length h.bytes) (offset + length xs) ≡ false = ground arith in
      let written : Hunk = record h { bytes = store offset xs h.bytes } in
      let same : extent written ≡ extent h =
        ap (λ (n : ℕ). (h.size, h.addr, n)) (length-store offset xs h.bytes) in
      rw (here, inside, write_hunk)
        (next (put_hunk i written hs) (extents_put i h written hs here same ∙ e))

pub length-bytes_of : (xs : List ℕ) → length (bytes_of xs) ≡ 4 * length xs
unfolding bytes_of
length-bytes_of [] = refl
length-bytes_of (x ∷ xs) = omega (arith, length-bytes_of xs)

length-extents : (hs : List Hunk) → length (extents hs) ≡ length hs
length-extents [] = refl
length-extents (h ∷ hs) = ap suc (length-extents hs)

pub known_length : (zs : List Extent) (hs : List Hunk) → extents hs ≡ zs → length hs ≡ length zs
known_length zs hs e = sym (length-extents hs) ∙ ap (λ (xs : List Extent). length xs) e

pub in_table : (hs : List Hunk) (i : ℕ) {h : Hunk} → hunk_at hs i ≡ some h → i < length hs
unfolding hunk_at
in_table [] i e = absurd (stuck e)
  where
    stuck : {h : Hunk} → ◌≡◌ {A = Option Hunk} none (some h) → ⊥
    stuck e = cc
in_table (j ∷ js) zero e = omega arith
in_table (j ∷ js) (suc i) e = omega (arith, in_table js i e)

pub Sound-at :
    (zs : List Extent) (sound : AllSound zs) (hs : List Hunk) (i : ℕ) {h : Hunk}
    → extents hs ≡ zs
    → hunk_at hs i ≡ some h
    → Sound (extent h)
Sound-at zs sound hs i {h} e here =
    let (k, there, good) = known_hunk zs sound hs i e (in_table hs i here) in
    let same : k ≡ h = cc in rw same at good
