-- ===== src/Mounter/FileSystems/Sorted.antt =====
-- Lists of file systems for FileSystem.resource of mounter.c, with the newest version of each type first.
use a4091_software.Base.{
  ℕ, ◌≤◌, ◌<◌, ◌≡◌, ◌&&◌, Option, none, some, List, [], ◌∷◌, ◌==◌, leb, arith, Bool-cases, In, here,
  there, inl, inr,
}
use mathlib.Core.Path.{subst}
use a4091_software.Mounter.FileSystems.{FileSysEntry, first_entry}

-- The entries of a type are older than a version, or not newer.
unfoldable pub AllBelow : (dos_type version : ℕ) → List FileSysEntry → Type 0
AllBelow t v [] = Unit
AllBelow t v (e ∷ es) = (e.dos_type ≡ t → e.version < v) × AllBelow t v es

unfoldable pub AllAtMost : (dos_type version : ℕ) → List FileSysEntry → Type 0
AllAtMost t v [] = Unit
AllAtMost t v (e ∷ es) = (e.dos_type ≡ t → e.version ≤ v) × AllAtMost t v es

unfoldable pub IsNewestFirst : List FileSysEntry → Type 0
IsNewestFirst [] = Unit
IsNewestFirst (e ∷ es) = AllBelow e.dos_type e.version es × IsNewestFirst es

pub below_at_most : (t v : ℕ) (es : List FileSysEntry) → AllBelow t v es → AllAtMost t v es
unfolding AllBelow AllAtMost
below_at_most t v [] b = tt
below_at_most t v (e ∷ es) (h, b) = (λ same. omega (arith, h same), below_at_most t v es b)

stuck : (x : FileSysEntry) → ◌≡◌ {A = Option FileSysEntry} (some x) none → ⊥
stuck x h = cc h

same_entry : (x e : FileSysEntry) → ◌≡◌ {A = Option FileSysEntry} (some x) (some e) → x ≡ e
same_entry x e h = cc h

-- What is not found is older.
pub first_entry-none :
    (t v : ℕ) (es : List FileSysEntry) → first_entry t v es ≡ none → AllBelow t v es
unfolding first_entry AllBelow
first_entry-none t v [] e = tt
first_entry-none t v (x ∷ es) e = elim (Bool-cases (x.dos_type == t && leb v x.version)) [
  | inl hit ↦ absurd (stuck x (rw (hit, first_entry) at e))
  | inr miss ↦ (λ same. ground arith, first_entry-none t v es (rw (miss, first_entry) at e))
]

-- What is found is the newest one.
pub first_entry-some :
    (t v : ℕ) (es : List FileSysEntry) (e : FileSysEntry)
    → IsNewestFirst es
    → first_entry t v es ≡ some e
    → (e.dos_type ≡ t) × (v ≤ e.version) × In e es × AllAtMost t e.version es
unfolding first_entry AllAtMost IsNewestFirst
first_entry-some t v [] e sorted h = absurd (stuck e (cc h))
first_entry-some t v (x ∷ es) e (below, sorted) h =
    elim (Bool-cases (x.dos_type == t && leb v x.version)) [
      | inl hit ↦
          let it : x ≡ e = same_entry x e (rw (hit, first_entry) at h) in
          let type_is : x.dos_type ≡ t = ground arith in
          let rest : AllAtMost t x.version es =
            rw type_is at (below_at_most x.dos_type x.version es below) in
          let all : (x.dos_type ≡ t)
              × (v ≤ x.version)
              × In x (x ∷ es)
              × AllAtMost t x.version (x ∷ es) =
            (type_is, ground arith, here es, (λ same. omega arith, rest)) in
          subst
            (λ (y : FileSysEntry).
              (y.dos_type ≡ t) × (v ≤ y.version) × In y (x ∷ es) × AllAtMost t y.version (x ∷ es))
            it all
      | inr miss ↦
          let (type_is, new_enough, place, rest) =
            first_entry-some t v es e sorted (rw (miss, first_entry) at h) in
          (type_is, new_enough, there x es place, (λ same. ground arith, rest))
    ]

pub AllAtMost-In :
    (t v : ℕ) (es : List FileSysEntry) (x : FileSysEntry)
    → AllAtMost t v es
    → In x es
    → x.dos_type ≡ t
    → x.version ≤ v
unfolding AllAtMost
AllAtMost-In t v [] x all i same = elim i [ ]
AllAtMost-In t v (_ ∷ es) x (h, all) (here _) same = h same
AllAtMost-In t v (_ ∷ es) x (h, all) (there _ _ i) same = AllAtMost-In t v es x all i same
