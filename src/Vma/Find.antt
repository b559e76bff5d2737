-- ===== src/Vma/Find.antt =====
-- The order of the list of areas, and what `vma_find` finds in it.
use yu_noob_kernel.Base.{
  ℕ, ◌+◌, ◌^◌, ◌≤◌, ◌<◌, ◌≡◌, refl, arith, Bool, ltb, leb, if◌then◌else◌, ◌&&◌, List, [], ◌∷◌,
  Option, none, some,
}
use yu_noob_kernel.Vma.{Vma, vma_find}

-- An area that is not empty and whose end does not wrap.
pub record IsProper (v : Vma) : Type 0 where
  pub nonempty : 0 < v.length
  pub no_wrap : v.start + v.length < 2 ^ 64

-- All areas lie at or above an address.
abbrev pub AllFrom : ℕ → List Vma → Type 0
AllFrom a [] = Unit {0}
AllFrom a (v ∷ vs) = (a ≤ v.start) × AllFrom a vs

-- The areas are proper, in ascending order, and none overlaps the next.
abbrev pub IsOrdered : List Vma → Type 0
IsOrdered [] = Unit {0}
IsOrdered (v ∷ vs) = IsProper v × AllFrom (v.start + v.length) vs × IsOrdered vs

-- `va` lies in the area.
abbrev pub contains : Vma → ℕ → Bool
contains v va = leb v.start va && ltb va (v.start + v.length)

pub AllFrom-mono : (a b : ℕ) (vs : List Vma) → a ≤ b → AllFrom b vs → AllFrom a vs
AllFrom-mono a b [] h k = tt
AllFrom-mono a b (v ∷ vs) h k = (omega arith, AllFrom-mono a b vs h k.1)

pub find_below : (vs : List Vma) (va : ℕ) → AllFrom (va + 1) vs → vma_find vs va ≡ none
unfolding vma_find
find_below [] va h = refl
find_below (v ∷ vs) va h = ground arith

-- In an ordered list the walk may be done without the early exit.
unfoldable pub find_first : List Vma → ℕ → Option Vma
find_first [] va = none
find_first (v ∷ vs) va = if contains v va then some v else find_first vs va

pub find_first_below : (vs : List Vma) (va : ℕ) → AllFrom (va + 1) vs → find_first vs va ≡ none
unfolding find_first
find_first_below [] va h = refl
find_first_below (v ∷ vs) va h = ground (arith, find_first_below vs va)

-- The early exit of `vma_find` and its test of the end in 64 bits lose nothing: in an ordered list it
-- returns the first area that contains the address, and none exactly if no area does.
pub vma_find-eq-find_first :
    (vs : List Vma) (va : ℕ) → IsOrdered vs → vma_find vs va ≡ find_first vs va
unfolding vma_find find_first
vma_find-eq-find_first [] va h = refl
vma_find-eq-find_first (v ∷ vs) va h = ground (
  arith,
  h.0.no_wrap,
  vma_find-eq-find_first vs va h.2,
  λ (p : va < v.start).
      find_first_below vs va (AllFrom-mono (va + 1) (v.start + v.length) vs (omega arith) h.1),
)
