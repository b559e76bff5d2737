-- ===== src/FdTable/Refs.antt =====
-- Reference counts: what duplicating and freeing a table does to the files that it holds.
use yu_noob_kernel.Base.{
  ℕ, zero, suc, ◌+◌, ◌-◌, ◌^◌, ◌≤◌, ◌<◌, ◌≡◌, ◌≢◌, refl, arith, List, [], ◌∷◌, length, get_or, set,
  replicate, ltb, ◌==◌, if◌then◌else◌, ◌&&◌,
}
use native.Mathlib.Decide.{ℕ_discrete}
use yu_noob_kernel.FdTable.{Slot, empty, reserved, file, Files, file_put, put_slots}

-- How many slots hold the file `g`.
unfoldable pub holds : ℕ → Slot → ℕ
holds g (file f) = if f == g then 1 else 0
holds g _ = 0

unfoldable pub count_of : ℕ → List Slot → ℕ
unfolding holds
count_of g [] = 0
count_of g (s ∷ ss) = holds g s + count_of g ss

pub count_of-set :
    (g : ℕ) (ss : List Slot) (i : ℕ) (s : Slot)
    → i < length ss
    → count_of g (set ss i s) + holds g (get_or ss i empty) ≡ count_of g ss + holds g s
unfolding count_of
count_of-set g [] i s h = absurd (omega arith)
count_of-set g (x ∷ xs) zero s h = omega arith
count_of-set g (x ∷ xs) (suc i) s h = omega (arith, count_of-set g xs i s (omega arith))

pub count_of-replicate : (g n : ℕ) → count_of g (replicate n empty) ≡ 0
unfolding count_of holds replicate
count_of-replicate g zero = refl
count_of-replicate g (suc n) = omega (arith, count_of-replicate g n)

-- How often a file was closed.
pub times_closed : ℕ → List ℕ → ℕ
times_closed g [] = 0
times_closed g (f ∷ fs) = if f == g then times_closed g fs + 1 else times_closed g fs

-- What putting every file of a list of slots does to the file `g`.
pub record Puts (g : ℕ) (ss : List Slot) (fs fs' : Files) : Type 0 where
  pub refs : fs'.refcnt g ≡ fs.refcnt g - count_of g ss
  pub closes :
      times_closed g fs'.closed
      ≡ times_closed g fs.closed
        + (if ltb 0 (count_of g ss) && (fs.refcnt g == count_of g ss) then 1 else 0)

file_put_self :
    (g : ℕ) (fs : Files)
    → 0 < fs.refcnt g
    → fs.refcnt g < 2 ^ 32
    → ((file_put fs g).refcnt g ≡ fs.refcnt g - 1)
      × (times_closed g (file_put fs g).closed
          ≡ times_closed g fs.closed + (if fs.refcnt g == 1 then 1 else 0))
unfolding file_put times_closed
file_put_self g fs h k = ground arith

file_put_ne :
    (g f : ℕ) (fs : Files)
    → f ≢ g
    → ((file_put fs f).refcnt g ≡ fs.refcnt g)
      × (times_closed g (file_put fs f).closed ≡ times_closed g fs.closed)
unfolding file_put times_closed
file_put_ne g f fs h = ground arith

pub put_slots-Puts :
    (g : ℕ) (ss : List Slot) (fs : Files)
    → count_of g ss ≤ fs.refcnt g
    → fs.refcnt g < 2 ^ 32
    → Puts g ss fs (put_slots ss fs)
unfolding put_slots count_of holds
put_slots-Puts g [] fs h k = ground arith
put_slots-Puts g (empty ∷ ss) fs h k = ground (arith, put_slots-Puts g ss fs)
put_slots-Puts g (reserved ∷ ss) fs h k = ground (arith, put_slots-Puts g ss fs)
put_slots-Puts g (file f ∷ ss) fs h k = elim (ℕ_discrete f g) [
  | yes e ↦
      let self = file_put_self g fs in
      let ih = put_slots-Puts g ss (file_put fs g) in rw e (ground (arith, self, ih))
  | no n ↦ ground (arith, file_put_ne g f fs n, put_slots-Puts g ss (file_put fs f))
]
