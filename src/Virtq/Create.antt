-- ===== src/Virtq/Create.antt =====
-- `virtq_create`: every descriptor is free.
use native.Mathlib.Nat.{mod-eq_of_lt}
use yu_noob_kernel.Base.{
  ℕ, zero, suc, ◌+◌, ◌-◌, ◌%◌, ◌<◌, ◌≤◌, ◌≡◌, refl, sym, ap, arith, Bool, true, false, Bool-cases,
  inl, inr, ◌==◌, if◌then◌else◌, List, [], ◌∷◌, length, Option, none, some, occurs,
}
use yu_noob_kernel.Virtq.{Desc, Virtq, virtq_create}
use yu_noob_kernel.Virtq.Free.{IsFree, Linked}

-- So many numbers from one on.
unfoldable pub from_on : ℕ → ℕ → List ℕ
from_on start zero = []
from_on start (suc n) = start ∷ from_on (start + 1) n

length-from_on : (start n : ℕ) → length (from_on start n) ≡ n
unfolding from_on
length-from_on start zero = refl
length-from_on start (suc n) = ap suc (length-from_on (start + 1) n)

below_start : (x start n : ℕ) → x < start → occurs x (from_on start n) ≡ 0
unfolding from_on occurs
below_start x start zero h = refl
below_start x start (suc n) h = ground (arith, h, below_start x (start + 1) n (omega (arith, h)))

from_on-distinct : (x start n : ℕ) → occurs x (from_on start n) ≤ 1
unfolding from_on occurs
from_on-distinct x start zero = omega arith
from_on-distinct x start (suc n) = elim (Bool-cases (start == x)) [
  | inl e ↦
      let same : start ≡ x = ground arith in
      let none_above : occurs start (from_on (start + 1) n) ≡ 0 =
        below_start start (start + 1) n (omega arith) in
      rw (← same) (ground (arith, none_above))
  | inr e ↦ ground (arith, e, from_on-distinct x (start + 1) n)
]

-- Descriptors that lead to their successor up to the last one.
successors :
    (d : ℕ → Desc) (num start n : ℕ)
    → ((i : ℕ) → i + 1 < num → (d i).next ≡ i + 1)
    → start + n ≡ num
    → Linked d start (from_on start n)
unfolding Linked from_on
successors d num start zero s e = tt
successors d num start (suc zero) s e = (refl, tt)
successors d num start (suc (suc n)) s e = (
  refl,
  rw (s start (omega (arith, e))) (successors d num (start + 1) (suc n) s (omega (arith, e))),
)

abbrev Made : ℕ → Option Virtq → Type 0
Made num none = Unit {0}
Made num (some vq) = IsFree vq (from_on 0 num) × (vq.used_idx ≡ vq.used_ring_idx)

inner : (num i : ℕ) → i + 1 < num → (if i == num - 1 then 0 else (i + 1) % num) ≡ i + 1
inner num i h =
    let before : (i == num - 1) ≡ false = ground (arith, h) in rw before (mod-eq_of_lt h)

created : (num : ℕ) (ring_mem mem : Bool) → 0 < num → Made num (virtq_create num ring_mem mem)
unfolding virtq_create
created num false mem p = tt
created num true false p = tt
created num true true p = (
  record {
    linked = successors _ num 0 num (inner num) (omega arith);
    counted = sym (length-from_on 0 num);
    distinct = λ x. from_on-distinct x 0 num;
  },
  refl,
)

-- A queue that `virtq_create` made has all its descriptors free, in their order, and no finished
-- request. It has at least one descriptor.
pub virtq_create-IsFree :
    (num : ℕ) (ring_mem mem : Bool) {vq : Virtq}
    → 0 < num
    → virtq_create num ring_mem mem ≡ some vq
    → IsFree vq (from_on 0 num) × (vq.used_idx ≡ vq.used_ring_idx)
virtq_create-IsFree num ring_mem mem p h = rw h at (created num ring_mem mem p)
