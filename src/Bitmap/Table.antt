-- ===== src/Bitmap/Table.antt =====
-- Facts on the bits of a byte, by a look at all of them.
use Prim.Native.Nat.{bit_and, bit_or, bit_xor}
use yu_noob_kernel.Base.{
  ℕ, zero, suc, ◌-◌, ◌^◌, ◌<◌, ◌≡◌, refl, inl, inr, arith, Bool, true, Bool-cases, ◌==◌,
  if◌then◌else◌, ◌&&◌,
}
use yu_noob_kernel.Bitmap.{bit_of}

-- A test holds of all numbers below a bound.
unfoldable pub all_below : ℕ → (ℕ → Bool) → Bool
all_below zero p = true
all_below (suc n) p = p n && all_below n p

all_below_lem : (n : ℕ) (p : ℕ → Bool) → all_below n p ≡ true → (k : ℕ) → k < n → p k ≡ true
unfolding all_below
all_below_lem zero p h k l = absurd (omega (arith, l))
all_below_lem (suc n) p h k l = elim (Bool-cases (n == k)) [
  | inl e ↦
      let same : n ≡ k = ground arith in
      let here : p n ≡ true = ground (arith, h) in rw same at here
  | inr e ↦ all_below_lem n p (ground (arith, h)) k (ground (arith, l, e))
]

-- One test of a byte and two of its bits.
abbrev pub every_bit : (ℕ → ℕ → ℕ → Bool) → Bool
every_bit p = all_below 256 (λ b. all_below 8 (λ i. all_below 8 (p b i)))

pub every_bit_lem :
    (p : ℕ → ℕ → ℕ → Bool)
    → every_bit p ≡ true
    → (b i j : ℕ) → b < 256
    → i < 8
    → j < 8
    → p b i j ≡ true
every_bit_lem p h b i j lb li lj =
    all_below_lem 8 (p b i)
      (all_below_lem 8 (λ x. all_below 8 (p b x))
        (all_below_lem 256 (λ y. all_below 8 (λ x. all_below 8 (p y x))) h b lb) i li)
      j lj

==_sound : (m n : ℕ) → (m == n) ≡ true → m ≡ n
==_sound m n h = ground (arith, h)

abbrev set_agrees : ℕ → ℕ → ℕ → Bool
set_agrees b i j = bit_of (bit_or b (2 ^ i)) j == (if i == j then 1 else bit_of b j)

set_agrees_all : every_bit set_agrees ≡ true
unfolding all_below
set_agrees_all = refl

-- The store of `bitmap_set`, on its byte.
pub set_bit :
    (b i j : ℕ)
    → b < 256
    → i < 8
    → j < 8
    → bit_of (bit_or b (2 ^ i)) j ≡ (if i == j then 1 else bit_of b j)
set_bit b i j lb li lj = ==_sound _ _ (every_bit_lem set_agrees set_agrees_all b i j lb li lj)

abbrev clear_agrees : ℕ → ℕ → ℕ → Bool
clear_agrees b i j = bit_of (bit_and b (2 ^ 32 - 1 - 2 ^ i)) j == (if i == j then 0 else bit_of b j)

clear_agrees_all : every_bit clear_agrees ≡ true
unfolding all_below
clear_agrees_all = refl

-- The store of `bitmap_clear`, on its byte.
pub clear_bit :
    (b i j : ℕ)
    → b < 256
    → i < 8
    → j < 8
    → bit_of (bit_and b (2 ^ 32 - 1 - 2 ^ i)) j ≡ (if i == j then 0 else bit_of b j)
clear_bit b i j lb li lj = ==_sound _ _ (every_bit_lem clear_agrees clear_agrees_all b i j lb li lj)

abbrev flip_agrees : ℕ → ℕ → ℕ → Bool
flip_agrees b i j = bit_of (bit_xor b (2 ^ i)) j == (if i == j then 1 - bit_of b j else bit_of b j)

flip_agrees_all : every_bit flip_agrees ≡ true
unfolding all_below
flip_agrees_all = refl

-- The store of `bitmap_flip`, on its byte.
pub flip_bit :
    (b i j : ℕ)
    → b < 256
    → i < 8
    → j < 8
    → bit_of (bit_xor b (2 ^ i)) j ≡ (if i == j then 1 - bit_of b j else bit_of b j)
flip_bit b i j lb li lj = ==_sound _ _ (every_bit_lem flip_agrees flip_agrees_all b i j lb li lj)
