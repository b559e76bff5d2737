-- ===== src/RadixTree/Digits.antt =====
-- The digits of a key.
use yu_noob_kernel.Base.{
  ℕ, zero, suc, ◌+◌, ◌*◌, ◌/◌, ◌^◌, ◌<◌, ◌≡◌, refl, arith, true, false, Bool-cases, inl, inr, ◌==◌,
  ==_refl,
}
use yu_noob_kernel.RadixTree.{shr, digit}

-- A shift by one digit more.
pub shr-suc : (n key : ℕ) → shr (suc n) key ≡ shr n key / 4
unfolding shr
shr-suc zero key = refl
shr-suc (suc n) key = shr-suc n (key / 4)

-- The digit behind the top of a key.
pub shr-digit : (n key hi : ℕ) → shr (suc n) key ≡ hi → shr n key ≡ hi * 4 + digit n key
shr-digit n key hi h = omega (arith, shr-suc n key)

pub shr-hi :
    (n key hi i : ℕ) → i < 4 → shr n key ≡ hi * 4 + i → (shr (suc n) key ≡ hi) × (digit n key ≡ i)
shr-hi n key hi i l h = (omega (arith, shr-suc n key), omega arith)

-- No bit is above the 64 of a key.
pub shr-small : (n key : ℕ) → key < 4 ^ n → shr n key ≡ 0
unfolding shr
shr-small zero key h = omega arith
shr-small (suc n) key h = shr-small n (key / 4) (omega arith)

-- Keys that differ at a digit differ.
pub digit_differs : (n k j : ℕ) → (digit n k == digit n j) ≡ false → (k == j) ≡ false
digit_differs n k j h = elim (Bool-cases (k == j)) [
  | inl e ↦ let same : k ≡ j = ground arith in absurd (ground (arith, rw same at h))
  | inr e ↦ e
]

pub digit_same : (n k j : ℕ) → (k == j) ≡ true → (digit n k == digit n j) ≡ true
digit_same n k j h = let same : k ≡ j = ground arith in rw same (==_refl (digit n j))

pub digit_apart :
    (n k p j : ℕ)
    → (digit n k == digit n p) ≡ false
    → (digit n k == digit n j) ≡ true
    → (digit n p == digit n j) ≡ false
digit_apart n k p j h e = ground arith

pub digit_join :
    (n k p j : ℕ)
    → (digit n k == digit n p) ≡ true
    → (digit n p == digit n j) ≡ true
    → (digit n k == digit n j) ≡ true
digit_join n k p j h e = ground arith
