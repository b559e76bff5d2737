-- ===== src/Bitmap/Lowest.antt =====
-- What the lowest bit of an inverted byte says of the byte, by a look at all bytes.
use Prim.Native.Nat.{bit_and}
use yu_noob_kernel.Base.{
  ℕ, ◌+◌, ◌-◌, ◌^◌, ◌<◌, ◌≤◌, ◌≡◌, refl, subst, arith, Bool, true, false, ltb, ◌==◌, if◌then◌else◌,
  ◌&&◌,
}
use yu_noob_kernel.Bitmap.{bit_of, lowest_from, lowest}
use yu_noob_kernel.Bitmap.Table.{every_bit, every_bit_lem, all_below}

-- A clear bit is found among the first `t` of a byte, by the lowest bit of `c`.
pub record Lowest (b c t : ℕ) : Type 0 where
  pub full : (c == 0) ≡ true → (j : ℕ) → j < t → bit_of b j ≡ 1
  pub small : (c == 0) ≡ false → lowest c < t
  pub clear : (c == 0) ≡ false → bit_of b (lowest c) ≡ 0
  pub below : (c == 0) ≡ false → (j : ℕ) → j < lowest c → bit_of b j ≡ 1

-- The same as a test, at one bit.
abbrev test : Bool → ℕ → ℕ → ℕ → ℕ → ℕ → Bool
test is_zero low at_low t j at_j =
    if is_zero
    then (if ltb j t then at_j == 1 else true)
    else ltb low t && (at_low == 0 && (if ltb j low then at_j == 1 else true))

abbrev test_bit : ℕ → ℕ → ℕ → ℕ → Bool
test_bit b c t j = test (c == 0) (lowest c) (bit_of b (lowest c)) t j (bit_of b j)

test_full :
    (z : Bool) (low at_low t j at_j : ℕ)
    → test z low at_low t j at_j ≡ true
    → z ≡ true
    → j < t
    → at_j ≡ 1
test_full z low at_low t j at_j h e l = let k = rw e at h in ground (arith, k, l)

test_low :
    (z : Bool) (low at_low t j at_j : ℕ) → test z low at_low t j at_j ≡ true → z ≡ false → low < t
test_low z low at_low t j at_j h e = let k = rw e at h in ground (arith, k)

test_clear :
    (z : Bool) (low at_low t j at_j : ℕ)
    → test z low at_low t j at_j ≡ true
    → z ≡ false
    → at_low ≡ 0
test_clear z low at_low t j at_j h e = let k = rw e at h in ground (arith, k)

test_below :
    (z : Bool) (low at_low t j at_j : ℕ)
    → test z low at_low t j at_j ≡ true
    → z ≡ false
    → j < low
    → at_j ≡ 1
test_below z low at_low t j at_j h e l = let k = rw e at h in ground (arith, k, l)

tested-Lowest : (b c t : ℕ) → t ≤ 8 → ((j : ℕ) → j < 8 → test_bit b c t j ≡ true) → Lowest b c t
tested-Lowest b c t le h = record {
  full = λ e j l.
      test_full (c == 0) (lowest c) at_low t j (bit_of b j) (h j (omega (arith, le, l))) e l;
  small = small;
  clear = λ e. test_clear (c == 0) (lowest c) at_low t 0 (bit_of b 0) (h 0 (omega arith)) e;
  below = λ e j l.
      test_below (c == 0) (lowest c) at_low t j (bit_of b j) (h j (inside (lowest c) j (small e) l))
        e l;
}
  where
    at_low : ℕ
    at_low = bit_of b (lowest c)

    small : (c == 0) ≡ false → lowest c < t
    small e = test_low (c == 0) (lowest c) at_low t 0 (bit_of b 0) (h 0 (omega arith)) e

    inside : (low j : ℕ) → low < t → j < low → j < 8
    inside low j p q = omega (arith, p, q, le)

whole_test : ℕ → ℕ → ℕ → Bool
whole_test b i j = test_bit b (255 - b) 8 j

part_test : ℕ → ℕ → ℕ → Bool
part_test b i j = test_bit b (bit_and (255 - b) (2 ^ (i + 1) - 1)) (i + 1) j

whole_test_all : every_bit whole_test ≡ true
unfolding whole_test all_below lowest_from
whole_test_all = refl

part_test_all : every_bit part_test ≡ true
unfolding part_test all_below lowest_from
part_test_all = refl

pub whole-Lowest : (b : ℕ) → b < 256 → Lowest b (255 - b) 8
unfolding whole_test
whole-Lowest b l =
    tested-Lowest b (255 - b) 8 (omega arith)
      (λ j lj. every_bit_lem whole_test whole_test_all b 0 j l (omega arith) lj)

pub part-Lowest : (b t : ℕ) → b < 256 → 0 < t → t ≤ 8 → Lowest b (bit_and (255 - b) (2 ^ t - 1)) t
unfolding part_test
part-Lowest b t l some le =
    subst (λ n. Lowest b (bit_and (255 - b) (2 ^ n - 1)) n) (omega (arith, some))
      (tested-Lowest b _ (t - 1 + 1) (omega (arith, le, some))
        (λ j lj. every_bit_lem part_test part_test_all b (t - 1) j l (omega (arith, le, some)) lj))
