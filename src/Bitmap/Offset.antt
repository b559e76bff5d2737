-- ===== src/Bitmap/Offset.antt =====
-- The searches of include/misc/bitmap.h from a bit that is itself the one they look for.
use Prim.Native.Nat.{bit_and}
use yu_noob_kernel.Base.{
  ℕ, ◌+◌, ◌-◌, ◌*◌, ◌/◌, ◌%◌, ◌<◌, ◌≡◌, refl, ◌∙◌, inl, inr, arith, Bool, true, false, Bool-cases,
  leb, ◌==◌, if◌then◌else◌,
}
use yu_noob_kernel.Bitmap.{
  Bits, bit_of, lowest, lowest_from, mask_from, bitmap_get, bitmap_find_next_set,
  bitmap_find_next_clear,
}
use yu_noob_kernel.Bitmap.Table.{every_bit, every_bit_lem, all_below}
use yu_noob_kernel.Bitmap.Update.{IsBytes}

-- The bits of a byte from one on are not all 0 if it is 1, and it is the lowest.
abbrev test : Bool → ℕ → ℕ → ℕ → Bool
test hit c low i = if hit then (if c == 0 then false else low == i) else true

set_test : ℕ → ℕ → ℕ → Bool
set_test b i j = let c = bit_and b (mask_from i) in test (bit_of b i == 1) c (lowest c) i

clear_test : ℕ → ℕ → ℕ → Bool
clear_test b i j = let c = bit_and (255 - b) (mask_from i) in test (bit_of b i == 0) c (lowest c) i

set_test_all : every_bit set_test ≡ true
unfolding set_test all_below lowest_from
set_test_all = refl

clear_test_all : every_bit clear_test ≡ true
unfolding clear_test all_below lowest_from
clear_test_all = refl

-- What a passed test says of the answer.
answer_lem :
    (hit : Bool) (c low i base behind : ℕ)
    → test hit c low i ≡ true
    → hit ≡ true
    → (if c == 0 then behind else base + i + low) ≡ base + i + i
answer_lem hit c low i base behind h e = elim (Bool-cases (c == 0)) [
  | inl z ↦ absurd (cc (rw (e, z) at h))
  | inr z ↦
      let k : (low == i) ≡ true = rw (e, z) at h in
      let same : low ≡ i = ground (arith, k) in rw (z, same) refl
]

-- In a bitmap whose bytes are below 256, `bitmap_find_next_set` from an index of the bitmap whose
-- bit is 1 answers the index and once more its place in its byte, which is not the index unless the
-- bit is the first of its byte.
pub bitmap_find_next_set-offset :
    (bm : Bits) (i : ℕ)
    → IsBytes bm
    → i < bm.len
    → bitmap_get bm i ≡ 1
    → bitmap_find_next_set bm i ≡ i + i % 8
unfolding bitmap_get bitmap_find_next_set set_test
bitmap_find_next_set-offset bm i bs l h =
    let inside : leb bm.len i ≡ false = ground (arith, l) in
    let bit : bit_of b (i % 8) ≡ 1 = rw inside at h in
    let hit : (bit_of b (i % 8) == 1) ≡ true = rw bit refl in
    let tested =
      every_bit_lem set_test set_test_all b (i % 8) 0 (bs (i / 8)) (omega arith) (omega arith) in
    rw inside (answer_lem _ masked (lowest masked) (i % 8) (i / 8 * 8) _ tested hit ∙ place)
  where
    b : ℕ
    b = bm.bytes (i / 8)

    masked : ℕ
    masked = bit_and b (mask_from (i % 8))

    place : i / 8 * 8 + i % 8 + i % 8 ≡ i + i % 8
    place = omega arith

-- In a bitmap whose bytes are below 256, `bitmap_find_next_clear` from an index of the bitmap whose
-- bit is 0 answers the index and once more its place in its byte, which is not the index unless the
-- bit is the first of its byte.
pub bitmap_find_next_clear-offset :
    (bm : Bits) (i : ℕ)
    → IsBytes bm
    → i < bm.len
    → bitmap_get bm i ≡ 0
    → bitmap_find_next_clear bm i ≡ i + i % 8
unfolding bitmap_get bitmap_find_next_clear clear_test
bitmap_find_next_clear-offset bm i bs l h =
    let inside : leb bm.len i ≡ false = ground (arith, l) in
    let bit : bit_of b (i % 8) ≡ 0 = rw inside at h in
    let hit : (bit_of b (i % 8) == 0) ≡ true = rw bit refl in
    let tested =
      every_bit_lem clear_test clear_test_all b (i % 8) 0 (bs (i / 8)) (omega arith)
        (omega arith) in
    rw inside (answer_lem _ masked (lowest masked) (i % 8) (i / 8 * 8) _ tested hit ∙ place)
  where
    b : ℕ
    b = bm.bytes (i / 8)

    masked : ℕ
    masked = bit_and (255 - b) (mask_from (i % 8))

    place : i / 8 * 8 + i % 8 + i % 8 ≡ i + i % 8
    place = omega arith
