-- ===== src/Bitmap.antt =====
-- include/misc/bitmap.h. The bytes are a function from their index. A shift by 3 and a mask of 7 are
-- written as a quotient and a remainder by 8. The loop for the lowest bit of a byte takes 8 rounds.
pub mod Table
pub mod Lowest
pub mod Update
pub mod Find
pub mod Offset
mod Tests
use Prim.Native.Nat.{bit_and, bit_or, bit_xor}
use yu_noob_kernel.Base.{
  ℕ, zero, suc, ◌+◌, ◌-◌, ◌*◌, ◌/◌, ◌%◌, ◌^◌, Bool, true, false, not, ltb, leb, ◌==◌, if◌then◌else◌,
}

-- `struct bitmap`.
pub record Bits : Type 0 where
  pub bytes : ℕ → ℕ
  pub len : ℕ

-- The test of a bit of a byte.
abbrev pub bit_of : ℕ → ℕ → ℕ
bit_of b off = bit_and (b / 2 ^ off) 1

unfoldable pub bitmap_get : Bits → ℕ → ℕ
bitmap_get bm i = if leb bm.len i then 0 else bit_of (bm.bytes (i / 8)) (i % 8)

-- A store into the byte of a bit.
abbrev pub set_byte : Bits → ℕ → ℕ → Bits
set_byte bm i b = record bm { bytes = λ j. if i / 8 == j then b else bm.bytes j }

unfoldable pub bitmap_set : Bits → ℕ → Bits
bitmap_set bm i =
    if leb bm.len i then bm else set_byte bm i (bit_or (bm.bytes (i / 8)) (2 ^ (i % 8)))

unfoldable pub bitmap_clear : Bits → ℕ → Bits
bitmap_clear bm i =
    if leb bm.len i
    then bm
    else set_byte bm i (bit_and (bm.bytes (i / 8)) (2 ^ 32 - 1 - 2 ^ (i % 8)))

unfoldable pub bitmap_flip : Bits → ℕ → Bits
bitmap_flip bm i =
    if leb bm.len i then bm else set_byte bm i (bit_xor (bm.bytes (i / 8)) (2 ^ (i % 8)))

unfoldable pub bitmap_assign : Bits → ℕ → ℕ → Bits
bitmap_assign bm i val = if val == 0 then bitmap_clear bm i else bitmap_set bm i

-- The loop that looks for the lowest bit of a byte, with so many rounds left.
unfoldable pub lowest_from : ℕ → ℕ → ℕ → ℕ
lowest_from zero b off = off
lowest_from (suc n) b off =
    let rest = lowest_from n (b / 2) (off + 1) in if bit_and b 1 == 0 then rest else off

abbrev pub lowest : ℕ → ℕ
lowest b = lowest_from 8 b 0

-- `mask`: the bits of a byte from one on.
abbrev pub mask_from : ℕ → ℕ
mask_from off = 255 * 2 ^ off % 256

-- The loop of `bitmap_find_next_set` over the bytes behind, with so many left.
unfoldable pub scan_set : ℕ → Bits → ℕ → ℕ
scan_set zero bm i = bm.len
scan_set (suc n) bm i =
    let rest = scan_set n bm (i + 1) in
    let b = bm.bytes i in
    let pos = i * 8 + lowest b in if b == 0 then rest else if ltb pos bm.len then pos else bm.len

unfoldable pub bitmap_find_next_set : Bits → ℕ → ℕ
bitmap_find_next_set bm i =
    let b = bit_and (bm.bytes (i / 8)) (mask_from (i % 8)) in
    if leb bm.len i
    then bm.len
    else if b == 0
    then scan_set ((bm.len + 7) / 8 - (i / 8 + 1)) bm (i / 8 + 1)
    else i / 8 * 8 + i % 8 + lowest b

-- The loop of `bitmap_find_next_clear`, which masks the last byte.
unfoldable pub scan_clear : ℕ → Bits → ℕ → ℕ
scan_clear zero bm i = bm.len
scan_clear (suc n) bm i =
    let rest = scan_clear n bm (i + 1) in
    let tail = bm.len % 8 in
    let is_last = i == (bm.len + 7) / 8 - 1 in
    let inverted = 255 - bm.bytes i in
    let masked = if tail == 0 then inverted else bit_and inverted (2 ^ tail - 1) in
    let b = if is_last then masked else inverted in if b == 0 then rest else i * 8 + lowest b

unfoldable pub bitmap_find_next_clear : Bits → ℕ → ℕ
bitmap_find_next_clear bm i =
    let b = bit_and (255 - bm.bytes (i / 8)) (mask_from (i % 8)) in
    if leb bm.len i
    then bm.len
    else if b == 0
    then scan_clear ((bm.len + 7) / 8 - (i / 8 + 1)) bm (i / 8 + 1)
    else i / 8 * 8 + i % 8 + lowest b
