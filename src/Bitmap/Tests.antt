-- ===== src/Bitmap/Tests.antt =====
-- The theorems about include/misc/bitmap.h at a bitmap of 12 bits.
use yu_noob_kernel.Base.{◌≡◌, refl, arith, inl, inr, Bool-cases, ◌==◌, if◌then◌else◌}
use yu_noob_kernel.Bitmap.{
  Bits, bitmap_get, bitmap_set, bitmap_find_next_set, bitmap_find_next_clear, scan_clear,
  lowest_from,
}
use yu_noob_kernel.Bitmap.Update.{IsBytes, Updated, update-Updated}
use yu_noob_kernel.Bitmap.Find.{Clear, bitmap_find_next_clear-Clear}
use yu_noob_kernel.Bitmap.Offset.{bitmap_find_next_clear-offset, bitmap_find_next_set-offset}

-- The first 9 bits and the bit 10 are set.
abbrev twelve : Bits
twelve = record { bytes = λ k. if k == 0 then 255 else 0x05; len = 12 }

twelve-IsBytes : IsBytes twelve
twelve-IsBytes k = elim (Bool-cases (k == 0)) [
  | inl e ↦ rw e (omega arith)
  | inr e ↦ rw e (omega arith)
]

update-Updated_example : Updated twelve 9
update-Updated_example = update-Updated twelve twelve-IsBytes 9

set_run : bitmap_get (bitmap_set twelve 9) 9 ≡ 1
unfolding bitmap_get bitmap_set
set_run = refl

bitmap_find_next_clear-Clear_example : Clear twelve 0 (bitmap_find_next_clear twelve 0)
bitmap_find_next_clear-Clear_example = bitmap_find_next_clear-Clear twelve 0 twelve-IsBytes refl

find_run : bitmap_find_next_clear twelve 0 ≡ 9
unfolding bitmap_find_next_clear scan_clear lowest_from
find_run = refl

-- The bit 11 is clear, and the search from it answers 14, past the end of the bitmap.
bitmap_find_next_clear-offset_example : bitmap_find_next_clear twelve 11 ≡ 14
unfolding bitmap_get
bitmap_find_next_clear-offset_example =
    bitmap_find_next_clear-offset twelve 11 twelve-IsBytes (omega arith) refl

set_offset_test : bitmap_find_next_set twelve 10 ≡ 12
unfolding bitmap_get
set_offset_test = bitmap_find_next_set-offset twelve 10 twelve-IsBytes (omega arith) refl
