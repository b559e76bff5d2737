-- ===== src/Bitmap/Update.antt =====
-- What the updates of include/misc/bitmap.h do to the bits.
use yu_noob_kernel.Base.{
  ℕ, ◌-◌, ◌/◌, ◌%◌, ◌<◌, ◌≤◌, ◌≡◌, refl, inl, inr, arith, true, false, Bool-cases, ltb, leb, ◌==◌,
  ==_refl, sym, if◌then◌else◌, ◌&&◌,
}
use yu_noob_kernel.Bitmap.{
  Bits, bit_of, set_byte, bitmap_get, bitmap_set, bitmap_clear, bitmap_flip,
}
use yu_noob_kernel.Bitmap.Table.{set_bit, clear_bit, flip_bit}

-- Each byte is one.
abbrev pub IsBytes : Bits → Type 0
IsBytes bm = (k : ℕ) → bm.bytes k < 256

-- Bits of one byte are told apart by their places in it.
same_place : (i j : ℕ) → i / 8 ≡ j / 8 → (i % 8 == j % 8) ≡ (i == j)
same_place i j q = elim (Bool-cases (i == j)) [
  | inl e ↦
      let same : i ≡ j = ground (arith, e) in
      let here : (i % 8 == j % 8) ≡ true = rw same (==_refl (j % 8)) in rw e here
  | inr e ↦ let here : (i % 8 == j % 8) ≡ false = ground (arith, e, q) in rw e here
]

-- A read from a byte that was stored.
store_lem :
    (bm : Bits) (i j b v : ℕ)
    → i < bm.len
    → bit_of b (j % 8) ≡ (if i % 8 == j % 8 then v else bit_of (bm.bytes (i / 8)) (j % 8))
    → bitmap_get (set_byte bm i b) j ≡ (if i == j then v else bitmap_get bm j)
unfolding bitmap_get
store_lem bm i j b v l h = elim (Bool-cases (leb bm.len j)) [
  | inl out ↦ let e : (i == j) ≡ false = ground (arith, out, l) in rw (out, e) refl
  | inr out ↦ elim (Bool-cases (i / 8 == j / 8)) [
    | inl q ↦
        let quot : i / 8 ≡ j / 8 = ground (arith, q) in
        let g : bit_of b (j % 8) ≡ (if i == j then v else bit_of (bm.bytes (j / 8)) (j % 8)) =
          rw (sym (same_place i j quot), sym quot) h in
        rw (out, q) g
    | inr q ↦ let e : (i == j) ≡ false = different q in rw (out, e, q) refl
  ]
]
  where
    different : (i / 8 == j / 8) ≡ false → (i == j) ≡ false
    different q = elim (Bool-cases (i == j)) [
      | inl e ↦ let same : i ≡ j = ground (arith, e) in absurd (ground (arith, rw same at q))
      | inr e ↦ e
    ]

-- A cell of the memory is as before, and so is the length.
abbrev pub SameByte : Bits → ℕ → Bits → Type 0
SameByte bm k r = (r.bytes k ≡ bm.bytes k) × (r.len ≡ bm.len)

-- What the updates of bit `i` leave.
pub record Updated (bm : Bits) (i : ℕ) : Type 0 where
  pub outside :
      bm.len ≤ i → (bitmap_set bm i ≡ bm) × (bitmap_clear bm i ≡ bm) × (bitmap_flip bm i ≡ bm)
  pub elsewhere :
      (k : ℕ)
      → (i / 8 == k) ≡ false
      → SameByte bm k (bitmap_set bm i)
        × SameByte bm k (bitmap_clear bm i)
        × SameByte bm k (bitmap_flip bm i)
  pub after_set :
      (j : ℕ)
      → bitmap_get (bitmap_set bm i) j ≡ (if i == j && ltb i bm.len then 1 else bitmap_get bm j)
  pub after_clear :
      (j : ℕ) → bitmap_get (bitmap_clear bm i) j ≡ (if i == j then 0 else bitmap_get bm j)
  pub after_flip :
      (j : ℕ)
      → bitmap_get (bitmap_flip bm i) j
        ≡ (if i == j && ltb i bm.len then 1 - bitmap_get bm j else bitmap_get bm j)

-- In a bitmap whose bytes are below 256, `bitmap_set`, `bitmap_clear` and `bitmap_flip` of an index of
-- the bitmap store into the byte of the index only; the bit of the index reads 1, 0 and inverted
-- behind them, and `bitmap_get` of every other index is as before. Of an index outside of the bitmap
-- the three store nothing.
pub update-Updated : (bm : Bits) → IsBytes bm → (i : ℕ) → Updated bm i
unfolding bitmap_get bitmap_set bitmap_clear bitmap_flip
update-Updated bm bs i = elim (Bool-cases (leb bm.len i)) [
  | inl out ↦
      let no : ltb i bm.len ≡ false = ground (arith, out) in
      record {
        outside = λ l. rw out (refl, refl, refl);
        elsewhere = λ k s. rw out ((refl, refl), (refl, refl), (refl, refl));
        after_set = λ j. rw (out, no) (kept _ _ j);
        after_clear = λ j. rw out (cleared out j);
        after_flip = λ j. rw (out, no) (kept _ _ j);
      }
  | inr out ↦
      let l : i < bm.len = ground (arith, out) in
      let yes : ltb i bm.len ≡ true = ground (arith, out) in
      let b = bm.bytes (i / 8) in
      record {
        outside = λ o. absurd (omega (arith, l, o));
        elsewhere = λ k s. rw (out, s) ((refl, refl), (refl, refl), (refl, refl));
        after_set = λ j.
            rw (out, yes)
              (now 1 (bitmap_get bm j) _ j (
                store_lem bm i j _ 1 l
                  (set_bit b (i % 8) (j % 8) (bs (i / 8)) (omega arith) (omega arith))));
        after_clear = λ j. rw out (
            store_lem bm i j _ 0 l
              (clear_bit b (i % 8) (j % 8) (bs (i / 8)) (omega arith) (omega arith)));
        after_flip = λ j.
            rw (out, yes)
              (now _ (bitmap_get bm j) _ j (
                flipped out j _ (
                  store_lem bm i j _ (1 - bit_of b (j % 8)) l
                    (flip_bit b (i % 8) (j % 8) (bs (i / 8)) (omega arith) (omega arith)))));
      }
]
  where
    kept : (x y j : ℕ) → y ≡ (if i == j && false then x else y)
    kept x y j = elim (Bool-cases (i == j)) [ inl e ↦ rw e refl | inr e ↦ rw e refl ]

    cleared :
        leb bm.len i ≡ true → (j : ℕ) → bitmap_get bm j ≡ (if i == j then 0 else bitmap_get bm j)
    cleared out j = elim (Bool-cases (i == j)) [
      | inl e ↦
          let same : i ≡ j = ground (arith, e) in
          let none : leb bm.len j ≡ true = rw same at out in rw (e, none) refl
      | inr e ↦ rw e refl
    ]

    now : (x y z j : ℕ) → z ≡ (if i == j then x else y) → z ≡ (if i == j && true then x else y)
    now x y z j h = elim (Bool-cases (i == j)) [
      | inl e ↦ rw e (rw e at h)
      | inr e ↦ rw e (rw e at h)
    ]

    flipped :
        leb bm.len i ≡ false
        → (j z : ℕ)
        → z ≡ (if i == j then 1 - bit_of (bm.bytes (i / 8)) (j % 8) else bitmap_get bm j)
        → z ≡ (if i == j then 1 - bitmap_get bm j else bitmap_get bm j)
    flipped out j z h = elim (Bool-cases (i == j)) [
      | inl e ↦
          let same : i ≡ j = ground (arith, e) in
          let here : leb bm.len j ≡ false = rw same at out in
          let was : z ≡ 1 - bit_of (bm.bytes (i / 8)) (j % 8) = rw e at h in
          rw (e, here) (rw same at was)
      | inr e ↦ rw e (rw e at h)
    ]
