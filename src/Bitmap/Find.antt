-- ===== src/Bitmap/Find.antt =====
-- The search of include/misc/bitmap.h for a clear bit.
use Prim.Native.Nat.{bit_and}
use yu_noob_kernel.Base.{
  ℕ, zero, suc, ◌+◌, ◌-◌, ◌*◌, ◌/◌, ◌%◌, ◌<◌, ◌≤◌, ◌≡◌, ◌⊎◌, refl, sym, ap, subst, ◌∙◌, inl, inr,
  arith, true, false, Bool-cases, ltb, leb, ◌==◌, if◌then◌else◌,
}
use yu_noob_kernel.Bitmap.{Bits, bit_of, lowest, bitmap_get, scan_clear, bitmap_find_next_clear}
use yu_noob_kernel.Bitmap.Lowest.{Lowest, whole-Lowest, part-Lowest}
use yu_noob_kernel.Bitmap.Update.{IsBytes}

-- The result of a search from a bit on: no bit before it is clear, and it is clear, or not one of
-- the bitmap.
pub record Clear (bm : Bits) (from r : ℕ) : Type 0 where
  pub before : (j : ℕ) → from ≤ j → j < r → j < bm.len → bitmap_get bm j ≡ 1
  pub at : r < bm.len → bitmap_get bm r ≡ 0

get_lem :
    (bm : Bits) (i o : ℕ)
    → o < 8
    → i * 8 + o < bm.len
    → bitmap_get bm (i * 8 + o) ≡ bit_of (bm.bytes i) o
unfolding bitmap_get
get_lem bm i o l inside =
    let out : leb bm.len (i * 8 + o) ≡ false = ground (arith, inside) in
    let quot : (i * 8 + o) / 8 ≡ i = omega (arith, l) in
    let rest : (i * 8 + o) % 8 ≡ o = omega (arith, l) in rw (out, quot, rest) refl

-- A byte of which the first `t` bits are searched, all that the bitmap has.
byte-Clear :
    (bm : Bits) (i c t r : ℕ)
    → Lowest (bm.bytes i) c t
    → t ≤ 8
    → (t ≡ 8) ⊎ (bm.len ≤ i * 8 + t)
    → ((c == 0) ≡ true → Clear bm ((i + 1) * 8) r)
    → Clear bm (i * 8) (if c == 0 then r else i * 8 + lowest c)
byte-Clear bm i c t r w le last behind = elim (Bool-cases (c == 0)) [
  | inl e ↦
      let rest = behind e in
      rw e record {
        before = λ j p q l. elim (Bool-cases (ltb j ((i + 1) * 8))) [
          | inl k ↦
              by_byte j p l (ground (arith, k))
                (w.full e (j - i * 8) (short j p l (ground (arith, k)) last))
          | inr k ↦ rest.before j (ground (arith, k)) q l
        ];
        at = rest.at;
      }
  | inr e ↦ rw e record {
    before = λ j p q l.
        by_byte j p l (early (lowest c) j (w.small e) q)
          (w.below e (j - i * 8) (omega (arith, p, q)));
    at = λ l. get_lem bm i (lowest c) (low (lowest c) (w.small e)) l ∙ w.clear e;
  }
]
  where
    low : (x : ℕ) → x < t → x < 8
    low x l = omega (arith, l, le)

    early : (x j : ℕ) → x < t → j < i * 8 + x → j < (i + 1) * 8
    early x j l q = omega (arith, l, q, le)

    short :
        (j : ℕ)
        → i * 8 ≤ j
        → j < bm.len
        → j < (i + 1) * 8
        → (t ≡ 8) ⊎ (bm.len ≤ i * 8 + t)
        → j - i * 8 < t
    short j p l k (inl e) = omega (arith, p, k, e)
    short j p l k (inr e) = omega (arith, p, l, e)

    by_byte :
        (j : ℕ)
        → i * 8 ≤ j
        → j < bm.len
        → j < (i + 1) * 8
        → bit_of (bm.bytes i) (j - i * 8) ≡ 1
        → bitmap_get bm j ≡ 1
    by_byte j p l k h =
        let place : i * 8 + (j - i * 8) ≡ j = omega (arith, p) in
        ap (bitmap_get bm) (sym place)
        ∙ get_lem bm i (j - i * 8) (omega (arith, p, k)) (omega (arith, p, l))
        ∙ h

scan_clear-Clear :
    (n : ℕ) (bm : Bits) (i : ℕ)
    → IsBytes bm
    → n + i ≡ (bm.len + 7) / 8
    → Clear bm (i * 8) (scan_clear n bm i)
unfolding scan_clear
scan_clear-Clear zero bm i bs e = record {
  before = λ j p q l. absurd (omega (arith, e, p, l));
  at = λ l. absurd (omega (arith, l));
}
scan_clear-Clear (suc n) bm i bs e =
    let rest = scan_clear-Clear n bm (i + 1) bs (omega (arith, e)) in
    elim (Bool-cases (i == (bm.len + 7) / 8 - 1)) [
      | inl last ↦ elim (Bool-cases (bm.len % 8 == 0)) [
        | inl even ↦ rw (last, even) (whole rest)
        | inr odd ↦
            rw (last, odd)
              (byte-Clear bm i _ (bm.len % 8) _
                (part-Lowest (bm.bytes i) (bm.len % 8) (bs i) (ground (arith, odd)) (omega arith))
                (omega arith) (inr (final (ground (arith, last)) (ground (arith, odd))))
                (λ z. rest))
      ]
      | inr more ↦ rw more (whole rest)
    ]
  where
    whole :
        Clear bm ((i + 1) * 8) (scan_clear n bm (i + 1))
        → Clear bm (i * 8) (
            if 255 - bm.bytes i == 0
            then scan_clear n bm (i + 1)
            else i * 8 + lowest (255 - bm.bytes i))
    whole rest =
        byte-Clear bm i (255 - bm.bytes i) 8 _ (whole-Lowest (bm.bytes i) (bs i)) (omega arith)
          (inl refl) (λ z. rest)

    final : i ≡ (bm.len + 7) / 8 - 1 → 0 < bm.len % 8 → bm.len ≤ i * 8 + bm.len % 8
    final p q = omega (arith, p, q)

-- The search with what it answers for a bit of the first byte.
abbrev search_from : Bits → ℕ → ℕ → ℕ
search_from bm i found =
    if bit_and (255 - bm.bytes (i / 8)) 255 == 0
    then scan_clear ((bm.len + 7) / 8 - (i / 8 + 1)) bm (i / 8 + 1)
    else found

-- In a bitmap whose bytes are below 256, `bitmap_find_next_clear` from an index that is a multiple
-- of 8 passes over set bits only, and a result that is one of the bitmap is a clear bit.
pub bitmap_find_next_clear-Clear :
    (bm : Bits) (i : ℕ) → IsBytes bm → i % 8 ≡ 0 → Clear bm i (bitmap_find_next_clear bm i)
unfolding bitmap_find_next_clear
bitmap_find_next_clear-Clear bm i bs al = elim (Bool-cases (leb bm.len i)) [
  | inl out ↦ rw out record {
    before = λ j p q l. absurd (ground (arith, p, q, l, out));
    at = λ l. absurd (omega (arith, l));
  }
  | inr inside ↦
      let place : i / 8 * 8 ≡ i = omega (arith, al) in
      let first =
        byte-Clear bm (i / 8) _ 8 _
          (part-Lowest (bm.bytes (i / 8)) 8 (bs (i / 8)) (omega arith) (omega arith)) (omega arith)
          (inl refl)
          (λ z.
            scan_clear-Clear ((bm.len + 7) / 8 - (i / 8 + 1)) bm (i / 8 + 1) bs
              (fits (ground (arith, inside)))) in
      let found : i / 8 * 8 + low ≡ i / 8 * 8 + 0 + low = plus (i / 8 * 8) low in
      rw (inside, al)
        (subst (λ x. Clear bm x (search_from bm i (i / 8 * 8 + 0 + low))) place
          (subst (λ x. Clear bm (i / 8 * 8) (search_from bm i x)) found first))
]
  where
    low : ℕ
    low = lowest (bit_and (255 - bm.bytes (i / 8)) 255)

    plus : (x y : ℕ) → x + y ≡ x + 0 + y
    plus x y = omega arith

    fits : i < bm.len → (bm.len + 7) / 8 - (i / 8 + 1) + (i / 8 + 1) ≡ (bm.len + 7) / 8
    fits l = omega (arith, l)
