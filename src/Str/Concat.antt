-- ===== src/Str/Concat.antt =====
-- What `strcat` leaves in memory.
use yu_noob_kernel.Base.{
  ℕ, ◌+◌, ◌-◌, ◌<◌, ◌≡◌, ◌≢◌, ◌⊎◌, inl, inr, arith, true, false, Bool-cases, leb, ltb, ◌&&◌, some,
}
use yu_noob_kernel.Str.{Memory, strcpy}
use yu_noob_kernel.Str.Copy.{moved}
use yu_noob_kernel.Str.Length.{IsStringAt, strlen_lem, strcpy_lem}
use yu_noob_kernel.Str.Walk.{strcat}

-- The memory behind `strcat` of the strings of `n` bytes at `dest` and `k` bytes at `src`.
appended-IsStringAt :
    (dest src n k : ℕ) (m : Memory)
    → IsStringAt m dest n
    → IsStringAt m src k
    → IsStringAt (moved (dest + n) src (k + 1) m) dest (n + k)
unfolding moved
appended-IsStringAt dest src n k m d s = record {
  chars = λ i h. elim (Bool-cases (ltb i n)) [ inl e ↦ kept i e | inr e ↦ copied i e h ];
  ending = ends;
}
  where
    kept : (i : ℕ) → ltb i n ≡ true → moved (dest + n) src (k + 1) m (dest + i) ≢ 0
    kept i e =
        let out : (leb (dest + n) (dest + i) && ltb (dest + i) (dest + n + (k + 1))) ≡ false =
          ground arith in
        rw out (d.chars i (ground arith))

    copied : (i : ℕ) → ltb i n ≡ false → i < n + k → moved (dest + n) src (k + 1) m (dest + i) ≢ 0
    copied i e h =
        let in_area : (leb (dest + n) (dest + i) && ltb (dest + i) (dest + n + (k + 1))) ≡ true =
          ground arith in
        let from : src + (dest + i - (dest + n)) ≡ src + (i - n) = omega arith in
        rw (in_area, from) (s.chars (i - n) (ground arith))

    ends : moved (dest + n) src (k + 1) m (dest + (n + k)) ≡ 0
    ends =
        let in_area : (leb (dest + n) (dest + (n + k)) && ltb (dest + (n + k)) (dest + n + (k + 1)))
            ≡ true =
          ground arith in
        let from : src + (dest + (n + k) - (dest + n)) ≡ src + k = omega arith in
        rw (in_area, from) s.ending

-- With more fuel than either string is long, and with `src` outside the room that the result takes,
-- `strcat` copies the string at `src` with its zero behind the string at `dest`, changes nothing
-- else, and leaves a string of both lengths at `dest`.
pub strcat_lem :
    (fuel dest src n k : ℕ) (m : Memory)
    → IsStringAt m dest n
    → IsStringAt m src k
    → n < fuel
    → k < fuel
    → (dest + n + k < src) ⊎ (src + k < dest + n)
    → (strcat fuel dest src m ≡ some (moved (dest + n) src (k + 1) m))
      × IsStringAt (moved (dest + n) src (k + 1) m) dest (n + k)
unfolding strcat
strcat_lem fuel dest src n k m d s f g o = (
  rw (strlen_lem fuel dest n m d f, strcat)
      (unfold strcpy in strcpy_lem fuel (dest + n) src k m s g o),
  appended-IsStringAt dest src n k m d s,
)
