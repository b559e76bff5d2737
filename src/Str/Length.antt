-- ===== src/Str/Length.antt =====
-- Strings in memory, and the functions that measure and copy them.
use yu_noob_kernel.Base.{
  ℕ, zero, suc, ◌+◌, ◌≤◌, ◌<◌, ◌≡◌, ◌≢◌, ◌⊎◌, inl, inr, ap, ◌∙◌, arith, true, false, Bool-cases,
  ◌==◌, some, min,
}
use yu_noob_kernel.Str.{
  Memory, store, strlen_from, strlen, strnlen_from, strnlen, strcpy_from, strcpy, copy_up, memcpy,
}
use yu_noob_kernel.Str.Copy.{moved, memcpy-eq-moved}

-- A string of length `n` stands at `s`.
pub record IsStringAt (m : Memory) (s n : ℕ) : Type 0 where
  pub chars : (i : ℕ) → i < n → m (s + i) ≢ 0
  pub ending : m (s + n) ≡ 0

strlen_from_lem :
    (k fuel len s n : ℕ) (m : Memory)
    → IsStringAt m s n
    → len + k ≡ n
    → k < fuel
    → strlen_from fuel len s m ≡ some n
unfolding strlen_from
strlen_from_lem k zero len s n m h e f = absurd (omega arith)
strlen_from_lem zero (suc fuel) len s n m h e f =
    let here : len ≡ n = omega arith in
    let nul : m (s + len) ≡ 0 = rw here h.ending in rw nul (rw here)
strlen_from_lem (suc k) (suc fuel) len s n m h e f =
    let going : (m (s + len) == 0) ≡ false = ground (arith, h.chars len) in
    rw going (strlen_from_lem k fuel (len + 1) s n m h (omega arith) (omega arith))

-- With more fuel than the string is long `strlen` returns its length.
pub strlen_lem :
    (fuel s n : ℕ) (m : Memory) → IsStringAt m s n → n < fuel → strlen fuel s m ≡ some n
unfolding strlen
strlen_lem fuel s n m h f = strlen_from_lem n fuel 0 s n m h (omega arith) f

before_end :
    (m : Memory) (s n len : ℕ) → IsStringAt m s n → len ≤ n → (m (s + len) == 0) ≡ false → len < n
before_end m s n len h l e = elim (Bool-cases (len == n)) [
  | inl p ↦
      let same : len ≡ n = ground arith in
      let nul : m (s + len) ≡ 0 = rw same h.ending in absurd (ground (arith, e, nul))
  | inr p ↦ ground (arith, p, l)
]

at_end :
    (m : Memory) (s n len : ℕ) → IsStringAt m s n → len ≤ n → (m (s + len) == 0) ≡ true → len ≡ n
at_end m s n len h l e = ground (arith, h.chars len)

strnlen_from_lem :
    (r len s n : ℕ) (m : Memory)
    → IsStringAt m s n
    → len ≤ n
    → strnlen_from r len s m ≡ min n (len + r)
unfolding strnlen_from
strnlen_from_lem zero len s n m h l = omega arith
strnlen_from_lem (suc r) len s n m h l = elim (Bool-cases (m (s + len) == 0)) [
  | inl e ↦ rw e (omega (arith, at_end m s n len h l e))
  | inr e ↦
      let more = before_end m s n len h l e in
      rw e (omega (arith, more, strnlen_from_lem r (len + 1) s n m h (omega (arith, more))))
]

-- `strnlen` returns the length of the string or the limit, whichever is smaller.
pub strnlen_lem :
    (s n maxlen : ℕ) (m : Memory) → IsStringAt m s n → strnlen s maxlen m ≡ min n maxlen
unfolding strnlen
strnlen_lem s n maxlen m h = omega (arith, strnlen_from_lem maxlen 0 s n m h (omega arith))

-- A store outside the string leaves it.
store-IsStringAt :
    (m : Memory) (s n a v : ℕ)
    → IsStringAt m s n
    → (a < s) ⊎ (s + n < a)
    → IsStringAt (store m a v) s n
store-IsStringAt m s n a v h o = record {
  chars = λ i l. ground (arith, h.chars i);
  ending = ground (arith, h.ending);
}

strcpy_from-copy :
    (k fuel i dest src n : ℕ) (m : Memory)
    → IsStringAt m src n
    → i + k ≡ n
    → k < fuel
    → (dest + n < src) ⊎ (src + n < dest)
    → strcpy_from fuel i dest src m ≡ some (copy_up (suc k) i dest src m)
unfolding strcpy_from copy_up
strcpy_from-copy k zero i dest src n m h e f o = absurd (omega arith)
strcpy_from-copy zero (suc fuel) i dest src n m h e f o =
    let here : i ≡ n = omega arith in let nul : m (src + i) ≡ 0 = rw here h.ending in rw nul
strcpy_from-copy (suc k) (suc fuel) i dest src n m h e f o =
    let going : (m (src + i) == 0) ≡ false = ground (arith, h.chars i) in
    rw going (
      strcpy_from-copy k fuel (i + 1) dest src n (store m (dest + i) (m (src + i)))
        (store-IsStringAt m src n (dest + i) (m (src + i)) h (ground (arith, o))) (omega arith)
        (omega arith) o)

-- With more fuel than the string is long, `strcpy` to a place that does not overlap the string copies
-- it with its terminating zero and changes nothing else.
pub strcpy_lem :
    (fuel dest src n : ℕ) (m : Memory)
    → IsStringAt m src n
    → n < fuel
    → (dest + n < src) ⊎ (src + n < dest)
    → strcpy fuel dest src m ≡ some (moved dest src (n + 1) m)
unfolding strcpy
strcpy_lem fuel dest src n m h f o =
    strcpy_from-copy n fuel 0 dest src n m h (omega arith) f o
    ∙ ap some (ap (λ r. copy_up r 0 dest src m) (omega arith) ∙ copied)
  where
    copied : copy_up (n + 1) 0 dest src m ≡ moved dest src (n + 1) m
    copied = unfold memcpy in memcpy-eq-moved dest src (n + 1) m (ground (arith, o))
