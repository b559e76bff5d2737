-- ===== src/Str/Compare.antt =====
-- What the comparing functions return.
use yu_noob_kernel.Base.{
  ℕ, zero, suc, ◌+◌, ◌≤◌, ◌<◌, ◌≡◌, ◌≢◌, ◌⊎◌, inl, inr, refl, arith, true, false, not, ◌==◌, ◌&&◌,
  some, pos,
}
use yu_noob_kernel.Str.{Memory, byte_diff, cmp_up, memcmp, strcmp, strncmp, strncmp_from}

-- The first `k` bytes at `p` and `q` are the same and none of them is zero.
abbrev pub SamePrefix : Memory → ℕ → ℕ → ℕ → Type 0
SamePrefix m p q k = (i : ℕ) → i < k → (m (p + i) ≡ m (q + i)) × (m (p + i) ≢ 0)

-- The strings stop being compared: they differ, or the first ends.
abbrev pub StopsAt : Memory → ℕ → ℕ → ℕ → Type 0
StopsAt m p q k = (m (p + k) ≢ m (q + k)) ⊎ (m (p + k) ≡ 0)

shift : (m : Memory) (p q k : ℕ) → SamePrefix m p q (suc k) → SamePrefix m (p + 1) (q + 1) k
shift m p q k h i l =
    let a : p + 1 + i ≡ p + (i + 1) = omega arith in
    let b : q + 1 + i ≡ q + (i + 1) = omega arith in rw (a, b) (h (i + 1) (omega arith))

first_same :
    (m : Memory) (p q k : ℕ) → SamePrefix m p q (suc k) → (not (m p == 0) && m p == m q) ≡ true
first_same m p q k h =
    let a : p + 0 ≡ p = omega arith in
    let b : q + 0 ≡ q = omega arith in ground (arith, rw (a, b) at (h 0 (omega arith)))

stop_now : (m : Memory) (p q : ℕ) → StopsAt m p q 0 → (not (m p == 0) && m p == m q) ≡ false
stop_now m p q h =
    let a : p + 0 ≡ p = omega arith in
    let b : q + 0 ≡ q = omega arith in ground (arith, rw (a, b) at h)

-- `strcmp` runs along the equal part of two strings and returns the difference of the two bytes behind
-- it: with `k` the first position where the strings differ or the first ends, and fuel for more than
-- `k` rounds.
pub strcmp_lem :
    (k fuel s1 s2 : ℕ) (m : Memory)
    → SamePrefix m s1 s2 k
    → StopsAt m s1 s2 k
    → k < fuel
    → strcmp fuel s1 s2 m ≡ some (byte_diff (m (s1 + k)) (m (s2 + k)))
unfolding strcmp
strcmp_lem k zero s1 s2 m h e f = absurd (omega arith)
strcmp_lem zero (suc fuel) s1 s2 m h e f =
    let a : s1 + 0 ≡ s1 = omega arith in
    let b : s2 + 0 ≡ s2 = omega arith in rw (stop_now m s1 s2 e, a, b)
strcmp_lem (suc k) (suc fuel) s1 s2 m h e f =
    let a : s1 + suc k ≡ s1 + 1 + k = omega arith in
    let b : s2 + suc k ≡ s2 + 1 + k = omega arith in
    rw (first_same m s1 s2 k h, a, b)
      (strcmp_lem k fuel (s1 + 1) (s2 + 1) m (shift m s1 s2 k h) (rw (a, b) at e) (omega arith))

strncmp_from_lem :
    (k r s1 s2 : ℕ) (m : Memory)
    → SamePrefix m s1 s2 k
    → StopsAt m s1 s2 k ⊎ (r ≡ k)
    → k ≤ r
    → strncmp_from r s1 s2 m ≡ byte_diff (m (s1 + k)) (m (s2 + k))
unfolding strncmp_from
strncmp_from_lem zero zero s1 s2 m h e l =
    let a : s1 + 0 ≡ s1 = omega arith in let b : s2 + 0 ≡ s2 = omega arith in rw (a, b)
strncmp_from_lem (suc k) zero s1 s2 m h e l = absurd (omega arith)
strncmp_from_lem zero (suc r) s1 s2 m h (inr q) l = absurd (omega arith)
strncmp_from_lem zero (suc r) s1 s2 m h (inl e) l =
    let a : s1 + 0 ≡ s1 = omega arith in
    let b : s2 + 0 ≡ s2 = omega arith in rw (stop_now m s1 s2 e, a, b)
strncmp_from_lem (suc k) (suc r) s1 s2 m h e l =
    let a : s1 + suc k ≡ s1 + 1 + k = omega arith in
    let b : s2 + suc k ≡ s2 + 1 + k = omega arith in
    rw (first_same m s1 s2 k h, a, b)
      (strncmp_from_lem k r (s1 + 1) (s2 + 1) m (shift m s1 s2 k h) (still e) (omega arith))
  where
    still : StopsAt m s1 s2 (suc k) ⊎ (suc r ≡ suc k) → StopsAt m (s1 + 1) (s2 + 1) k ⊎ (r ≡ k)
    still (inl s) =
        let a : s1 + suc k ≡ s1 + 1 + k = omega arith in
        let b : s2 + suc k ≡ s2 + 1 + k = omega arith in inl (rw (a, b) at s)
    still (inr q) = inr (omega arith)

-- `strncmp` with a positive limit returns the difference of the bytes at the first position where the
-- strings differ or the first ends, or at the last position of the limit, whichever comes first.
pub strncmp_lem :
    (k n s1 s2 : ℕ) (m : Memory)
    → SamePrefix m s1 s2 k
    → StopsAt m s1 s2 k ⊎ (n ≡ k + 1)
    → k < n
    → strncmp s1 s2 n m ≡ byte_diff (m (s1 + k)) (m (s2 + k))
unfolding strncmp
strncmp_lem k zero s1 s2 m h e l = absurd (omega arith)
strncmp_lem k (suc r) s1 s2 m h e l = strncmp_from_lem k r s1 s2 m h (limit e) (omega arith)
  where
    limit : StopsAt m s1 s2 k ⊎ (suc r ≡ k + 1) → StopsAt m s1 s2 k ⊎ (r ≡ k)
    limit (inl s) = inl s
    limit (inr q) = inr (omega arith)

cmp_up-same :
    (n i p q : ℕ) (m : Memory)
    → ((j : ℕ) → i ≤ j → j < i + n → m (p + j) ≡ m (q + j))
    → cmp_up n i p q m ≡ pos 0
unfolding cmp_up
cmp_up-same zero i p q m h = refl
cmp_up-same (suc n) i p q m h =
    let here = h i (omega arith) (omega arith) in
    let e : (m (p + i) == m (q + i)) ≡ true = ground (arith, here) in
    rw e (cmp_up-same n (i + 1) p q m (λ j a b. h j (omega arith) (omega arith)))

cmp_up-differ :
    (r n i k p q : ℕ) (m : Memory)
    → ((j : ℕ) → i ≤ j → j < k → m (p + j) ≡ m (q + j))
    → m (p + k) ≢ m (q + k)
    → i + r ≡ k
    → r < n
    → cmp_up n i p q m ≡ byte_diff (m (p + k)) (m (q + k))
unfolding cmp_up
cmp_up-differ r zero i k p q m h d e l = absurd (omega arith)
cmp_up-differ zero (suc n) i k p q m h d e l =
    let here : i ≡ k = omega arith in
    let f : (m (p + i) == m (q + i)) ≡ false = rw here (ground (arith, d)) in rw f (rw here)
cmp_up-differ (suc r) (suc n) i k p q m h d e l =
    let here = h i (omega arith) (omega arith) in
    let f : (m (p + i) == m (q + i)) ≡ true = ground (arith, here) in
    rw f (
      cmp_up-differ r n (i + 1) k p q m (λ j a b. h j (omega arith) b) d (omega arith)
        (omega arith))

-- `memcmp` returns 0 if the two areas are equal, and otherwise the difference of the first two bytes
-- that are not.
pub memcmp_lem :
    (s1 s2 n : ℕ) (m : Memory)
    → (((j : ℕ) → j < n → m (s1 + j) ≡ m (s2 + j)) → memcmp s1 s2 n m ≡ pos 0)
      × ((k : ℕ)
          → k < n
          → ((j : ℕ) → j < k → m (s1 + j) ≡ m (s2 + j))
          → m (s1 + k) ≢ m (s2 + k)
          → memcmp s1 s2 n m ≡ byte_diff (m (s1 + k)) (m (s2 + k)))
unfolding memcmp
memcmp_lem s1 s2 n m = (
  (λ h. cmp_up-same n 0 s1 s2 m (λ j a b. h j (omega arith))),
  (λ k l h d. cmp_up-differ k n 0 k s1 s2 m (λ j a b. h j b) d (omega arith) l),
)
