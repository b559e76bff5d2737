-- ===== src/Str/Copy.antt =====
-- What the copying functions leave in memory.
use mathlib.Core.Path.{fun_ext}
use yu_noob_kernel.Base.{
  ℕ, zero, suc, ◌+◌, ◌-◌, ◌%◌, ◌≤◌, ◌≡◌, ◌≢◌, ◌⊎◌, inl, inr, arith, false, Bool-cases, leb, ltb,
  ◌==◌, if◌then◌else◌, ◌&&◌,
}
use yu_noob_kernel.Str.{Memory, store, copy_up, copy_down, memcpy, memmove, set_up, memset}

-- The memory in which the `n` bytes at `d` are those that stand at `s` in the old one, all at once.
unfoldable pub moved : ℕ → ℕ → ℕ → Memory → Memory
moved d s n m x = if leb d x && ltb x (d + n) then m (s + (x - d)) else m x

ne-false : (a b : ℕ) → a ≢ b → (a == b) ≡ false
ne-false a b h = ground arith

-- The copy from below, at an address `x`: right where a byte is read before it is overwritten.
copy_up_at :
    (n i d s x : ℕ) (m : Memory)
    → (d ≤ s) ⊎ (s + i + n ≤ d)
    → copy_up n i d s m x ≡ (if leb (d + i) x && ltb x (d + i + n) then m (s + (x - d)) else m x)
unfolding copy_up
copy_up_at zero i d s x m h = ground arith
copy_up_at (suc n) i d s x m h =
    ground (arith, copy_up_at n (i + 1) d s x (store m (d + i) (m (s + i))))

copy_down_at :
    (n d s x : ℕ) (m : Memory)
    → (s ≤ d) ⊎ (d + n ≤ s)
    → copy_down n d s m x ≡ (if leb d x && ltb x (d + n) then m (s + (x - d)) else m x)
unfolding copy_down
copy_down_at zero d s x m h = ground arith
copy_down_at (suc n) d s x m h = ground (arith, copy_down_at n d s x (store m (d + n) (m (s + n))))

-- `memmove` moves the bytes as if all were read before any is written, whether and how ever the two
-- areas overlap, and changes no byte outside the destination.
pub memmove-eq-moved : (dest src n : ℕ) (m : Memory) → memmove dest src n m ≡ moved dest src n m
unfolding memmove moved
memmove-eq-moved dest src n m = fun_ext λ x. elim (Bool-cases (ltb dest src)) [
  | inl e ↦ rw e (ground (arith, copy_up_at n 0 dest src x m))
  | inr e ↦ rw e (elim (Bool-cases (ltb src dest)) [
    | inl f ↦ rw f (ground (arith, copy_down_at n dest src x m))
    | inr f ↦ rw f (let same : dest ≡ src = ground arith in rw same (self x))
  ])
]
  where
    self : (x : ℕ) → m x ≡ (if leb src x && ltb x (src + n) then m (src + (x - src)) else m x)
    self x = elim (Bool-cases (leb src x && ltb x (src + n))) [
      | inl e ↦ let back : src + (x - src) ≡ x = ground arith in rw (e, back)
      | inr e ↦ rw e
    ]

-- `memcpy` moves the bytes as if all were read before any is written, and changes no byte outside the
-- destination, if the destination does not begin inside the source behind its first byte.
pub memcpy-eq-moved :
    (dest src n : ℕ) (m : Memory)
    → (dest ≤ src) ⊎ (src + n ≤ dest)
    → memcpy dest src n m ≡ moved dest src n m
unfolding memcpy moved
memcpy-eq-moved dest src n m h = fun_ext λ x. ground (arith, copy_up_at n 0 dest src x m)

set_up_at :
    (n i p ch x : ℕ) (m : Memory)
    → set_up n i p ch m x ≡ (if leb (p + i) x && ltb x (p + i + n) then ch else m x)
unfolding set_up
set_up_at zero i p ch x m = ground arith
set_up_at (suc n) i p ch x m = ground (arith, set_up_at n (i + 1) p ch x (store m (p + i) ch))

-- `memset` stores the low byte of its argument in each of the `n` bytes and changes no other.
pub memset_lem :
    (s c n x : ℕ) (m : Memory)
    → memset s c n m x ≡ (if leb s x && ltb x (s + n) then c % 256 else m x)
unfolding memset
memset_lem s c n x m = ground (arith, set_up_at n 0 s (c % 256) x m)
