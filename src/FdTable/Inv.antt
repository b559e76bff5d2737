-- ===== src/FdTable/Inv.antt =====
-- The representation invariant of `struct fd_table`, and the writes to one slot.
use yu_noob_kernel.Base.{
  ℕ, zero, suc, ◌+◌, ◌≤◌, ◌<◌, ◌≡◌, ◌⊎◌, refl, ◌∙◌, arith, List, [], ◌∷◌, ◌++◌, length, get_or, set,
  replicate, length-set,
}
use yu_noob_kernel.FdTable.{Slot, empty, reserved, file, FdTable, slot_at}

abbrev pub one_if_file : Slot → ℕ
one_if_file (file f) = 1
one_if_file _ = 0

pub count_files : List Slot → ℕ
count_files [] = 0
count_files (s ∷ ss) = one_if_file s + count_files ss

-- The sizes that doubling from 32 up to 1024 gives.
abbrev pub IsSize : ℕ → Type 0
IsSize n = (n ≡ 32) ⊎ (n ≡ 64) ⊎ (n ≡ 128) ⊎ (n ≡ 256) ⊎ (n ≡ 512) ⊎ (n ≡ 1024)

-- The array has `max_fds` slots, a size that doubling reaches, and `open_fds` counts its files.
pub record IsValid (t : FdTable) : Type 0 where
  pub storage : length t.fds ≡ t.max_fds
  pub size : IsSize t.max_fds
  pub counted : t.open_fds ≡ count_files t.fds

pub count_files-le : (ss : List Slot) → count_files ss ≤ length ss
unfolding count_files
count_files-le [] = omega arith
count_files-le (file f ∷ ss) = omega (arith, count_files-le ss)
count_files-le (empty ∷ ss) = omega (arith, count_files-le ss)
count_files-le (reserved ∷ ss) = omega (arith, count_files-le ss)

pub count_files-set :
    (ss : List Slot) (i : ℕ) (s : Slot)
    → i < length ss
    → count_files (set ss i s) + one_if_file (get_or ss i empty) ≡ count_files ss + one_if_file s
unfolding count_files
count_files-set [] i s h = absurd (omega arith)
count_files-set (x ∷ xs) zero s h = omega arith
count_files-set (x ∷ xs) (suc i) s h = omega (arith, count_files-set xs i s (omega arith))

pub count_files-append :
    (xs ys : List Slot) → count_files (xs ++ ys) ≡ count_files xs + count_files ys
unfolding count_files
count_files-append [] ys = omega arith
count_files-append (x ∷ xs) ys = omega (arith, count_files-append xs ys)

pub count_files-replicate : (n : ℕ) → count_files (replicate n empty) ≡ 0
unfolding count_files replicate
count_files-replicate zero = refl
count_files-replicate (suc n) = omega (arith, count_files-replicate n)

-- A write of a slot keeps the invariant, if `open_fds` follows.
pub set-IsValid :
    (t : FdTable) (i : ℕ) (s : Slot) (n : ℕ)
    → IsValid t
    → i < t.max_fds
    → n + one_if_file (slot_at t i) ≡ t.open_fds + one_if_file s
    → IsValid (record t { fds = set t.fds i s; open_fds = n })
set-IsValid t i s n v h e = record {
  storage = length-set t.fds i s ∙ v.storage;
  size = v.size;
  counted = omega (arith, count_files-set t.fds i s (omega arith));
}
