-- ===== src/FdTable/Tests.antt =====
-- The theorems about src/fs/fd_table.c at concrete tables.
use yu_noob_kernel.Base.{
  ℕ, ◌≡◌, ◌≢◌, ◌⊎◌, inl, refl, sym, arith, [], true, replicate, length-replicate, Option, none,
  some, pos, set,
}
use yu_noob_kernel.Errno.{ok}
use yu_noob_kernel.FdTable.{
  empty, reserved, FdTable, Files, slot_at, file_get, fd_alloc, fd_table_dup, fd_table_free,
  fd_install, fd_get, fd_free, nr_open_default, fd_table_alloc,
}
use yu_noob_kernel.FdTable.Inv.{IsValid, count_files-replicate}
use yu_noob_kernel.FdTable.Alloc.{AllocOk, fd_alloc_lem, fd_alloc_twice}
use yu_noob_kernel.FdTable.Refs.{times_closed}
use yu_noob_kernel.FdTable.Dup.{Copied, fd_table_dup-Copied, dup-free}
use yu_noob_kernel.FdTable.Install.{Freed, install-get, fd_free-Freed, fd_install-IsValid}

abbrev fresh : FdTable
fresh = record { fds = replicate nr_open_default empty; max_fds = nr_open_default; open_fds = 0 }

fresh_made : fd_table_alloc true true ≡ some fresh
unfolding fd_table_alloc
fresh_made = refl

fresh-IsValid : IsValid fresh
fresh-IsValid = record {
  storage = length-replicate nr_open_default empty;
  size = inl refl;
  counted = sym (count_files-replicate nr_open_default);
}

-- Every file has one reference.
abbrev files : Files
files = record { refcnt = λ f. 1; closed = [] }

-- Descriptor 3 of the fresh table is the file 7.
abbrev opened : FdTable
opened = (fd_install fresh (pos 3) (some 7)).0

opened_lem : fd_install fresh (pos 3) (some 7) ≡ (opened, ok tt)
unfolding fd_install replicate
opened_lem = refl

opened-IsValid : IsValid opened
opened-IsValid = fd_install-IsValid fresh (pos 3) (some 7) fresh-IsValid

fd_alloc_lem_example : AllocOk opened true (fd_alloc opened true)
fd_alloc_lem_example = fd_alloc_lem opened true opened-IsValid

two_descriptors_differ : ◌≢◌ {A = ℕ} 0 1
two_descriptors_differ = fd_alloc_twice true true fresh-IsValid first second
  where
    after_first : FdTable
    after_first = record fresh { fds = set fresh.fds 0 reserved }

    after_second : FdTable
    after_second = record fresh { fds = set after_first.fds 1 reserved }

    first : fd_alloc fresh true ≡ (after_first, ok 0)
    first = unfold fd_alloc replicate in refl

    second : fd_alloc after_first true ≡ (after_second, ok 1)
    second = unfold fd_alloc replicate in refl

fd_table_dup-Copied_example :
    (t' : FdTable) × (fs' : Files) × (fd_table_dup opened files true true ≡ some (t', fs'))
    × Copied opened files t' fs'
fd_table_dup-Copied_example = fd_table_dup-Copied opened files opened-IsValid

copy_of : Option (FdTable × Files) → FdTable × Files
copy_of none = (fresh, files)
copy_of (some c) = c

-- The copy of the table above.
copied : FdTable × Files
unfolding copy_of
copied = copy_of (fd_table_dup opened files true true)

copied_lem : fd_table_dup opened files true true ≡ some copied
unfolding copied fd_table_dup fd_install copy_of replicate
copied_lem = refl

dup-free_example :
    ((fd_table_free copied.0 copied.1).refcnt 7 ≡ files.refcnt 7)
    × (times_closed 7 (fd_table_free copied.0 copied.1).closed ≡ times_closed 7 files.closed)
dup-free_example =
    dup-free opened files {t' = copied.0} {fs' = copied.1} opened-IsValid copied_lem 7 (omega arith)
      (omega arith)

get_installed :
    (fd_get opened files (pos 3) ≡ (some 7, file_get files 7))
    × ((slot_at fresh 3 ≡ empty) ⊎ (slot_at fresh 3 ≡ reserved))
    × ((j : ℕ) → j ≢ 3 → slot_at opened j ≡ slot_at fresh j)
get_installed = install-get fresh files (pos 3) 7 fresh-IsValid opened_lem

free_of_three : Freed fresh files 3 (fd_free fresh files (pos 3))
free_of_three = fd_free-Freed fresh files 3 fresh-IsValid (omega arith)
