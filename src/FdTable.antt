-- ===== src/FdTable.antt =====
-- src/fs/fd_table.c, with the reference counts of src/fs/file.c that it changes. A `struct file` is
-- named by a number; NULL and FD_RESERVED are constructors of `Slot`. Each call runs under the lock
-- of the table. The NULL tests of the table pointer itself have no counterpart.
pub mod Inv
pub mod Alloc
pub mod Refs
pub mod Dup
pub mod Install
mod Tests
use yu_noob_kernel.Base.{
  ℕ, zero, suc, ◌+◌, ◌-◌, ◌*◌, ◌/◌, ◌%◌, ◌^◌, Bool, true, false, ltb, leb, ◌==◌, if◌then◌else◌,
  ◌&&◌, ◌||◌, List, [], ◌∷◌, ◌++◌, Option, none, some, get_or, set, take, replicate, ℤ, is_neg,
  pos_part,
}
use yu_noob_kernel.Errno.{Errno, emfile, einval, ebadf, Result, ok, err}

pub data Slot : Type 0 where
  empty : Slot
  reserved : Slot
  file : ℕ → Slot

abbrev pub nr_open_default : ℕ
nr_open_default = 32

abbrev pub nr_open_max : ℕ
nr_open_max = 1024

pub record FdTable : Type 0 where
  pub fds : List Slot
  pub max_fds : ℕ
  pub open_fds : ℕ

-- The reference counts of the files, and those closed because their count fell to 0, latest first.
pub record Files : Type 0 where
  pub refcnt : ℕ → ℕ
  pub closed : List ℕ

abbrev pub update : (ℕ → ℕ) → ℕ → ℕ → ℕ → ℕ
update f p v q = if p == q then v else f q

-- `u32` counters wrap.
abbrev pub inc32 : ℕ → ℕ
inc32 n = (n + 1) % 2 ^ 32

abbrev pub dec32 : ℕ → ℕ
dec32 n = (n + 2 ^ 32 - 1) % 2 ^ 32

unfoldable pub file_get : Files → ℕ → Files
file_get fs f = record fs { refcnt = update fs.refcnt f (inc32 (fs.refcnt f)) }

-- The calls of `release`, `dentry_put` and `file_free` on the last reference are the entry in `closed`.
unfoldable pub file_put : Files → ℕ → Files
file_put fs f =
    let n = dec32 (fs.refcnt f) in
    record { refcnt = update fs.refcnt f n; closed = if n == 0 then f ∷ fs.closed else fs.closed }

abbrev pub slot_at : FdTable → ℕ → Slot
slot_at t fd = get_or t.fds fd empty

-- `fd_table_alloc`, where the flags say whether the two calls of `kmalloc` found memory.
unfoldable pub fd_table_alloc : Bool → Bool → Option FdTable
fd_table_alloc false mem_fds = none
fd_table_alloc true false = none
fd_table_alloc true true =
    some (record { fds = replicate nr_open_default empty; max_fds = nr_open_default; open_fds = 0 })

-- The loop of `fd_table_free`: each file of the table is put.
unfoldable pub put_slots : List Slot → Files → Files
put_slots [] fs = fs
put_slots (file f ∷ ss) fs = put_slots ss (file_put fs f)
put_slots (_ ∷ ss) fs = put_slots ss fs

unfoldable pub fd_table_free : FdTable → Files → Files
unfolding put_slots
fd_table_free t fs = put_slots (take t.max_fds t.fds) fs

-- The loop of `fd_table_dup` from index `i` on, with `n` rounds left.
unfoldable pub dup_slots : ℕ → ℕ → List Slot → FdTable → Files → FdTable × Files
dup_slots zero i src new fs = (new, fs)
dup_slots (suc n) i src new fs = elim (get_or src i empty) [
  | file f ↦
      dup_slots n (i + 1) src
        (record new { fds = set new.fds i (file f); open_fds = inc32 new.open_fds }) (file_get fs f)
  | _ ↦ dup_slots n (i + 1) src new fs
]

abbrev pub least : ℕ → ℕ → ℕ
least a b = if ltb a b then a else b

unfoldable pub fd_table_dup : FdTable → Files → Bool → Bool → Option (FdTable × Files)
unfolding fd_table_alloc dup_slots
fd_table_dup t fs mem mem_fds = elim (fd_table_alloc mem mem_fds) [
  | none ↦ none
  | some new ↦ some (dup_slots (least t.max_fds new.max_fds) 0 t.fds new fs)
]

-- The first NULL slot among the `n` from index `i` on.
unfoldable pub find_empty : ℕ → ℕ → List Slot → Option ℕ
find_empty zero i slots = none
find_empty (suc n) i slots = elim (get_or slots i empty) [
  | empty ↦ some i
  | _ ↦ find_empty n (i + 1) slots
]

-- The table doubled, up to the limit, with the slot at half its new size reserved.
unfoldable pub doubled : FdTable → FdTable × Result ℕ
doubled t =
    let twice = t.max_fds * 2 in
    let new_max = if ltb nr_open_max twice then nr_open_max else twice in
    let new_fds = take t.max_fds t.fds ++ replicate (new_max - t.max_fds) empty in
    let fd = new_max / 2 in (record t { fds = set new_fds fd reserved; max_fds = new_max }, ok fd)

-- The part of `fd_alloc` that is reached with a full table; the flag is that of `kmalloc`.
unfoldable pub grow : FdTable → Bool → FdTable × Result ℕ
unfolding doubled
grow t mem = if ltb t.max_fds nr_open_max && mem then doubled t else (t, err emfile)

unfoldable pub fd_alloc : FdTable → Bool → FdTable × Result ℕ
unfolding find_empty grow
fd_alloc t mem = elim (find_empty t.max_fds 0 t.fds) [
  | some fd ↦ (record t { fds = set t.fds fd reserved }, ok fd)
  | none ↦ grow t mem
]

-- `fd < 0 || (u32)fd >= fdt->max_fds`.
abbrev pub out_of_range : FdTable → ℤ → Bool
out_of_range t fd = is_neg fd || leb t.max_fds (pos_part fd)

unfoldable pub fd_free : FdTable → Files → ℤ → FdTable × Files
fd_free t fs fd = if out_of_range t fd then (t, fs) else elim (slot_at t (pos_part fd)) [
  | file f ↦
      (record t { fds = set t.fds (pos_part fd) empty; open_fds = dec32 t.open_fds }, file_put fs f)
  | _ ↦ (record t { fds = set t.fds (pos_part fd) empty }, fs)
]

unfoldable pub fd_get : FdTable → Files → ℤ → Option ℕ × Files
fd_get t fs fd =
    if out_of_range t fd
    then (none, fs)
    else elim (slot_at t (pos_part fd)) [ file f ↦ (some f, file_get fs f) | _ ↦ (none, fs) ]

-- A NULL file is `none`.
unfoldable pub fd_install : FdTable → ℤ → Option ℕ → FdTable × Result (Unit {0})
fd_install t fd none = (t, err einval)
fd_install t fd (some f) =
    if out_of_range t fd then (t, err einval) else elim (slot_at t (pos_part fd)) [
      | file g ↦ (t, err ebadf)
      | _ ↦
          (record t { fds = set t.fds (pos_part fd) (file f); open_fds = inc32 t.open_fds }, ok tt)
    ]
