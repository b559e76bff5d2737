-- ===== src/Icache.antt =====
-- src/fs/inode.c and struct inode of include/fs/inode.h: the inodes in memory. An inode is named by a
-- number, its address; the table maps the number of an inode on its file system to such an address.
-- The lock of an inode is a flag, and a call that takes it while it is taken does not return: `none`.
-- No other process runs in between the two locked parts of `inode_get`.
pub mod Inv
pub mod Get
pub mod Put
pub mod RoundTrip
pub mod Dirty
mod Tests
use Prim.Native.Nat.{bit_and, bit_or}
use yu_noob_kernel.Base.{
  ℕ, zero, suc, ◌+◌, ◌-◌, ◌%◌, ◌^◌, Bool, true, false, not, ◌==◌, if◌then◌else◌, ◌||◌, List, [],
  ◌∷◌, Option, none, some, list_del,
}
use yu_noob_kernel.Errno.{Errno, einval, enomem, enosys, Result, ok, err}
use yu_noob_kernel.HashTable.{
  HashTable, hashtable_init, hashtable_lookup, hashtable_insert, hashtable_delete,
}

abbrev pub i_new : ℕ
i_new = 1

abbrev pub i_dirty : ℕ
i_dirty = 3

-- `struct inode`: the numbers, the pointers to the super block and to the operations, the lock.
pub record Inode : Type 0 where
  pub i_ino : ℕ
  pub i_mode : ℕ
  pub i_uid : ℕ
  pub i_gid : ℕ
  pub i_size : ℕ
  pub i_blocks : ℕ
  pub i_atime : ℕ
  pub i_mtime : ℕ
  pub i_ctime : ℕ
  pub i_nlink : ℕ
  pub i_rdev : ℕ
  pub i_sb : Option ℕ
  pub i_op : Option ℕ
  pub i_fop : Option ℕ
  pub i_mapping : Option ℕ
  pub i_lock : Bool
  pub i_refcnt : ℕ
  pub i_state : ℕ

-- What an allocation of an inode gives: NULL, an error pointer, or memory.
pub data Allocated : Type 0 where
  null : Allocated
  failed : Errno → Allocated
  given : ℕ → Allocated

-- The `s_op` of a super block, as far as inode.c calls it: an operation is there or not, and what it
-- answers in the call at hand.
pub record SuperOps : Type 0 where
  pub alloc_inode : Option Allocated
  pub destroy_inode : Bool
  pub dirty_inode : Option (Inode → Inode)
  pub write_inode : Option (Inode → Inode × Result (Unit {0}))
  pub drop_inode : Option Bool

-- A super block without operations, and no super block.
abbrev pub no_ops : SuperOps
no_ops = record {
  alloc_inode = none;
  destroy_inode = false;
  dirty_inode = none;
  write_inode = none;
  drop_inode = none;
}

-- The static `inode_state`, and the inodes by their address.
pub record InodeState : Type 0 where
  pub ht : HashTable ℕ
  pub inodes : ℕ → Inode
  pub inode_list : List ℕ
  pub count : ℕ

abbrev pub set_inode : InodeState → ℕ → Inode → InodeState
set_inode st p x = record st { inodes = λ q. if p == q then x else st.inodes q }

-- `inode_init`, where the flag says whether there is memory for the table; an error is the panic.
unfoldable pub inode_init : (ℕ → Inode) → Bool → Result InodeState
inode_init inodes mem = elim (hashtable_init {V = ℕ} 64 mem) [
  | err e ↦ err e
  | ok ht ↦ ok (record { ht = ht; inodes = inodes; inode_list = []; count = 0 })
]

-- The memory that `inode_alloc` gets: from the file system, or else what `kmem_cache_alloc` gave.
unfoldable pub allocated : SuperOps → Option ℕ → Allocated
allocated ops mem = elim ops.alloc_inode [
  | some a ↦ a
  | none ↦ elim mem [ none ↦ failed enomem | some p ↦ given p ]
]

-- The inode that `inode_alloc` sets up.
abbrev pub fresh_inode : Option ℕ → Inode
fresh_inode sb = record {
  i_ino = 0;
  i_mode = 0;
  i_uid = 0;
  i_gid = 0;
  i_size = 0;
  i_blocks = 0;
  i_atime = 0;
  i_mtime = 0;
  i_ctime = 0;
  i_nlink = 1;
  i_rdev = 0;
  i_sb = sb;
  i_op = none;
  i_fop = none;
  i_mapping = none;
  i_lock = false;
  i_refcnt = 1;
  i_state = i_new;
}

unfoldable pub inode_alloc : InodeState → Option ℕ → SuperOps → Option ℕ → InodeState × Allocated
inode_alloc st sb ops mem = elim (allocated ops mem) [
  | null ↦ (st, null)
  | failed e ↦ (st, failed e)
  | given p ↦ (set_inode st p (fresh_inode sb), given p)
]

-- `inode_free`. `count` is a `u32`.
unfoldable pub inode_free : InodeState → ℕ → SuperOps → InodeState
inode_free st p ops = if ops.destroy_inode then st else record st {
  ht = (hashtable_delete st.ht (st.inodes p).i_ino).0;
  inode_list = list_del p st.inode_list;
  count = (st.count + 2 ^ 32 - 1) % 2 ^ 32;
}

-- What `inode_get` comes to: a store through NULL, an error, or an inode.
pub data Outcome : Type 0 where
  crash : Outcome
  refused : Errno → Outcome
  found : ℕ → Outcome

abbrev pub add_ref : Inode → Inode
add_ref x = record x { i_refcnt = (x.i_refcnt + 1) % 2 ^ 32 }

-- The second locked part of `inode_get`, for an inode that has its number. The flag says whether
-- `hashtable_insert` found memory; its result is not looked at.
unfoldable pub inode_hash : InodeState → ℕ → ℕ → Bool → InodeState
inode_hash st ino p mem = record st {
  ht = (hashtable_insert st.ht ino p mem).0;
  inode_list = p ∷ st.inode_list;
  count = (st.count + 1) % 2 ^ 32;
}

-- The part of `inode_get` behind `inode_alloc`. `IS_ERR` does not hold of NULL.
unfoldable pub finish_get : ℕ → Bool → InodeState × Allocated → InodeState × Outcome
finish_get ino node_mem (st, null) = (st, crash)
finish_get ino node_mem (st, failed e) = (st, refused e)
finish_get ino node_mem (st, given p) =
    (inode_hash (set_inode st p (record (st.inodes p) { i_ino = ino })) ino p node_mem, found p)

-- `inode_get`.
unfoldable pub inode_get :
    InodeState → Option ℕ → ℕ → SuperOps → Option ℕ → Bool → InodeState × Outcome
inode_get st sb ino ops mem node_mem = elim (hashtable_lookup st.ht ino) [
  | some p ↦ (set_inode st p (add_ref (st.inodes p)), found p)
  | none ↦ finish_get ino node_mem (inode_alloc st sb ops mem)
]

-- `inode_put`.
unfoldable pub inode_put : InodeState → ℕ → SuperOps → Option InodeState
inode_put st p ops =
    let x = st.inodes p in
    let n = (x.i_refcnt + 2 ^ 32 - 1) % 2 ^ 32 in
    let st' : InodeState = set_inode st p (record x { i_refcnt = n }) in
    let freed : InodeState = elim ops.drop_inode [
      | some true ↦ st'
      | some false ↦ inode_free st' p ops
      | none ↦ inode_free st' p ops
    ] in
    if x.i_lock then none else some (if n == 0 then freed else st')

unfoldable pub inode_lookup : InodeState → ℕ → Option ℕ
inode_lookup st ino = hashtable_lookup st.ht ino

-- `inode->i_state & I_DIRTY`, tested and cleared.
abbrev pub is_dirty : Inode → Bool
is_dirty x = not (bit_and x.i_state i_dirty == 0)

abbrev pub clear_dirty : Inode → Inode
clear_dirty x = record x { i_state = bit_and x.i_state (2 ^ 32 - 1 - i_dirty) }

-- `inode_dirty`. The operation of the file system runs under the lock.
unfoldable pub inode_dirty : InodeState → ℕ → SuperOps → Option InodeState
inode_dirty st p ops =
    let x = st.inodes p in
    let stained = record x { i_state = bit_or x.i_state i_dirty } in
    if x.i_lock
    then none
    else some (set_inode st p (elim ops.dirty_inode [ none ↦ stained | some f ↦ f stained ]))

-- The end of `inode_write`, with the inode and the result of the file system.
unfoldable pub finish_write :
    InodeState → ℕ → Inode × Result (Unit {0}) → InodeState × Result (Unit {0})
finish_write st p (x, ok u) = (set_inode st p (clear_dirty x), ok u)
finish_write st p (x, err e) = (set_inode st p x, err e)

-- `inode_write`, where there is an inode.
unfoldable pub inode_write : InodeState → ℕ → SuperOps → Option (InodeState × Result (Unit {0}))
inode_write st p ops =
    let x = st.inodes p in
    let written : InodeState × Result (Unit {0}) = elim ops.write_inode [
      | none ↦ (st, err enosys)
      | some f ↦ finish_write st p (f x)
    ] in
    if x.i_lock then none else some (if is_dirty x then written else (st, ok tt))

-- `inode_truncate`: it calls `inode_dirty` with the lock taken.
unfoldable pub inode_truncate : InodeState → ℕ → SuperOps → Option InodeState
inode_truncate st p ops =
    let x = st.inodes p in
    let held = set_inode st p (record x { i_size = 0; i_blocks = 0; i_lock = true }) in
    let dirtied : Option InodeState = elim (inode_dirty held p ops) [
      | none ↦ none
      | some st' ↦ some (set_inode st' p (record (st'.inodes p) { i_lock = false }))
    ] in
    if x.i_lock then none else dirtied
