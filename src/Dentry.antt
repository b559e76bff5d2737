-- ===== src/Dentry.antt =====
-- src/fs/dentry.c, struct dentry of include/fs/dentry.h and hash_string of include/fs/fs_types.h: the
-- directory entries in memory. Pointers are addresses, NULL is 0. A dentry is in the list of its
-- parent's children (`d_sibling`), in `dentry_list` (`d_list`) and in `dentry_lru` (`d_lru`) or not,
-- and its node is empty if it is not. A function returns with the locks that it takes released. No
-- file sets `d_op`; what its `d_delete` would answer is an argument of `dentry_delete`.
pub mod Nodes
pub mod Bucket
pub mod Lookup
pub mod Run
pub mod Insert
pub mod Release
mod Tests
use Prim.Native.Nat.{bit_xor}
use yu_noob_kernel.Base.{
  ℕ, zero, suc, ◌+◌, ◌-◌, ◌*◌, ◌%◌, ◌^◌, Bool, true, false, not, ltb, ◌==◌, if◌then◌else◌, ◌&&◌,
  ◌||◌, List, [], ◌∷◌, Option, none, some, length, get_or, occurs, list_del,
}
use yu_noob_kernel.Errno.{Errno, einval, enomem, eexist, Result, ok, err}
use yu_noob_kernel.HashTable.{
  HashTable, hash_ptr, hashtable_init, hashtable_insert, hashtable_delete,
}
use yu_noob_kernel.Icache.{InodeState, SuperOps, inode_put}

-- `struct qstr`; the bytes of the name without the zero behind them.
pub record Qstr : Type 0 where
  pub name : List ℕ
  pub len : ℕ
  pub hash : ℕ

-- The loop of `hash_string`, from a hash on.
unfoldable pub hash_from : ℕ → List ℕ → ℕ
hash_from hash [] = hash
hash_from hash (b ∷ bs) = hash_from ((hash * 31 + b) % 2 ^ 32) bs

-- `hash_string` of all bytes of a name.
unfoldable pub hash_string : List ℕ → ℕ
hash_string name = hash_from 0 name

-- `struct dentry`; the flag is `DCACHE_UNHASHED` of `d_flags`.
pub record Dentry : Type 0 where
  pub d_name : Qstr
  pub d_inode : ℕ
  pub d_sb : ℕ
  pub d_parent : ℕ
  pub d_children : List ℕ
  pub d_refcnt : ℕ
  pub unhashed : Bool

-- The static `dentry_state`, the dentries by their address, and the inodes.
pub record DentryState : Type 0 where
  pub ht : HashTable ℕ
  pub dentries : ℕ → Dentry
  pub dentry_list : List ℕ
  pub dentry_lru : List ℕ
  pub count : ℕ
  pub inodes : InodeState

abbrev pub set_dentry : DentryState → ℕ → Dentry → DentryState
set_dentry st d x = record st { dentries = λ q. if d == q then x else st.dentries q }

-- `dentry_hash_key`, with the size of the table.
unfoldable pub dentry_hash_key : ℕ → ℕ → ℕ → ℕ → ℕ
dentry_hash_key sb parent hash size = hash_ptr (bit_xor (bit_xor sb parent % 2 ^ 32) hash) size

abbrev pub key_of : DentryState → ℕ → ℕ
key_of st d =
    dentry_hash_key (st.dentries d).d_sb (st.dentries d).d_parent (st.dentries d).d_name.hash
      st.ht.size

-- `dentry_init`, where the flag says whether there is memory for the table; an error is the panic.
unfoldable pub dentry_init : (ℕ → Dentry) → InodeState → Bool → Result DentryState
dentry_init dentries inodes mem = elim (hashtable_init {V = ℕ} 128 mem) [
  | err e ↦ err e
  | ok ht ↦ ok (record {
    ht = ht;
    dentries = dentries;
    dentry_list = [];
    dentry_lru = [];
    count = 0;
    inodes = inodes;
  })
]

-- The dentry that `dentry_alloc` sets up at the address `d`.
abbrev pub fresh_dentry : ℕ → ℕ → ℕ → List ℕ → Dentry
fresh_dentry d parent sb name = record {
  d_name = record { name = name; len = length name; hash = hash_string name };
  d_inode = 0;
  d_sb = sb;
  d_parent = if parent == 0 then d else parent;
  d_children = [];
  d_refcnt = 1;
  unhashed = false;
}

abbrev pub set_children : DentryState → ℕ → List ℕ → DentryState
set_children st d children = set_dentry st d (record (st.dentries d) { d_children = children })

-- `dentry_alloc`, with what `kmem_cache_alloc` gave and whether there is memory for the name.
unfoldable pub dentry_alloc : DentryState → ℕ → ℕ → List ℕ → ℕ → Bool → DentryState × Result ℕ
dentry_alloc st parent sb name d name_mem =
    let st' : DentryState = set_dentry st d (fresh_dentry d parent sb name) in
    if d == 0 || not name_mem then (st, err enomem) else (
      if parent == 0 then st' else set_children st' parent (d ∷ (st'.dentries parent).d_children),
      ok d,
    )

-- The part of `dentry_free` and `dentry_delete` that takes a dentry out of the table and the lists.
-- `count` is a `u32`.
unfoldable pub unhash : DentryState → ℕ → DentryState
unhash st d =
    let out : DentryState =
      set_dentry
        (record st {
          ht = (hashtable_delete st.ht (key_of st d)).0;
          dentry_list = list_del d st.dentry_list;
          count = (st.count + 2 ^ 32 - 1) % 2 ^ 32;
        })
        d (record (st.dentries d) { unhashed = true }) in
    let st' : DentryState = if (st.dentries d).unhashed then st else out in
    record st' { dentry_lru = list_del d st'.dentry_lru }

-- `list_del(&dentry->d_sibling)`.
unfoldable pub leave_parent : DentryState → ℕ → DentryState
leave_parent st d =
    let p = (st.dentries d).d_parent in
    if p == 0 || p == d then st else set_children st p (list_del d (st.dentries p).d_children)

-- `inode_put` of the inode of a dentry.
unfoldable pub put_inode : DentryState → ℕ → SuperOps → Option DentryState
put_inode st inode ops = if inode == 0 then some st else elim (inode_put st.inodes inode ops) [
  | none ↦ none
  | some inodes ↦ some (record st { inodes = inodes })
]

-- `dentry_free`; none when `inode_put` does not return.
unfoldable pub dentry_free : DentryState → ℕ → SuperOps → Option DentryState
dentry_free st d ops =
    if d == 0 then some st else put_inode (leave_parent (unhash st d) d) (st.dentries d).d_inode ops

-- `strcmp` of two names gives 0.
unfoldable pub same_name : List ℕ → List ℕ → Bool
same_name [] [] = true
same_name [] (b ∷ bs) = false
same_name (a ∷ as') [] = false
same_name (a ∷ as') (b ∷ bs) = a == b && same_name as' bs

-- The comparison in the walks of `dentry_lookup` and `dentry_insert`.
abbrev pub matches : DentryState → ℕ → ℕ → Qstr → ℕ → Bool
matches st sb parent name d =
    let x = st.dentries d in
    not (d == 0)
    && (x.d_sb == sb
        && (x.d_parent == parent
            && (x.d_name.len == name.len && same_name x.d_name.name name.name)))

-- Either walk along one bucket.
unfoldable pub find_in : DentryState → ℕ → ℕ → Qstr → List (ℕ × ℕ) → Option ℕ
find_in st sb parent name [] = none
find_in st sb parent name ((k, d) ∷ nodes) =
    if matches st sb parent name d then some d else find_in st sb parent name nodes

abbrev pub add_ref : Dentry → Dentry
add_ref x = record x { d_refcnt = (x.d_refcnt + 1) % 2 ^ 32 }

-- `dentry_lookup`: the bucket is the key itself.
unfoldable pub dentry_lookup : DentryState → ℕ → ℕ → Qstr → DentryState × Option ℕ
dentry_lookup st sb parent name =
    let bucket = get_or st.ht.buckets (dentry_hash_key sb parent name.hash st.ht.size) [] in
    elim (find_in st sb parent name bucket) [
      | none ↦ (st, none)
      | some d ↦ (set_dentry st d (add_ref (st.dentries d)), some d)
    ]

-- `dentry_put`.
unfoldable pub dentry_put : DentryState → ℕ → SuperOps → Option DentryState
dentry_put st d ops =
    let x = st.dentries d in
    let n = (x.d_refcnt + 2 ^ 32 - 1) % 2 ^ 32 in
    let st' : DentryState = set_dentry st d (record x { d_refcnt = n }) in
    if d == 0
    then some st
    else if not (n == 0)
    then some st'
    else if x.unhashed
    then dentry_free st' d ops
    else some
        (if occurs d st.dentry_lru == 0 then record st' { dentry_lru = d ∷ st.dentry_lru } else st')

-- `dentry_get`.
unfoldable pub dentry_get : DentryState → ℕ → DentryState
dentry_get st d = if d == 0 then st else set_dentry st d (add_ref (st.dentries d))

-- `dentry_insert`: the bucket is the one of the key in the table. The flag says whether
-- `hashtable_insert` found memory; its result is not looked at.
unfoldable pub dentry_insert : DentryState → ℕ → Bool → DentryState × Result (Unit {0})
dentry_insert st d mem =
    let x = st.dentries d in
    let key = key_of st d in
    let bucket = get_or st.ht.buckets (hash_ptr key st.ht.size) [] in
    let inserted : DentryState × Result (Unit {0}) = (
      record st {
        ht = (hashtable_insert st.ht key d mem).0;
        dentry_list = d ∷ st.dentry_list;
        count = (st.count + 1) % 2 ^ 32;
      },
      ok tt,
    ) in
    if d == 0 || x.d_sb == 0 || x.d_parent == 0
    then (st, err einval)
    else elim (find_in st x.d_sb x.d_parent x.d_name bucket) [
      | some e ↦ (st, err eexist)
      | none ↦ inserted
    ]

-- `dentry_delete`, where the flag says that `d_delete` is there and does not answer 0.
unfoldable pub dentry_delete : DentryState → ℕ → Bool → SuperOps → Option DentryState
dentry_delete st d refused ops =
    if d == 0 || refused then some st else dentry_put (leave_parent (unhash st d) d) d ops

-- `dentry_root`, with what `kmem_cache_alloc` gave and which allocations find memory.
unfoldable pub dentry_root :
    DentryState → ℕ → ℕ → Bool → Bool → SuperOps → Option (DentryState × Result ℕ)
dentry_root st sb d name_mem node_mem ops =
    let a = dentry_alloc st 0 sb (47 ∷ []) d name_mem in
    elim a.1 [
      | err e ↦ some (a.0, err e)
      | ok root ↦
          let st' = set_dentry a.0 root (record (a.0.dentries root) { d_parent = root }) in
          let i = dentry_insert st' root node_mem in
          elim i.1 [
            | ok u ↦ some (i.0, ok root)
            | err e ↦ elim (dentry_free i.0 root ops) [
              | none ↦ none
              | some st2 ↦ some (st2, err eexist)
            ]
          ]
    ]
