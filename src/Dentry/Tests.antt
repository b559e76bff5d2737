-- ===== src/Dentry/Tests.antt =====
-- Runs of the operations on dentries, and the theorems at concrete states.
use yu_noob_kernel.Base.{
  ℕ, ◌≡◌, arith, ◌==◌, if◌then◌else◌, refl, true, List, [], ◌∷◌, none, some, replicate,
  get_or-replicate,
}
use yu_noob_kernel.Errno.{eexist, Result, ok, err}
use yu_noob_kernel.HashTable.{HashTable, hashtable_init, hashtable_insert}
use yu_noob_kernel.HashTable.Map.{IsValid}
use yu_noob_kernel.HashTable.Laws.{InsertOk, hashtable_init_lem, hashtable_insert_lem}
use yu_noob_kernel.Icache.{InodeState, no_ops, fresh_inode, inode_init}
use yu_noob_kernel.Icache.Inv.{IsConsistent, inode_init-IsConsistent}
use yu_noob_kernel.Dentry.{
  Qstr, Dentry, DentryState, hash_string, fresh_dentry, dentry_init, dentry_hash_key, dentry_alloc,
  dentry_insert, dentry_lookup, dentry_free,
}
use yu_noob_kernel.Dentry.Lookup.{IsFresh}
use yu_noob_kernel.Dentry.Run.{Reached, started, stepped, allocates, inserts, Reached-dentry_lookup}
use yu_noob_kernel.Dentry.Insert.{dentry_insert-again}
use yu_noob_kernel.Dentry.Release.{Freed, dentry_free-Freed}

abbrev empty_inodes : InodeState
empty_inodes = record {
  ht = record { buckets = replicate 64 []; size = 64; count = 0 };
  inodes = λ p. fresh_inode none;
  inode_list = [];
  count = 0;
}

empty_inodes-IsConsistent : IsConsistent empty_inodes
empty_inodes-IsConsistent = (inode_init-IsConsistent (λ p. fresh_inode none) true made).0
  where
    made : inode_init (λ p. fresh_inode none) true ≡ ok empty_inodes
    made = unfold inode_init hashtable_init in refl

abbrev memory : ℕ → Dentry
memory d = fresh_dentry d 0x2000 7 (97 ∷ [])

abbrev empty_state : DentryState
empty_state = record {
  ht = record { buckets = replicate 128 []; size = 128; count = 0 };
  dentries = memory;
  dentry_list = [];
  dentry_lru = [];
  count = 0;
  inodes = empty_inodes;
}

empty_made : dentry_init memory empty_inodes true ≡ ok empty_state
unfolding dentry_init hashtable_init
empty_made = refl

abbrev the_name : Qstr
the_name = record { name = 97 ∷ []; len = 1; hash = hash_string (97 ∷ []) }

-- A dentry "a" under the parent at 0x2000.
abbrev with_memory : DentryState
with_memory = (dentry_alloc empty_state 0x2000 7 (97 ∷ []) 0x1000 true).0

abbrev with_dentry : DentryState
with_dentry = (dentry_insert with_memory 0x1000 true).0

with_memory-Reached : Reached with_memory
with_memory-Reached =
    stepped empty_state with_memory (started memory empty_inodes empty_state empty_made)
      (allocates 0x2000 7 (97 ∷ []) 0x1000 true fresh)
  where
    nil : List (ℕ × ℕ)
    nil = []

    fresh : IsFresh empty_state 0x1000
    fresh i = rw (get_or-replicate 128 i nil) tt

with_dentry-Reached : Reached with_dentry
unfolding dentry_alloc
with_dentry-Reached = stepped with_memory with_dentry with_memory-Reached (inserts 0x1000 true refl)

Reached-dentry_lookup_example : dentry_lookup with_dentry 7 0x2000 the_name ≡ (with_dentry, none)
Reached-dentry_lookup_example =
    Reached-dentry_lookup with_dentry 7 0x2000 the_name with_dentry-Reached refl

empty_table-IsValid : IsValid empty_state.ht
empty_table-IsValid = (hashtable_init_lem 128 true made).0
  where
    made : hashtable_init {V = ℕ} 128 true ≡ ok empty_state.ht
    made = unfold hashtable_init in refl

dentry_insert-again_example :
    dentry_insert (dentry_insert empty_state 0x1000 true).0 0x1040 true
    ≡ ((dentry_insert empty_state 0x1000 true).0, err eexist)
dentry_insert-again_example =
    dentry_insert-again empty_state 0x1000 0x1040 true empty_table-IsValid refl refl refl refl refl

inserted-IsValid :
    (ht : HashTable ℕ) (key value : ℕ) (r : HashTable ℕ × Result (Unit {0}))
    → InsertOk ht key value true r
    → IsValid r.0
inserted-IsValid ht key value (r, ok u) (done, _) = done.valid
inserted-IsValid ht key value (r, err e) (_, _, m, _) = absurd (cc m)

abbrev child : Dentry
child = record (memory 0x1000) { d_inode = 0x3000 }

abbrev child_key : ℕ
child_key = dentry_hash_key 7 0x2000 child.d_name.hash 128

-- A dentry with an inode, the child of another, in the table and in the lists.
abbrev with_inode : DentryState
with_inode = record empty_state {
  ht = (hashtable_insert empty_state.ht child_key 0x1000 true).0;
  dentries = λ d.
      if d == 0x1000
      then child
      else record (memory d) { d_parent = d; d_children = 0x1080 ∷ 0x1000 ∷ [] };
  dentry_list = 0x1000 ∷ 0x2000 ∷ [];
  dentry_lru = 0x1000 ∷ [];
  count = 2;
}

with_inode-IsValid : IsValid with_inode.ht
with_inode-IsValid =
    inserted-IsValid empty_state.ht child_key 0x1000 _
      (hashtable_insert_lem empty_state.ht child_key 0x1000 true empty_table-IsValid (omega arith))

dentry_free-Freed_example :
    (st : DentryState) × (dentry_free with_inode 0x1000 no_ops ≡ some st)
    × Freed with_inode 0x1000 no_ops st
dentry_free-Freed_example =
    dentry_free-Freed with_inode 0x1000 no_ops with_inode-IsValid refl refl
      empty_inodes-IsConsistent refl
