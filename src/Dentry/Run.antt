-- ===== src/Dentry/Run.antt =====
-- Runs of the operations on dentries from the start.
use yu_noob_kernel.Base.{
  ℕ, ◌≡◌, refl, subst, Bool, true, List, [], Option, none, some, replicate, get_or-replicate,
}
use yu_noob_kernel.Errno.{ok}
use yu_noob_kernel.HashTable.{hashtable_init}
use yu_noob_kernel.Icache.{InodeState, SuperOps}
use yu_noob_kernel.Dentry.{
  Qstr, Dentry, DentryState, hash_string, dentry_init, dentry_alloc, dentry_free, dentry_lookup,
  dentry_put, dentry_get, dentry_insert, dentry_delete,
}
use yu_noob_kernel.Dentry.Bucket.{IsPlaced, lookup-none}
use yu_noob_kernel.Dentry.Lookup.{
  Leaves, IsNamed, IsFresh, dentry_alloc-IsPlaced, dentry_insert-IsPlaced, dentry_get-IsPlaced,
  dentry_put-Leaves, dentry_free-Leaves, dentry_delete-Leaves,
}

-- One call: memory that is allocated is not in the table, and what is inserted has the hash of its name.
pub data Step (st : DentryState) : DentryState → Type 0 where
  allocates :
      (parent sb : ℕ) (name : List ℕ) (d : ℕ) (name_mem : Bool)
      → IsFresh st d
      → Step st (dentry_alloc st parent sb name d name_mem).0
  inserts : (d : ℕ) (mem : Bool) → IsNamed (st.dentries d) → Step st (dentry_insert st d mem).0
  looks_up :
      (sb parent : ℕ) (name : Qstr)
      → name.hash ≡ hash_string name.name
      → Step st (dentry_lookup st sb parent name).0
  refers : (d : ℕ) → Step st (dentry_get st d)
  puts : (d : ℕ) (ops : SuperOps) (st' : DentryState) → dentry_put st d ops ≡ some st' → Step st st'
  deletes :
      (d : ℕ) (refused : Bool) (ops : SuperOps) (st' : DentryState)
      → dentry_delete st d refused ops ≡ some st'
      → Step st st'
  frees :
      (d : ℕ) (ops : SuperOps) (st' : DentryState) → dentry_free st d ops ≡ some st' → Step st st'

-- The states that calls lead to from `dentry_init`.
pub data Reached : DentryState → Type 0 where
  started :
      (dentries : ℕ → Dentry) (inodes : InodeState) (st : DentryState)
      → dentry_init dentries inodes true ≡ ok st
      → Reached st
  stepped : (st st' : DentryState) → Reached st → Step st st' → Reached st'

returned : (o : Option DentryState) (st : DentryState) → o ≡ some st → Leaves o → IsPlaced st
returned o st h l = rw h at l

step-IsPlaced : (st st' : DentryState) → Step st st' → IsPlaced st → IsPlaced st'
step-IsPlaced st _ (allocates parent sb name d name_mem f) i =
    dentry_alloc-IsPlaced st parent sb name d name_mem f i
step-IsPlaced st _ (inserts d mem n) i = dentry_insert-IsPlaced st d mem n i
step-IsPlaced st _ (looks_up sb parent name h) i = rw (lookup-none st sb parent name i h) i
step-IsPlaced st _ (refers d) i = dentry_get-IsPlaced st d i
step-IsPlaced st _ (puts d ops st' h) i = returned _ st' h (dentry_put-Leaves st d ops i)
step-IsPlaced st _ (deletes d refused ops st' h) i =
    returned _ st' h (dentry_delete-Leaves st d refused ops i)
step-IsPlaced st _ (frees d ops st' h) i = returned _ st' h (dentry_free-Leaves st d ops i)

init-IsPlaced :
    (dentries : ℕ → Dentry) (inodes : InodeState) (st : DentryState)
    → dentry_init dentries inodes true ≡ ok st
    → IsPlaced st
unfolding dentry_init hashtable_init
init-IsPlaced dentries inodes st h =
    subst IsPlaced (made h)
      (record { sized = refl; placed = λ i. rw (get_or-replicate 128 i nil) tt })
  where
    nil : List (ℕ × ℕ)
    nil = []

    empty : DentryState
    empty = record {
      ht = record { buckets = replicate 128 []; size = 128; count = 0 };
      dentries = dentries;
      dentry_list = [];
      dentry_lru = [];
      count = 0;
      inodes = inodes;
    }

    made : ok empty ≡ ok st → empty ≡ st
    made e = cc e

Reached-IsPlaced : (st : DentryState) → Reached st → IsPlaced st
Reached-IsPlaced st (started dentries inodes _ h) = init-IsPlaced dentries inodes st h
Reached-IsPlaced st (stepped before _ r s) = step-IsPlaced before st s (Reached-IsPlaced before r)

-- Whatever calls have been made since `dentry_init`, `dentry_lookup` finds nothing: of the 128 numbers
-- of buckets none is hashed to itself, and the look-up takes the key of a dentry for its bucket.
-- Allocated memory is not in the table, an inserted dentry has the hash of its name, and so has the
-- name that is looked for.
pub Reached-dentry_lookup :
    (st : DentryState) (sb parent : ℕ) (name : Qstr)
    → Reached st
    → name.hash ≡ hash_string name.name
    → dentry_lookup st sb parent name ≡ (st, none)
Reached-dentry_lookup st sb parent name r h =
    lookup-none st sb parent name (Reached-IsPlaced st r) h
