-- ===== src/Dentry/Lookup.antt =====
-- Every operation keeps every node in its place, so that no dentry is ever found.
use yu_noob_kernel.Base.{
  ℕ, ◌+◌, ◌-◌, ◌%◌, ◌^◌, ◌≡◌, inl, inr, refl, ap, ◌∙◌, Bool, true, false, Bool-cases, not, ◌==◌,
  if◌then◌else◌, ◌||◌, List, [], ◌∷◌, Option, none, some, get_or, occurs, list_del,
}
use yu_noob_kernel.Errno.{eexist, Result, ok, err}
use yu_noob_kernel.HashTable.{hash_ptr, hashtable_insert, hashtable_delete}
use yu_noob_kernel.Icache.{InodeState, SuperOps, inode_put}
use yu_noob_kernel.Dentry.{
  Dentry, DentryState, hash_string, key_of, set_dentry, fresh_dentry, dentry_alloc, unhash,
  leave_parent, put_inode, dentry_free, dentry_put, dentry_get, find_in, dentry_insert,
  dentry_delete,
}
use yu_noob_kernel.Dentry.Nodes.{
  Everywhere, all_map, all_zip, hashtable_insert-Everywhere, hashtable_delete-Everywhere,
  hashtable_insert-size, hashtable_delete-size,
}
use yu_noob_kernel.Dentry.Bucket.{PlacedNode, IsPlaced, set_dentry-IsPlaced}

-- A state with the same dentries, over another table of the same size.
pub retabled :
    (st st' : DentryState)
    → st'.dentries ≡ st.dentries
    → st'.ht.size ≡ st.ht.size
    → Everywhere (PlacedNode st) st'.ht.buckets
    → IsPlaced st
    → IsPlaced st'
retabled st st' d s e i = record {
  sized = s ∙ i.sized;
  placed = λ j. all_map (PlacedNode st j) (PlacedNode st' j) _ (λ k v h. rw (d, s) h) (e j);
}

-- A state with the same dentries and the same table.
relisted :
    (st st' : DentryState)
    → st'.dentries ≡ st.dentries
    → st'.ht ≡ st.ht
    → IsPlaced st
    → IsPlaced st'
relisted st st' d h i = retabled st st' d (ap (λ t. t.size) h) (λ j. rw h (i.placed j)) i

either_way : {A : Type 0} (P : A → Type 0) (b : Bool) {x y : A} → P x → P y → P (if b then x else y)
either_way P true p q = p
either_way P false p q = q

pub unhash-IsPlaced : (st : DentryState) (d : ℕ) → IsPlaced st → IsPlaced (unhash st d)
unfolding unhash
unhash-IsPlaced st d i = elim (Bool-cases (st.dentries d).unhashed) [
  | inl e ↦ rw e (relisted st _ refl refl i)
  | inr e ↦ rw e (
      relisted _ _ refl refl (
        set_dentry-IsPlaced out d _ refl refl refl (
          retabled st out refl (hashtable_delete-size st.ht (key_of st d))
            (hashtable_delete-Everywhere (PlacedNode st) st.ht (key_of st d) i.placed) i)))
]
  where
    out : DentryState
    out = record st {
      ht = (hashtable_delete st.ht (key_of st d)).0;
      dentry_list = list_del d st.dentry_list;
      count = (st.count + 2 ^ 32 - 1) % 2 ^ 32;
    }

pub leave_parent-IsPlaced : (st : DentryState) (d : ℕ) → IsPlaced st → IsPlaced (leave_parent st d)
unfolding leave_parent
leave_parent-IsPlaced st d i =
    elim (Bool-cases ((st.dentries d).d_parent == 0 || (st.dentries d).d_parent == d)) [
      | inl e ↦ rw e i
      | inr e ↦ rw e (set_dentry-IsPlaced st (st.dentries d).d_parent _ refl refl refl i)
    ]

-- What an operation that may not return leaves, if it returns.
abbrev pub Leaves : Option DentryState → Type 0
Leaves none = Unit {0}
Leaves (some st) = IsPlaced st

pub put_inode-Leaves :
    (st : DentryState) (inode : ℕ) (ops : SuperOps) → IsPlaced st → Leaves (put_inode st inode ops)
unfolding put_inode
put_inode-Leaves st inode ops i = elim (Bool-cases (inode == 0)) [
  | inl e ↦ rw e i
  | inr e ↦ rw e (cases (inode_put st.inodes inode ops))
]
  where
    cases :
        (o : Option InodeState)
        → Leaves (elim o [ none ↦ none | some inodes ↦ some (record st { inodes = inodes }) ])
    cases none = tt
    cases (some inodes) = relisted st (record st { inodes = inodes }) refl refl i

pub dentry_free-Leaves :
    (st : DentryState) (d : ℕ) (ops : SuperOps) → IsPlaced st → Leaves (dentry_free st d ops)
unfolding dentry_free
dentry_free-Leaves st d ops i = elim (Bool-cases (d == 0)) [
  | inl e ↦ rw e i
  | inr e ↦
      rw e
        (put_inode-Leaves _ _ ops (leave_parent-IsPlaced (unhash st d) d (unhash-IsPlaced st d i)))
]

pub dentry_put-Leaves :
    (st : DentryState) (d : ℕ) (ops : SuperOps) → IsPlaced st → Leaves (dentry_put st d ops)
unfolding dentry_put
dentry_put-Leaves st d ops i =
    either_way Leaves (d == 0) {x = some st} {y = if not (n == 0) then some st' else last} i (
      either_way Leaves (not (n == 0)) {x = some st'} {y = last} less (
        either_way Leaves (st.dentries d).unhashed {x = dentry_free st' d ops} {y = some kept}
          (dentry_free-Leaves st' d ops less) still))
  where
    n : ℕ
    n = ((st.dentries d).d_refcnt + 2 ^ 32 - 1) % 2 ^ 32

    st' : DentryState
    st' = set_dentry st d (record (st.dentries d) { d_refcnt = n })

    kept : DentryState
    kept =
        if occurs d st.dentry_lru == 0 then record st' { dentry_lru = d ∷ st.dentry_lru } else st'

    last : Option DentryState
    last = if (st.dentries d).unhashed then dentry_free st' d ops else some kept

    less : IsPlaced st'
    less = set_dentry-IsPlaced st d (record (st.dentries d) { d_refcnt = n }) refl refl refl i

    still : IsPlaced kept
    still =
        either_way IsPlaced (occurs d st.dentry_lru == 0)
          {x = record st' { dentry_lru = d ∷ st.dentry_lru }} {y = st'}
          (relisted st' (record st' { dentry_lru = d ∷ st.dentry_lru }) refl refl less) less

pub dentry_delete-Leaves :
    (st : DentryState) (d : ℕ) (refused : Bool) (ops : SuperOps)
    → IsPlaced st
    → Leaves (dentry_delete st d refused ops)
unfolding dentry_delete
dentry_delete-Leaves st d refused ops i = elim (Bool-cases (d == 0 || refused)) [
  | inl e ↦ rw e i
  | inr e ↦
      rw e
        (dentry_put-Leaves _ d ops (leave_parent-IsPlaced (unhash st d) d (unhash-IsPlaced st d i)))
]

pub dentry_get-IsPlaced : (st : DentryState) (d : ℕ) → IsPlaced st → IsPlaced (dentry_get st d)
unfolding dentry_get
dentry_get-IsPlaced st d i = elim (Bool-cases (d == 0)) [
  | inl e ↦ rw e i
  | inr e ↦ rw e (set_dentry-IsPlaced st d _ refl refl refl i)
]

-- The hash of a dentry's name is the one of its bytes, as `dentry_alloc` sets it.
abbrev pub IsNamed : Dentry → Type 0
IsNamed x = x.d_name.hash ≡ hash_string x.d_name.name

pub dentry_insert-IsPlaced :
    (st : DentryState) (d : ℕ) (mem : Bool)
    → IsNamed (st.dentries d)
    → IsPlaced st
    → IsPlaced (dentry_insert st d mem).0
unfolding dentry_insert
dentry_insert-IsPlaced st d mem n i =
    either_way (λ (r : DentryState × Result (Unit {0})). IsPlaced r.0) _ i
      (cases (find_in st x.d_sb x.d_parent x.d_name bucket))
  where
    x : Dentry
    x = st.dentries d

    bucket : List (ℕ × ℕ)
    bucket = get_or st.ht.buckets (hash_ptr (key_of st d) st.ht.size) []

    inserted : DentryState
    inserted = record st {
      ht = (hashtable_insert st.ht (key_of st d) d mem).0;
      dentry_list = d ∷ st.dentry_list;
      count = (st.count + 1) % 2 ^ 32;
    }

    home : hash_ptr (key_of st d) 128 ≡ hash_ptr (key_of st d) st.ht.size
    home = rw i.sized refl

    cases :
        (o : Option ℕ)
        → IsPlaced
            (elim o as (λ _. DentryState × Result (Unit {0})) [
              | some e ↦ (st, err eexist)
              | none ↦ (inserted, ok tt)
            ]).0
    cases (some e) = i
    cases none =
        retabled st inserted refl (hashtable_insert-size st.ht (key_of st d) d mem)
          (hashtable_insert-Everywhere (PlacedNode st) st.ht (key_of st d) d mem (home, refl, n)
            i.placed)
          i

-- Memory that no node of the table is about.
abbrev pub IsFresh : DentryState → ℕ → Type 0
IsFresh st d = Everywhere (λ i k v. (d == v) ≡ false) st.ht.buckets

pub dentry_alloc-IsPlaced :
    (st : DentryState) (parent sb : ℕ) (name : List ℕ) (d : ℕ) (name_mem : Bool)
    → IsFresh st d
    → IsPlaced st
    → IsPlaced (dentry_alloc st parent sb name d name_mem).0
unfolding dentry_alloc
dentry_alloc-IsPlaced st parent sb name d name_mem f i =
    either_way (λ (r : DentryState × Result ℕ). IsPlaced r.0) _ i
      (either_way IsPlaced (parent == 0) made (set_dentry-IsPlaced _ parent _ refl refl refl made))
  where
    made : IsPlaced (set_dentry st d (fresh_dentry d parent sb name))
    made = record {
      sized = i.sized;
      placed = λ j.
          all_zip (λ k v. (d == v) ≡ false) (PlacedNode st j) _ _ (λ k v o h. rw o h) (f j)
            (i.placed j);
    }
