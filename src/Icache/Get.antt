-- ===== src/Icache/Get.antt =====
-- `inode_get`: an inode by its number, from the table or new.
use yu_noob_kernel.Base.{
  ℕ, ◌+◌, ◌^◌, ◌<◌, ◌≡◌, ◌≢◌, ◌⊎◌, inl, inr, refl, sym, ap, ◌∙◌, arith, Bool, true, false,
  Bool-cases, ◌==◌, ==_refl, here_or_else, if◌then◌else◌, ◌∷◌, Option, none, some, occurs,
}
use yu_noob_kernel.Errno.{Result, ok, err}
use yu_noob_kernel.HashTable.{HashTable, hashtable_lookup, hashtable_insert}
use yu_noob_kernel.HashTable.Laws.{InsertOk, hashtable_insert_lem}
use yu_noob_kernel.Icache.{
  Inode, InodeState, SuperOps, Allocated, null, failed, given, Outcome, crash, refused, found,
  set_inode, add_ref, fresh_inode, allocated, inode_alloc, inode_hash, inode_get, finish_get,
}
use yu_noob_kernel.Icache.Inv.{IsConsistent, set_inode-IsConsistent}

-- Where an inode that was found came from, and how many references it has.
abbrev pub Source : InodeState → ℕ → InodeState → Option ℕ → Type 0
Source st p st' (some q) = (q ≡ p) × (st'.inodes p ≡ add_ref (st.inodes p))
Source st p st' none = ((st'.inodes p).i_refcnt ≡ 1) × ((st'.inodes p).i_lock ≡ false)

-- What `inode_get` leaves with an inode: it has the number that was asked for, and one reference more
-- than before or its first one, and then its lock is free; the table maps the number to it, unless memory for a node was needed
-- and missing; no other inode and no other number has changed.
pub record Gotten (st : InodeState) (ino : ℕ) (node_mem : Bool) (p : ℕ) (st' : InodeState)
    : Type 0 where
  pub consistent : IsConsistent st'
  pub number : (st'.inodes p).i_ino ≡ ino
  pub mapped :
      ((j : ℕ)
        → hashtable_lookup st'.ht j ≡ (if ino == j then some p else hashtable_lookup st.ht j))
      ⊎ ((node_mem ≡ false) × (st'.ht ≡ st.ht) × (hashtable_lookup st.ht ino ≡ none))
  pub others : (q : ℕ) → (p == q) ≡ false → st'.inodes q ≡ st.inodes q
  pub source : Source st p st' (hashtable_lookup st.ht ino)

abbrev pub GetOk : InodeState → ℕ → SuperOps → Option ℕ → Bool → InodeState × Outcome → Type 0
GetOk st ino ops mem node_mem (st', found p) = Gotten st ino node_mem p st'
GetOk st ino ops mem node_mem (st', refused e) =
    (st' ≡ st) × (hashtable_lookup st.ht ino ≡ none) × (allocated ops mem ≡ failed e)
GetOk st ino ops mem node_mem (st', crash) =
    (st' ≡ st) × (hashtable_lookup st.ht ino ≡ none) × (allocated ops mem ≡ null)

-- An inode that was in the table.
get_cached :
    (st : InodeState) (ino : ℕ) (node_mem : Bool) (p : ℕ)
    → IsConsistent st
    → hashtable_lookup st.ht ino ≡ some p
    → Gotten st ino node_mem p (set_inode st p (add_ref (st.inodes p)))
get_cached st ino node_mem p i e = record {
  consistent = set_inode-IsConsistent st p (add_ref (st.inodes p)) refl i;
  number = rw (==_refl p) (i.named ino p e);
  mapped = inl (here_or_else ino (rw (==_refl ino) e) (λ j s. rw s refl));
  others = λ q s. rw s refl;
  source = rw (e, ==_refl p) (refl, refl);
}

new_entry :
    (st : InodeState) (sb : Option ℕ) (ino p : ℕ)
    → IsConsistent st
    → ((j : ℕ) → hashtable_lookup st.ht j ≢ some p)
    → (j q : ℕ) → (if ino == j then some p else hashtable_lookup st.ht j) ≡ some q
    → ((ino == j) ≡ true) ⊎ ((ino == j) ≡ false)
    → ((set_inode st p (record (fresh_inode sb) { i_ino = ino })).inodes q).i_ino ≡ j
new_entry st sb ino p i f j q h (inl e) =
    let same : p ≡ q = ground (arith, rw e at h) in
    let number : ino ≡ j = ground arith in rw (same, ==_refl q) number
new_entry st sb ino p i f j q h (inr e) =
    let old : hashtable_lookup st.ht j ≡ some q = rw e at h in
    elim (Bool-cases (p == q)) [
      | inl s ↦ let same : p ≡ q = ground arith in absurd (f j (rw same old))
      | inr s ↦ rw s (i.named j q old)
    ]

new_listed :
    (st : InodeState) (ino p : ℕ)
    → IsConsistent st
    → (j q : ℕ) → (if ino == j then some p else hashtable_lookup st.ht j) ≡ some q
    → ((ino == j) ≡ true) ⊎ ((ino == j) ≡ false)
    → 0 < occurs q (p ∷ st.inode_list)
unfolding occurs
new_listed st ino p i j q h (inl e) =
    let same : p ≡ q = ground (arith, rw e at h) in rw (same, ==_refl q) (omega arith)
new_listed st ino p i j q h (inr e) = omega (arith, i.listed j q (rw e at h))

-- The table behind `hashtable_insert`, with a new inode in it or not.
hashed :
    (st : InodeState) (sb : Option ℕ) (ino p : ℕ) (node_mem : Bool)
    → IsConsistent st
    → hashtable_lookup st.ht ino ≡ none
    → ((j : ℕ) → hashtable_lookup st.ht j ≢ some p)
    → (r : HashTable ℕ × Result (Unit {0})) → hashtable_insert st.ht ino p node_mem ≡ r
    → InsertOk st.ht ino p node_mem r
    → Gotten st ino node_mem p
        (inode_hash (set_inode st p (record (fresh_inode sb) { i_ino = ino })) ino p node_mem)
unfolding inode_hash occurs
hashed st sb ino p node_mem i e f (ht', ok u) g (d, c) = rw g (record {
  consistent = record {
    table = d.valid;
    named = λ j q h. new_entry st sb ino p i f j q (sym (d.maps j) ∙ h) (Bool-cases (ino == j));
    listed = λ j q h. new_listed st ino p i j q (sym (d.maps j) ∙ h) (Bool-cases (ino == j));
  };
  number = rw (==_refl p) refl;
  mapped = inl d.maps;
  others = λ q s. rw s refl;
  source = rw (e, ==_refl p) (refl, refl);
})
hashed st sb ino p node_mem i e f (ht', err x) g (same, _, m, n) =
    rw (g, same)
      (record {
        consistent = record {
          table = i.table;
          named = λ j. here_or_else p (λ h. absurd (f j h)) (λ q s h. rw s (i.named j q h));
          listed = λ j q h. omega (arith, i.listed j q h);
        };
        number = rw (==_refl p) refl;
        mapped = inr (m, refl, n);
        others = λ q s. rw s refl;
        source = rw (e, ==_refl p) (refl, refl);
      })

set_twice :
    (st : InodeState) (p : ℕ) (x y : Inode) → set_inode (set_inode st p x) p y ≡ set_inode st p y
set_twice st p x y = λ i. record st { inodes = λ q. at_each q i }
  where
    at_each :
        (q : ℕ)
        → (if p == q then y else if p == q then x else st.inodes q)
          ≡ (if p == q then y else st.inodes q)
    at_each q = elim (Bool-cases (p == q)) [ inl e ↦ rw e refl | inr e ↦ rw e refl ]

alloc_as :
    (st : InodeState) (sb : Option ℕ) (ops : SuperOps) (mem : Option ℕ) (a : Allocated)
    → allocated ops mem ≡ a
    → inode_alloc st sb ops mem ≡ elim a [
      | null ↦ (st, null)
      | failed e ↦ (st, failed e)
      | given p ↦ (set_inode st p (fresh_inode sb), given p)
    ]
unfolding inode_alloc
alloc_as st sb ops mem a k = rw (k, inode_alloc) refl

get_new :
    (st : InodeState) (sb : Option ℕ) (ino : ℕ) (ops : SuperOps) (mem : Option ℕ) (node_mem : Bool)
    → hashtable_lookup st.ht ino ≡ none
    → (p : ℕ) → allocated ops mem ≡ given p
    → inode_get st sb ino ops mem node_mem ≡ (
      inode_hash (set_inode st p (record (fresh_inode sb) { i_ino = ino })) ino p node_mem,
      found p,
    )
unfolding inode_get finish_get
get_new st sb ino ops mem node_mem e p k =
    rw (e, inode_get, alloc_as st sb ops mem (given p) k, ==_refl p)
      (ap (λ s. (inode_hash s ino p node_mem, found p))
        (set_twice st p (fresh_inode sb) (record (fresh_inode sb) { i_ino = ino })))

got :
    (st : InodeState) (sb : Option ℕ) (ino : ℕ) (ops : SuperOps) (mem : Option ℕ) (node_mem : Bool)
    → IsConsistent st
    → st.ht.count + 2 < 2 ^ 64
    → ((p : ℕ) → allocated ops mem ≡ given p → (j : ℕ) → hashtable_lookup st.ht j ≢ some p)
    → (o : Option ℕ) → hashtable_lookup st.ht ino ≡ o
    → (a : Allocated) → allocated ops mem ≡ a
    → GetOk st ino ops mem node_mem (inode_get st sb ino ops mem node_mem)
unfolding inode_get finish_get
got st sb ino ops mem node_mem i c f (some p) e a k =
    rw (e, inode_get) (get_cached st ino node_mem p i e)
got st sb ino ops mem node_mem i c f none e null k =
    rw (e, inode_get, alloc_as st sb ops mem null k) (refl, e, k)
got st sb ino ops mem node_mem i c f none e (failed x) k =
    rw (e, inode_get, alloc_as st sb ops mem (failed x) k) (refl, e, k)
got st sb ino ops mem node_mem i c f none e (given p) k =
    rw (get_new st sb ino ops mem node_mem e p k) (
      hashed st sb ino p node_mem i e (f p k) (hashtable_insert st.ht ino p node_mem) refl
        (hashtable_insert_lem st.ht ino p node_mem i.table c))

-- `inode_get` on a consistent state, where an allocation gives memory that is not in the table: it
-- finds the inode of the table, with one reference more, or makes one with its first reference, and
-- leaves a consistent state in which the table maps the number to it, unless memory for a node is
-- missing; if the allocation gives an error nothing changes, and if it gives NULL the number is
-- stored through NULL.
pub inode_get-GetOk :
    (st : InodeState) (sb : Option ℕ) (ino : ℕ) (ops : SuperOps) (mem : Option ℕ) (node_mem : Bool)
    → IsConsistent st
    → st.ht.count + 2 < 2 ^ 64
    → ((p : ℕ) → allocated ops mem ≡ given p → (j : ℕ) → hashtable_lookup st.ht j ≢ some p)
    → GetOk st ino ops mem node_mem (inode_get st sb ino ops mem node_mem)
inode_get-GetOk st sb ino ops mem node_mem i c f =
    got st sb ino ops mem node_mem i c f (hashtable_lookup st.ht ino) refl (allocated ops mem) refl
