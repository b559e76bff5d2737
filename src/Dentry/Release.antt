-- ===== src/Dentry/Release.antt =====
-- The last `dentry_put` of a dentry: `dentry_free` takes it out of the table and of every list, and
-- gives up its inode.
use yu_noob_kernel.Base.{
  ℕ, ◌+◌, ◌-◌, ◌%◌, ◌^◌, ◌≡◌, ◌∙◌, refl, ap, arith, Bool, true, false, Bool-cases, inl, inr, not,
  ◌==◌, ==_refl, ◌||◌, ◌&&◌, if◌then◌else◌, none, some, occurs, occurs-list_del,
}
use yu_noob_kernel.HashTable.{hashtable_lookup}
use yu_noob_kernel.HashTable.Map.{IsValid}
use yu_noob_kernel.HashTable.Laws.{hashtable_delete_lem}
use yu_noob_kernel.Icache.{SuperOps}
use yu_noob_kernel.Icache.Inv.{IsConsistent}
use yu_noob_kernel.Icache.Put.{Dropped, leaves, inode_put-Dropped}
use yu_noob_kernel.Dentry.{
  Dentry, DentryState, key_of, unhash, leave_parent, put_inode, dentry_free,
}

abbrev is_hashed : DentryState → ℕ → Bool
is_hashed st d = not (st.dentries d).unhashed

abbrev parent_of : DentryState → ℕ → ℕ
parent_of st d = (st.dentries d).d_parent

-- A dentry without a parent, or that is its own.
abbrev pub is_root : DentryState → ℕ → Bool
is_root st d = (st.dentries d).d_parent == 0 || (st.dentries d).d_parent == d

-- What `unhash` leaves.
record Unhashed (st : DentryState) (d : ℕ) (st' : DentryState) : Type 0 where
  off_lru : (e : ℕ) → occurs e st'.dentry_lru ≡ (if d == e then 0 else occurs e st.dentry_lru)
  off_list :
      (e : ℕ)
      → occurs e st'.dentry_list ≡ (if d == e && is_hashed st d then 0 else occurs e st.dentry_list)
  off_table :
      (k : ℕ)
      → hashtable_lookup st'.ht k
        ≡ (if is_hashed st d && key_of st d == k then none else hashtable_lookup st.ht k)
  counted : st'.count ≡ (if is_hashed st d then (st.count + 2 ^ 32 - 1) % 2 ^ 32 else st.count)
  marked : st'.dentries d ≡ record (st.dentries d) { unhashed = true }
  others : (e : ℕ) → (d == e) ≡ false → st'.dentries e ≡ st.dentries e
  inodes : st'.inodes ≡ st.inodes

marked_already : (x : Dentry) → x.unhashed ≡ true → x ≡ record x { unhashed = true }
marked_already x h = ap (λ b. record x { unhashed = b }) h

unhash-Unhashed : (st : DentryState) (d : ℕ) → IsValid st.ht → Unhashed st d (unhash st d)
unfolding unhash
unhash-Unhashed st d v = elim (Bool-cases (st.dentries d).unhashed) [
  | inl e ↦ rw e record {
    off_lru = λ x. occurs-list_del x d st.dentry_lru;
    off_list = λ x. ground arith;
    off_table = λ k. rw e refl;
    counted = rw e refl;
    marked = marked_already (st.dentries d) e;
    others = λ x s. refl;
    inodes = refl;
  }
  | inr e ↦
      let gone = hashtable_delete_lem st.ht (key_of st d) v in
      rw e record {
        off_lru = λ x. occurs-list_del x d st.dentry_lru;
        off_list = λ x. ground (arith, occurs-list_del x d st.dentry_list);
        off_table = λ k. rw e (gone.maps k);
        counted = rw e refl;
        marked = rw (==_refl d) refl;
        others = λ x s. rw s refl;
        inodes = refl;
      }
]

-- What taking a dentry out of its parent's list does to the dentries.
record Orphaned (st : DentryState) (d : ℕ) (st' : DentryState) : Type 0 where
  off_parent :
      is_root st d ≡ false
      → (e : ℕ)
      → occurs e (st'.dentries (parent_of st d)).d_children
        ≡ (if d == e then 0 else occurs e (st.dentries (parent_of st d)).d_children)
  parent_else :
      is_root st d ≡ false
      → st'.dentries (parent_of st d) ≡ record (st.dentries (parent_of st d)) {
        d_children = (st'.dentries (parent_of st d)).d_children;
      }
  others :
      (e : ℕ) → (is_root st d || not (parent_of st d == e)) ≡ true → st'.dentries e ≡ st.dentries e

leave_parent-Orphaned : (st : DentryState) (d : ℕ) → Orphaned st d (leave_parent st d)
unfolding leave_parent
leave_parent-Orphaned st d = elim (Bool-cases (is_root st d)) [
  | inl e ↦ rw e record {
    off_parent = λ n. absurd (cc n);
    parent_else = λ n. absurd (cc n);
    others = λ x s. refl;
  }
  | inr e ↦ rw e record {
    off_parent = λ n x.
        rw (==_refl (parent_of st d))
          (occurs-list_del x d (st.dentries (parent_of st d)).d_children);
    parent_else = λ n. rw (==_refl (parent_of st d)) refl;
    others = λ x s. let other : (parent_of st d == x) ≡ false = ground (arith, s) in rw other refl;
  }
]

leave_parent-rest :
    (st : DentryState) (d : ℕ)
    → (leave_parent st d) ≡ record st { dentries = (leave_parent st d).dentries }
unfolding leave_parent
leave_parent-rest st d = elim (Bool-cases (is_root st d)) [ inl e ↦ rw e refl | inr e ↦ rw e refl ]

-- What `dentry_free` of `d` leaves: `d` is out of the LRU list and, if it was in the table, out of the
-- list of dentries, and its key has no dentry in the table any more and `count` is one less; `d` is
-- out of its parent's children; nothing else of these has changed, nor another dentry.
pub record Freed (st : DentryState) (d : ℕ) (ops : SuperOps) (st' : DentryState) : Type 0 where
  pub off_lru : (e : ℕ) → occurs e st'.dentry_lru ≡ (if d == e then 0 else occurs e st.dentry_lru)
  pub off_list :
      (e : ℕ)
      → occurs e st'.dentry_list
        ≡ (if d == e && not (st.dentries d).unhashed then 0 else occurs e st.dentry_list)
  pub off_table :
      (k : ℕ)
      → hashtable_lookup st'.ht k ≡ (
          if not (st.dentries d).unhashed && key_of st d == k
          then none
          else hashtable_lookup st.ht k)
  pub counted :
      st'.count
      ≡ (if not (st.dentries d).unhashed then (st.count + 2 ^ 32 - 1) % 2 ^ 32 else st.count)
  pub off_parent :
      is_root st d ≡ false
      → (e : ℕ)
      → occurs e (st'.dentries (st.dentries d).d_parent).d_children
        ≡ (if d == e then 0 else occurs e (st.dentries (st.dentries d).d_parent).d_children)
  pub parent_else :
      is_root st d ≡ false
      → st'.dentries (st.dentries d).d_parent ≡ record (st.dentries (st.dentries d).d_parent) {
        d_children = (st'.dentries (st.dentries d).d_parent).d_children;
      }
  pub others :
      (e : ℕ)
      → (d == e) ≡ false
      → (is_root st d || not ((st.dentries d).d_parent == e)) ≡ true
      → st'.dentries e ≡ st.dentries e
  pub dropped :
      Dropped st.inodes
        (st.dentries d).d_inode
        (leaves st.inodes (st.dentries d).d_inode ops)
        st'.inodes

freed :
    (st u v st' : DentryState) (d : ℕ) (ops : SuperOps)
    → Unhashed st d u
    → Orphaned u d v
    → v ≡ record u { dentries = v.dentries }
    → st' ≡ record v { inodes = st'.inodes }
    → Dropped st.inodes
        (st.dentries d).d_inode
        (leaves st.inodes (st.dentries d).d_inode ops)
        st'.inodes
    → Freed st d ops st'
freed st u v st' d ops h o same kept drop = record {
  off_lru = λ e. ap (λ s. occurs e s.dentry_lru) like ∙ h.off_lru e;
  off_list = λ e. ap (λ s. occurs e s.dentry_list) like ∙ h.off_list e;
  off_table = λ k. ap (λ s. hashtable_lookup s.ht k) like ∙ h.off_table k;
  counted = ap (λ s. s.count) like ∙ h.counted;
  off_parent = λ n e.
      ap (λ x. occurs e (x.dentries (parent_of st d)).d_children) kept
      ∙ rw (before n) at (rw up at (o.off_parent (rw up n) e));
  parent_else = λ n.
      let now : st'.dentries (parent_of st d) ≡ v.dentries (parent_of st d) =
        ap (λ x. x.dentries (parent_of st d)) kept in
      rw now (rw (before n) at (rw up at (o.parent_else (rw up n))));
  others = λ e n s. ap (λ x. x.dentries e) kept ∙ o.others e (rw up s) ∙ h.others e n;
  dropped = drop;
}
  where
    up : parent_of u d ≡ parent_of st d
    up = ap (λ x. x.d_parent) h.marked

    before : is_root st d ≡ false → u.dentries (parent_of st d) ≡ st.dentries (parent_of st d)
    before n =
        let apart : (d == parent_of st d) ≡ false = ground (arith, n) in
        h.others (parent_of st d) apart

    with_inodes :
        (a b : DentryState)
        → a ≡ b
        → record a { inodes = st'.inodes } ≡ record b { inodes = st'.inodes }
    with_inodes a b q =
        ap {A = DentryState} {B = DentryState} (λ s. record s { inodes = st'.inodes }) q

    like : st' ≡ record u { dentries = v.dentries; inodes = st'.inodes }
    like = kept ∙ with_inodes v _ same

-- On a well-formed table and consistent inodes, with the lock of the inode free, `dentry_free` of a
-- dentry with an inode returns. It takes the dentry out of the LRU list and out of the children of its
-- parent, if it has one other than itself; if it is not marked as unhashed it takes it out of the list
-- of dentries, leaves no dentry under its key, and lowers `count` by one, modulo 2^32; it gives up one
-- reference of the inode as `inode_put` does. Other entries of these lists and of the table stay, and
-- every other dentry is as before but for the children of the parent.
pub dentry_free-Freed :
    (st : DentryState) (d : ℕ) (ops : SuperOps)
    → IsValid st.ht
    → (d == 0) ≡ false
    → ((st.dentries d).d_inode == 0) ≡ false
    → IsConsistent st.inodes
    → (st.inodes.inodes (st.dentries d).d_inode).i_lock ≡ false
    → (st' : DentryState) × (dentry_free st d ops ≡ some st') × Freed st d ops st'
unfolding dentry_free put_inode
dentry_free-Freed st d ops valid z n i l =
    let (inodes, h, dropped) = inode_put-Dropped st.inodes (st.dentries d).d_inode ops i l in
    let u = unhash-Unhashed st d valid in
    let same : (leave_parent (unhash st d) d).inodes ≡ st.inodes =
      ap (λ s. s.inodes) (leave_parent-rest (unhash st d) d) ∙ u.inodes in
    (
      record (leave_parent (unhash st d) d) { inodes = inodes },
      rw (z, n, same, h) refl,
      freed st (unhash st d) (leave_parent (unhash st d) d) _ d ops u
          (leave_parent-Orphaned (unhash st d) d) (leave_parent-rest (unhash st d) d) refl dropped,
    )
