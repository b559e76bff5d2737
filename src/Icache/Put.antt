-- ===== src/Icache/Put.antt =====
-- `inode_put`, alone and behind `inode_get`.
use yu_noob_kernel.Base.{
  ℕ, ◌+◌, ◌-◌, ◌%◌, ◌^◌, ◌≡◌, inl, inr, refl, sym, ◌∙◌, arith, Bool, true, false, Bool-cases, not,
  ◌==◌, ==_refl, if◌then◌else◌, ◌&&◌, Option, none, some, occurs-list_del,
}
use yu_noob_kernel.HashTable.{hashtable_lookup}
use yu_noob_kernel.HashTable.Laws.{hashtable_delete_lem}
use yu_noob_kernel.Icache.{InodeState, SuperOps, set_inode, inode_free, inode_put}
use yu_noob_kernel.Icache.Inv.{IsConsistent, set_inode-IsConsistent}

-- The count of references behind `inode_put`.
abbrev pub refs_left : InodeState → ℕ → ℕ
refs_left st p = ((st.inodes p).i_refcnt + 2 ^ 32 - 1) % 2 ^ 32

abbrev pub keeps : Option Bool → Bool
keeps (some b) = b
keeps none = false

-- Whether the inode leaves the table: no reference is left, `drop_inode` does not keep it, and the
-- file system has no `destroy_inode`.
abbrev pub leaves : InodeState → ℕ → SuperOps → Bool
leaves st p ops = refs_left st p == 0 && (not (keeps ops.drop_inode) && not ops.destroy_inode)

-- The state with one reference less.
abbrev pub unreferenced : InodeState → ℕ → InodeState
unreferenced st p = set_inode st p (record (st.inodes p) { i_refcnt = refs_left st p })

-- What `inode_put` leaves: one reference less, and the number out of the table when the inode leaves
-- it; no other inode and no other number has changed.
pub record Dropped (st : InodeState) (p : ℕ) (gone : Bool) (st' : InodeState) : Type 0 where
  pub consistent : IsConsistent st'
  pub references : st'.inodes p ≡ record (st.inodes p) { i_refcnt = refs_left st p }
  pub others : (q : ℕ) → (p == q) ≡ false → st'.inodes q ≡ st.inodes q
  pub mapped :
      (j : ℕ)
      → hashtable_lookup st'.ht j
        ≡ (if gone && (st.inodes p).i_ino == j then none else hashtable_lookup st.ht j)

kept_in : (st : InodeState) (p : ℕ) → IsConsistent st → Dropped st p false (unreferenced st p)
kept_in st p i = record {
  consistent = set_inode-IsConsistent st p _ refl i;
  references = rw (==_refl p) refl;
  others = λ q s. rw s refl;
  mapped = λ j. refl;
}

-- An entry that is left when the number of `p` is out of the table is not of `p`.
other_entry :
    (st : InodeState) (p : ℕ)
    → IsConsistent st
    → (j q : ℕ) → (if (st.inodes p).i_ino == j then none else hashtable_lookup st.ht j) ≡ some q
    → (hashtable_lookup st.ht j ≡ some q) × ((p == q) ≡ false)
other_entry st p i j q h = elim (Bool-cases ((st.inodes p).i_ino == j)) [
  | inl e ↦ absurd (ground (arith, rw e at h))
  | inr e ↦
      let old : hashtable_lookup st.ht j ≡ some q = rw e at h in
      (
        old,
        elim (Bool-cases (p == q)) [
          | inl s ↦
              let same : p ≡ q = ground arith in
              let number = i.named j q old in
              let own : (st.inodes p).i_ino ≡ j = rw same number in absurd (ground (arith, e, own))
          | inr s ↦ s
        ],
      )
]

taken_out :
    (st : InodeState) (p : ℕ) (ops : SuperOps)
    → IsConsistent st
    → ops.destroy_inode ≡ false
    → Dropped st p true (inode_free (unreferenced st p) p ops)
unfolding inode_free
taken_out st p ops i h =
    let d = hashtable_delete_lem st.ht (st.inodes p).i_ino i.table in
    rw (h, ==_refl p)
      (record {
        consistent = record {
          table = d.valid;
          named = λ j q e.
              let (old, other) = other_entry st p i j q (sym (d.maps j) ∙ e) in
              rw other (i.named j q old);
          listed = λ j q e.
              let (old, other) = other_entry st p i j q (sym (d.maps j) ∙ e) in
              rw (occurs-list_del q p st.inode_list, other) (i.listed j q old);
        };
        references = rw (==_refl p) refl;
        others = λ q s. rw s refl;
        mapped = d.maps;
      })

freed :
    (st : InodeState) (p : ℕ) (ops : SuperOps)
    → IsConsistent st
    → Dropped st p (not ops.destroy_inode) (inode_free (unreferenced st p) p ops)
unfolding inode_free
freed st p ops i = elim (Bool-cases ops.destroy_inode) [
  | inl e ↦ rw e (kept_in st p i)
  | inr e ↦ rw e (rw e at (taken_out st p ops i e))
]

put_by :
    (st : InodeState) (p : ℕ) (ops : SuperOps)
    → IsConsistent st
    → (drop : Option Bool) → ops.drop_inode ≡ drop
    → Dropped st p (leaves st p ops) (
        if refs_left st p == 0
        then elim ops.drop_inode [
          | some true ↦ unreferenced st p
          | some false ↦ inode_free (unreferenced st p) p ops
          | none ↦ inode_free (unreferenced st p) p ops
        ]
        else unreferenced st p)
put_by st p ops i drop e = elim (Bool-cases (refs_left st p == 0)) [
  | inr z ↦ rw z (kept_in st p i)
  | inl z ↦ rw z (last drop e)
]
  where
    last :
        (drop : Option Bool)
        → ops.drop_inode ≡ drop
        → Dropped st p (not (keeps ops.drop_inode) && not ops.destroy_inode) (elim ops.drop_inode [
          | some true ↦ unreferenced st p
          | some false ↦ inode_free (unreferenced st p) p ops
          | none ↦ inode_free (unreferenced st p) p ops
        ])
    last none e = rw e (freed st p ops i)
    last (some true) e = rw e (kept_in st p i)
    last (some false) e = rw e (freed st p ops i)

-- `inode_put` of an inode whose lock is free, on a consistent state, returns with one reference less.
-- The number of the inode leaves the table if that was the last one, `drop_inode` does not keep the
-- inode and the file system has no `destroy_inode`; if it has one, the freed inode stays in the table.
pub inode_put-Dropped :
    (st : InodeState) (p : ℕ) (ops : SuperOps)
    → IsConsistent st
    → (st.inodes p).i_lock ≡ false
    → (st' : InodeState) × (inode_put st p ops ≡ some st') × Dropped st p (leaves st p ops) st'
unfolding inode_put
inode_put-Dropped st p ops i h = (_, rw h refl, put_by st p ops i ops.drop_inode refl)
