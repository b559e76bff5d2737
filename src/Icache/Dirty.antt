-- ===== src/Icache/Dirty.antt =====
-- `inode_dirty`, `inode_write` and `inode_truncate`: which inodes count as changed.
use Prim.Native.Nat.{bit_and, bit_or}
use yu_noob_kernel.Base.{
  ℕ, zero, suc, ◌-◌, ◌^◌, ◌<◌, ◌≡◌, inl, inr, refl, sym, ap, ◌∙◌, arith, Bool, true, false,
  Bool-cases, ==_refl, if◌then◌else◌, Option, none, some,
}
use yu_noob_kernel.Errno.{Result, ok, err}
use yu_noob_kernel.Icache.{
  Inode, InodeState, SuperOps, Allocated, null, failed, given, set_inode, fresh_inode, allocated,
  inode_alloc, is_dirty, finish_write, i_dirty, inode_dirty, inode_write, inode_truncate,
}

-- The flags of `i_state` stand in its two low bits.
by_flags : (P : ℕ → Type 0) → P 0 → P 1 → P 2 → P 3 → (s : ℕ) → s < 4 → P s
by_flags P a b c d zero h = a
by_flags P a b c d (suc zero) h = b
by_flags P a b c d (suc (suc zero)) h = c
by_flags P a b c d (suc (suc (suc zero))) h = d
by_flags P a b c d (suc (suc (suc (suc s)))) h = absurd (omega arith)

dirty_set : (s : ℕ) → s < 4 → bit_or s i_dirty ≡ 3
dirty_set = by_flags (λ s. bit_or s i_dirty ≡ 3) refl refl refl refl

dirty_cleared : (s : ℕ) → s < 4 → bit_and s (2 ^ 32 - 1 - i_dirty) ≡ 0
dirty_cleared = by_flags (λ s. bit_and s (2 ^ 32 - 1 - i_dirty) ≡ 0) refl refl refl refl

abbrev pub is_err : Result (Unit {0}) → Bool
is_err (ok u) = false
is_err (err e) = true

unlocked : {A : Type 0} (b : Bool) (a : Option A) → b ≡ false → (if b then none else a) ≡ a
unlocked b a h = rw h refl

written :
    (st : InodeState) (p : ℕ) (ops : SuperOps) (f : Inode → Inode × Result (Unit {0}))
    → (st.inodes p).i_lock ≡ false
    → is_dirty (st.inodes p) ≡ true
    → ops.write_inode ≡ some f
    → inode_write st p ops ≡ some (finish_write st p (f (st.inodes p)))
unfolding inode_write
written st p ops f l d w = unlocked (st.inodes p).i_lock _ l ∙ rw (d, w) refl

answered : (st : InodeState) (p : ℕ) (r : Inode × Result (Unit {0})) → (finish_write st p r).1 ≡ r.1
unfolding finish_write
answered st p (x, ok u) = refl
answered st p (x, err e) = refl

given_inj : (q p : ℕ) → given q ≡ given p → q ≡ p
given_inj q p h = cc h

made :
    (st st1 : InodeState) (sb : Option ℕ) (ops : SuperOps) (mem : Option ℕ) (p : ℕ) (a : Allocated)
    → allocated ops mem ≡ a
    → inode_alloc st sb ops mem ≡ (st1, given p)
    → st1.inodes p ≡ fresh_inode sb
unfolding inode_alloc
made st st1 sb ops mem p null k h = absurd (cc (rw (k, inode_alloc) at h))
made st st1 sb ops mem p (failed e) k h = absurd (cc (rw (k, inode_alloc) at h))
made st st1 sb ops mem p (given q) k h =
    let made_at : (set_inode st q (fresh_inode sb), given q) ≡ (st1, given p) =
      rw (k, inode_alloc) at h in
    let got : given q ≡ given p = ap (λ r. r.1) made_at in
    let same : q ≡ p = given_inj q p got in
    ap (λ r. r.0.inodes p) (sym made_at) ∙ rw (same, ==_refl p) refl

finished :
    (st : InodeState) (p : ℕ) (r : Inode × Result (Unit {0}))
    → (r.0).i_state ≡ 3
    → is_dirty ((finish_write st p r).0.inodes p) ≡ is_err r.1
unfolding finish_write
finished st p (x, ok u) h = rw (==_refl p, h) refl
finished st p (x, err e) h = rw (==_refl p, h) refl

-- After `inode_dirty` the inode counts as changed; `inode_write` then answers what the file system
-- answers, and the inode counts as changed afterwards exactly if that was an error. The lock is free,
-- `i_state` has its two flags only, the file system has no `dirty_inode`, and its `write_inode`
-- leaves `i_state` alone.
pub inode_dirty-write :
    (st : InodeState) (p : ℕ) (ops : SuperOps) (f : Inode → Inode × Result (Unit {0}))
    → (st.inodes p).i_lock ≡ false
    → (st.inodes p).i_state < 4
    → ops.dirty_inode ≡ none
    → ops.write_inode ≡ some f
    → ((x : Inode) → (f x).0.i_state ≡ x.i_state)
    → (st1 st2 : InodeState) × (inode_dirty st p ops ≡ some st1)
      × (is_dirty (st1.inodes p) ≡ true)
      × (inode_write st1 p ops ≡ some (st2, (f (st1.inodes p)).1))
      × (is_dirty (st2.inodes p) ≡ is_err (f (st1.inodes p)).1)
unfolding inode_dirty
inode_dirty-write st p ops f l s d w k =
    let x : Inode = record (st.inodes p) { i_state = bit_or (st.inodes p).i_state i_dirty } in
    let st1 : InodeState = set_inode st p x in
    let at_p : st1.inodes p ≡ x = rw (==_refl p) refl in
    let three : x.i_state ≡ 3 = dirty_set (st.inodes p).i_state s in
    let dirty : is_dirty (st1.inodes p) ≡ true = rw (at_p, three) refl in
    let answer = answered st1 p (f (st1.inodes p)) in
    let after = finished st1 p (f (st1.inodes p)) (k (st1.inodes p) ∙ rw at_p three) in
    (
      st1,
      (finish_write st1 p (f (st1.inodes p))).0,
      unlocked (st.inodes p).i_lock _ l ∙ rw d refl,
      dirty,
      written st1 p ops f (rw at_p l) dirty w
          ∙ ap (λ r. some ((finish_write st1 p (f (st1.inodes p))).0, r)) answer,
      after,
    )

-- An inode that `inode_alloc` has just made counts as changed: `inode_write` writes it.
pub inode_alloc-write :
    (st st1 : InodeState) (sb : Option ℕ) (ops : SuperOps) (mem : Option ℕ) (p : ℕ)
    (f : Inode → Inode × Result (Unit {0}))
    → inode_alloc st sb ops mem ≡ (st1, given p)
    → ops.write_inode ≡ some f
    → (st2 : InodeState) × (inode_write st1 p ops ≡ some (st2, (f (fresh_inode sb)).1))
inode_alloc-write st st1 sb ops mem p f h w =
    let k : st1.inodes p ≡ fresh_inode sb = made st st1 sb ops mem p (allocated ops mem) refl h in
    let answer = answered st1 p (f (fresh_inode sb)) in
    (
      (finish_write st1 p (f (fresh_inode sb))).0,
      written st1 p ops f (rw k refl) (rw k refl) w
          ∙ rw k (ap (λ r. some ((finish_write st1 p (f (fresh_inode sb))).0, r)) answer),
    )

-- `inode_truncate` never returns: it waits for the lock that it holds.
pub inode_truncate-stuck :
    (st : InodeState) (p : ℕ) (ops : SuperOps) → inode_truncate st p ops ≡ none
unfolding inode_truncate inode_dirty
inode_truncate-stuck st p ops = elim (Bool-cases (st.inodes p).i_lock) [
  | inl e ↦ rw e refl
  | inr e ↦ rw (e, ==_refl p) refl
]
