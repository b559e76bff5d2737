-- ===== src/Bcache/Order.antt =====
-- Which buffer `bcache_evict` takes after a `brelse`.
use yu_noob_kernel.Base.{
  ℕ, ◌+◌, ◌-◌, ◌%◌, ◌^◌, ◌≡◌, refl, arith, false, ==_refl, List, [], ◌∷◌, ◌++◌, list_del,
}
use yu_noob_kernel.Bcache.{Bcache, clean, victim_of, brelse}

module _ {D : Type 0} where
  -- The last buffer of the list is taken if it may be.
  victim_of-append :
      (c : Bcache D) (b : ℕ) (bs : List ℕ)
      → (c.bufs b).refcnt ≡ 0
      → (c.bufs b).dirty ≡ false
      → victim_of c (bs ++ b ∷ []) ≡ clean b
  unfolding victim_of
  victim_of-append c b [] z h = rw (z, h) refl
  victim_of-append c b (x ∷ bs) z h = rw (victim_of-append c b bs z h) refl

  -- The buffer whose last reference `brelse` has given up is, when it is clean, the one that
  -- `bcache_evict` takes next, whatever else the list holds.
  pub brelse-victim :
      (c : Bcache D) (b : ℕ)
      → (c.bufs b).refcnt ≡ 1
      → (c.bufs b).dirty ≡ false
      → victim_of (brelse c b) (brelse c b).lru_list ≡ clean b
  unfolding brelse
  brelse-victim c b h k =
      let z : ((c.bufs b).refcnt + 2 ^ 32 - 1) % 2 ^ 32 ≡ 0 = omega arith in
      rw z (victim_of-append _ b (list_del b c.lru_list) (rw (==_refl b) refl) (rw (==_refl b) k))
