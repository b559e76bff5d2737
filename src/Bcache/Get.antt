-- ===== src/Bcache/Get.antt =====
-- What `bread` returns, and what it leaves.
use yu_noob_kernel.Base.{
  ℕ, ◌<◌, ◌≡◌, ◌≢◌, ◌⊎◌, inl, inr, refl, ◌∙◌, Bool, true, false, if◌then◌else◌, Bool-cases, ==_refl,
  Option, none, some, occurs,
}
use yu_noob_kernel.Bcache.{
  Bcache, Victim, clean, unclean, nobody, bcache_lookup, victim_of, evict, bcache_evict, to_front,
  claim, hit, unhash, bcache_get, fill, bread, lock_buf,
}
use yu_noob_kernel.Bcache.Inv.{IsCoherent, IsReliable, locked_at}
use yu_noob_kernel.Bcache.Evict.{Picked, victim_of-Picked, reused}
use yu_noob_kernel.Bcache.Fill.{Got, got_hit, got_miss}

module _ {D : Type 0} where
  -- Why `bread` does not return: the block is not in the cache and every buffer of the LRU list has a
  -- reference, or the buffer that holds the block, or the one to be reused for it, is locked.
  abbrev pub Stuck : Bcache D → ℕ → ℕ → Type 0
  Stuck c dev blockno =
      ((bcache_lookup c dev blockno ≡ none)
        × ((b : ℕ) → 0 < occurs b c.lru_list → (c.bufs b).refcnt ≢ 0))
      ⊎ ((b : ℕ) × ((c.bufs b).locked ≡ true)
          × ((bcache_lookup c dev blockno ≡ some b)
              ⊎ ((bcache_lookup c dev blockno ≡ none) × (victim_of c c.lru_list ≡ clean b))))

  abbrev pub Read : Bcache D → ℕ → ℕ → Option (ℕ × Bcache D) → Type 0
  Read c dev blockno (some (b, c')) = Got c dev blockno b c'
  Read c dev blockno none = Stuck c dev blockno

  -- The lock of the buffer behind a hit and behind a miss.
  hit_locked : (c : Bcache D) (b : ℕ) → ((hit c b).bufs b).locked ≡ (c.bufs b).locked
  unfolding hit to_front
  hit_locked c b = rw (==_refl b) refl

  reused_locked :
      (c : Bcache D) (b dev blockno : ℕ)
      → ((reused c b dev blockno).bufs b).locked ≡ (c.bufs b).locked
  unfolding claim to_front unhash
  reused_locked c b dev blockno = rw (==_refl b) refl

  bread-lock_buf :
      (c g : Bcache D) (dev blockno b : ℕ) (l : Bool)
      → bcache_get c dev blockno ≡ lock_buf g b
      → (g.bufs b).locked ≡ l
      → bread c dev blockno ≡ (if l then none else some (b, fill (locked_at g b) b dev blockno))
  unfolding bread lock_buf
  bread-lock_buf c g dev blockno b true e f = rw (e, bread, f) refl
  bread-lock_buf c g dev blockno b false e f = rw (e, bread, f) refl

  get-hit :
      (c : Bcache D) (dev blockno b : ℕ)
      → bcache_lookup c dev blockno ≡ some b
      → bcache_get c dev blockno ≡ lock_buf (hit c b) b
  unfolding bcache_get
  get-hit c dev blockno b e = rw (e, bcache_get) refl

  get-miss :
      (c : Bcache D) (dev blockno b : ℕ)
      → bcache_lookup c dev blockno ≡ none
      → victim_of c c.lru_list ≡ clean b
      → bcache_get c dev blockno ≡ lock_buf (reused c b dev blockno) b
  unfolding bcache_get bcache_evict evict
  get-miss c dev blockno b e f = rw (e, f, bcache_get, bcache_evict, evict) refl

  bread-full :
      (c : Bcache D) (dev blockno : ℕ)
      → bcache_lookup c dev blockno ≡ none
      → victim_of c c.lru_list ≡ nobody
      → bread c dev blockno ≡ none
  unfolding bread bcache_get bcache_evict evict
  bread-full c dev blockno e f = rw (e, f, bread, bcache_get, bcache_evict, evict) refl

  answered_miss :
      (c : Bcache D) (dev blockno : ℕ)
      → IsCoherent c
      → IsReliable c
      → bcache_lookup c dev blockno ≡ none
      → (v : Victim) → victim_of c c.lru_list ≡ v
      → Picked c c.lru_list v
      → Read c dev blockno (bread c dev blockno)
  answered_miss c dev blockno i ok e (clean b) f p = elim (Bool-cases (c.bufs b).locked) [
    | inl l ↦
        rw
          (bread-lock_buf c _ dev blockno b true (get-miss c dev blockno b e f)
            (reused_locked c b dev blockno ∙ l))
          (inr (b, l, inr (e, f)))
    | inr l ↦
        rw
          (bread-lock_buf c _ dev blockno b false (get-miss c dev blockno b e f)
            (reused_locked c b dev blockno ∙ l))
          (got_miss c dev blockno b i ok e p.0 l)
  ]
  answered_miss c dev blockno i ok e (unclean b) f p = absurd p
  answered_miss c dev blockno i ok e nobody f p = rw (bread-full c dev blockno e f) (inl (e, p))

  answered :
      (c : Bcache D) (dev blockno : ℕ)
      → IsCoherent c
      → IsReliable c
      → (o : Option ℕ) → bcache_lookup c dev blockno ≡ o
      → Read c dev blockno (bread c dev blockno)
  answered c dev blockno i ok (some b) e = elim (Bool-cases (c.bufs b).locked) [
    | inl l ↦
        rw
          (bread-lock_buf c (hit c b) dev blockno b true (get-hit c dev blockno b e)
            (hit_locked c b ∙ l))
          (inr (b, l, inl e))
    | inr l ↦
        rw
          (bread-lock_buf c (hit c b) dev blockno b false (get-hit c dev blockno b e)
            (hit_locked c b ∙ l))
          (got_hit c dev blockno b i ok e l)
  ]
  answered c dev blockno i ok none e =
      answered_miss c dev blockno i ok e (victim_of c c.lru_list) refl
        (victim_of-Picked c i.unstained c.lru_list)

  -- `bread` on a coherent cache over a device of which no transfer fails returns a valid buffer of the
  -- block that holds what the device holds, with one reference more and with its lock, which was free.
  -- The buffer held the block before or had no reference, and no other buffer has changed. It does not
  -- return only if the block is not in the cache and every buffer of the LRU list is in use, or if the
  -- buffer that holds the block, or the one that `bcache_evict` picks for it, is locked.
  pub bread-Read :
      (c : Bcache D) (dev blockno : ℕ)
      → IsCoherent c
      → IsReliable c
      → Read c dev blockno (bread c dev blockno)
  bread-Read c dev blockno i ok = answered c dev blockno i ok (bcache_lookup c dev blockno) refl
