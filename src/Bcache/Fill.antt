-- ===== src/Bcache/Fill.antt =====
-- The buffer that `bread` got, filled from the device.
use yu_noob_kernel.Base.{
  ℕ, ◌+◌, ◌%◌, ◌^◌, ◌<◌, ◌≡◌, ◌⊎◌, inl, inr, refl, ap, ◌∙◌, arith, true, false, Bool-cases, ◌==◌,
  ==_refl, none, some, occurs,
}
use yu_noob_kernel.Bcache.{
  Bcache, bcache_hash, bcache_lookup, to_front, claim, hit, unhash, fill, transferred,
}
use yu_noob_kernel.Bcache.Inv.{
  IsCoherent, IsReliable, hit-IsCoherent, fill-IsCoherent, locked_at, locked_at-IsCoherent,
}
use yu_noob_kernel.Bcache.Evict.{lookup_in-some, reused, reused-Reused, miss-IsCoherent}

module _ {D : Type 0} where
  -- A buffer that stands in its bucket for a block.
  record Has (c : Bcache D) (b dev blockno : ℕ) : Type 0 where
    dev_is : (c.bufs b).dev ≡ dev
    blockno_is : (c.bufs b).blockno ≡ blockno
    in_bucket : 0 < occurs b (c.hash_table (bcache_hash dev blockno))

  -- What `bread` leaves: a valid buffer of the block with what the device holds, one reference more,
  -- and its lock, which was free; it held the block before or had no reference; no other buffer and
  -- no block of the device has changed.
  pub record Got (c : Bcache D) (dev blockno b : ℕ) (c' : Bcache D) : Type 0 where
    pub coherent : IsCoherent c'
    pub same_disk : c'.disk ≡ c.disk
    pub dev_is : (c'.bufs b).dev ≡ dev
    pub blockno_is : (c'.bufs b).blockno ≡ blockno
    pub is_valid : (c'.bufs b).valid ≡ true
    pub contents : (c'.bufs b).contents ≡ c.disk dev blockno
    pub referenced : (c'.bufs b).refcnt ≡ ((c.bufs b).refcnt + 1) % 2 ^ 32
    pub was_free :
        (((c.bufs b).dev ≡ dev) × ((c.bufs b).blockno ≡ blockno)) ⊎ ((c.bufs b).refcnt ≡ 0)
    pub others : (a : ℕ) → (b == a) ≡ false → c'.bufs a ≡ c.bufs a
    pub was_unlocked : (c.bufs b).locked ≡ false
    pub is_locked : (c'.bufs b).locked ≡ true
    pub same_faults : c'.faults ≡ c.faults
    pub in_lru : 0 < occurs b c'.lru_list

  fill_self :
      (c : Bcache D) (b dev blockno : ℕ)
      → IsCoherent c
      → IsReliable c
      → Has c b dev blockno
      → ((fill c b dev blockno).bufs b).contents ≡ c.disk dev blockno
  unfolding fill transferred
  fill_self c b dev blockno i ok h = elim (Bool-cases (c.bufs b).valid) [
    | inl e ↦ rw e (
        i.current b e
        ∙ ap (λ d. c.disk d (c.bufs b).blockno) h.dev_is
        ∙ ap (c.disk dev) h.blockno_is)
    | inr e ↦ rw (e, ==_refl b, ok c.transfers) refl
  ]

  -- A buffer that was got, filled.
  filled :
      (c g : Bcache D) (dev blockno b : ℕ)
      → IsCoherent g
      → IsReliable c
      → g.disk ≡ c.disk
      → g.faults ≡ c.faults
      → (c.bufs b).locked ≡ false
      → (g.bufs b).locked ≡ true
      → Has g b dev blockno
      → (g.bufs b).refcnt ≡ ((c.bufs b).refcnt + 1) % 2 ^ 32
      → (((c.bufs b).dev ≡ dev) × ((c.bufs b).blockno ≡ blockno)) ⊎ ((c.bufs b).refcnt ≡ 0)
      → ((a : ℕ) → (b == a) ≡ false → g.bufs a ≡ c.bufs a)
      → 0 < occurs b g.lru_list
      → Got c dev blockno b (fill g b dev blockno)
  filled c g dev blockno b i ok same faults free taken h r w o l = record {
    coherent =
        fill-IsCoherent g b dev blockno i (rw faults ok) (rw (h.dev_is, h.blockno_is) h.in_bucket)
          h.dev_is h.blockno_is;
    same_disk = disk_kept ∙ same;
    dev_is = dev_kept ∙ h.dev_is;
    blockno_is = blockno_kept ∙ h.blockno_is;
    is_valid = made_valid;
    contents = fill_self g b dev blockno i (rw faults ok) h ∙ ap (λ d. d dev blockno) same;
    referenced = refs_kept ∙ r;
    was_free = w;
    others = λ a s. rest_kept a s ∙ o a s;
    was_unlocked = free;
    is_locked = lock_kept ∙ taken;
    same_faults = faults_kept ∙ faults;
    in_lru = rw lru_kept l;
  }
    where
      f : Bcache D
      f = fill g b dev blockno

      disk_kept : f.disk ≡ g.disk
      disk_kept =
          unfold fill in
          elim (Bool-cases (g.bufs b).valid) [ inl e ↦ rw e refl | inr e ↦ rw e refl ]

      dev_kept : (f.bufs b).dev ≡ (g.bufs b).dev
      dev_kept = unfold fill in ground arith

      blockno_kept : (f.bufs b).blockno ≡ (g.bufs b).blockno
      blockno_kept = unfold fill in ground arith

      lock_kept : (f.bufs b).locked ≡ (g.bufs b).locked
      lock_kept = unfold fill in ground arith

      faults_kept : f.faults ≡ g.faults
      faults_kept =
          unfold fill in
          elim (Bool-cases (g.bufs b).valid) [ inl e ↦ rw e refl | inr e ↦ rw e refl ]

      refs_kept : (f.bufs b).refcnt ≡ (g.bufs b).refcnt
      refs_kept = unfold fill in ground arith

      made_valid : (f.bufs b).valid ≡ true
      made_valid =
          unfold fill in
          elim (Bool-cases (g.bufs b).valid) [ inl e ↦ rw e e | inr e ↦ rw (e, ==_refl b) refl ]

      rest_kept : (a : ℕ) → (b == a) ≡ false → f.bufs a ≡ g.bufs a
      rest_kept a s =
          unfold fill in
          elim (Bool-cases (g.bufs b).valid) [ inl e ↦ rw e refl | inr e ↦ rw (e, s) refl ]

      lru_kept : f.lru_list ≡ g.lru_list
      lru_kept =
          unfold fill in
          elim (Bool-cases (g.bufs b).valid) [ inl e ↦ rw e refl | inr e ↦ rw e refl ]

  -- A block that is in the cache.
  pub got_hit :
      (c : Bcache D) (dev blockno b : ℕ)
      → IsCoherent c
      → IsReliable c
      → bcache_lookup c dev blockno ≡ some b
      → (c.bufs b).locked ≡ false
      → Got c dev blockno b (fill (locked_at (hit c b) b) b dev blockno)
  unfolding bcache_lookup
  got_hit c dev blockno b i ok e free =
      let (o, p, q) = lookup_in-some c dev blockno (c.hash_table (bcache_hash dev blockno)) b e in
      filled c (locked_at (hit c b) b) dev blockno b
        (locked_at-IsCoherent (hit c b) b (hit-IsCoherent c b i)) ok (unfold hit to_front in refl)
        (unfold hit to_front in refl) free (rw (==_refl b) refl)
        (record {
          dev_is = unfold hit to_front in rw (==_refl b) p;
          blockno_is = unfold hit to_front in rw (==_refl b) q;
          in_bucket = unfold hit to_front in o;
        })
        (unfold hit to_front in rw (==_refl b) refl) (inl (p, q))
        (λ a s. unfold hit to_front in rw s refl)
        (unfold hit to_front occurs in rw (==_refl b) (omega arith))

  -- A block that is not, with the buffer that was picked for it.
  pub got_miss :
      (c : Bcache D) (dev blockno b : ℕ)
      → IsCoherent c
      → IsReliable c
      → bcache_lookup c dev blockno ≡ none
      → (c.bufs b).refcnt ≡ 0
      → (c.bufs b).locked ≡ false
      → Got c dev blockno b (fill (locked_at (reused c b dev blockno) b) b dev blockno)
  got_miss c dev blockno b i ok e z free =
      let u = reused-Reused c b dev blockno in
      filled c (locked_at (reused c b dev blockno) b) dev blockno b
        (locked_at-IsCoherent (reused c b dev blockno) b (miss-IsCoherent c b dev blockno i e)) ok
        u.same_disk (unfold claim to_front unhash in refl) free (rw (==_refl b) refl)
        (record {
          dev_is = rw (==_refl b) u.new_dev;
          blockno_is = rw (==_refl b) u.new_blockno;
          in_bucket = ground (
            arith,
            u.table b (bcache_hash dev blockno),
            ==_refl b,
            ==_refl (bcache_hash dev blockno),
          );
        })
        (unfold claim to_front in rw (==_refl b, z) refl) (inr z) (λ a s. rw s (u.other a s))
        (unfold claim to_front occurs in rw (==_refl b) (omega arith))
