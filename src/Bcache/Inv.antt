-- ===== src/Bcache/Inv.antt =====
-- The invariant of the cache, and the steps that change one buffer.
use yu_noob_kernel.Base.{
  ℕ, ◌+◌, ◌-◌, ◌%◌, ◌^◌, ◌<◌, ◌≡◌, inl, inr, refl, arith, true, false, Bool-cases, ◌==◌, ==_refl,
  here_or_else, ◌&&◌, Option, none, occurs,
}
use yu_noob_kernel.Bcache.{
  Bcache, write_disk, transferred, bcache_hash, bcache_init, fill, bwrite, modify, brelse, hit,
  to_front, set_buf,
}

module _ {D : Type 0} where
  -- The bucket in which a buffer belongs.
  abbrev pub home_of : Bcache D → ℕ → ℕ
  home_of c b = bcache_hash (c.bufs b).dev (c.bufs b).blockno

  abbrev pub SameBlock : Bcache D → ℕ → ℕ → Type 0
  SameBlock c a b = ((c.bufs a).dev ≡ (c.bufs b).dev) × ((c.bufs a).blockno ≡ (c.bufs b).blockno)

  -- A valid buffer is in the bucket of its block, and holds what the device holds; a bucket has the
  -- buffers of its blocks only, and no two of one block; no buffer is dirty.
  pub record IsCoherent (c : Bcache D) : Type 0 where
    pub placed : (b : ℕ) → (c.bufs b).valid ≡ true → 0 < occurs b (c.hash_table (home_of c b))
    pub homed : (b h : ℕ) → 0 < occurs b (c.hash_table h) → home_of c b ≡ h
    pub unique :
        (a b h : ℕ)
        → 0 < occurs a (c.hash_table h)
        → 0 < occurs b (c.hash_table h)
        → SameBlock c a b
        → a ≡ b
    pub current :
        (b : ℕ)
        → (c.bufs b).valid ≡ true
        → (c.bufs b).contents ≡ c.disk (c.bufs b).dev (c.bufs b).blockno
    pub unstained : (b : ℕ) → (c.bufs b).dirty ≡ false

  -- No transfer fails.
  abbrev pub IsReliable : Bcache D → Type 0
  IsReliable c = (n : ℕ) → c.faults n ≡ none

  -- Two caches that differ in reference counts, in locks and in the LRU list only.
  pub record Alike (c c' : Bcache D) : Type 0 where
    pub contents : (b : ℕ) → (c'.bufs b).contents ≡ (c.bufs b).contents
    pub dev : (b : ℕ) → (c'.bufs b).dev ≡ (c.bufs b).dev
    pub blockno : (b : ℕ) → (c'.bufs b).blockno ≡ (c.bufs b).blockno
    pub valid : (b : ℕ) → (c'.bufs b).valid ≡ (c.bufs b).valid
    pub dirty : (b : ℕ) → (c'.bufs b).dirty ≡ (c.bufs b).dirty
    pub hash_table : c'.hash_table ≡ c.hash_table
    pub disk : c'.disk ≡ c.disk

  pub Alike-IsCoherent : (c c' : Bcache D) → Alike c c' → IsCoherent c → IsCoherent c'
  Alike-IsCoherent c c' a i = record {
    placed = λ b h. rw (a.hash_table, a.dev b, a.blockno b) (i.placed b (rw (a.valid b) at h));
    homed = λ b h o. rw (a.dev b, a.blockno b) (i.homed b h (rw a.hash_table at o));
    unique = λ x y h p q s.
        i.unique x y h (rw a.hash_table at p) (rw a.hash_table at q)
          (rw (a.dev x, a.dev y, a.blockno x, a.blockno y) at s);
    current =
        λ b h. rw (a.contents b, a.disk, a.dev b, a.blockno b) (i.current b (rw (a.valid b) at h));
    unstained = λ b. rw (a.dirty b) (i.unstained b);
  }

  hit-Alike : (c : Bcache D) (b : ℕ) → Alike c (hit c b)
  unfolding hit to_front
  hit-Alike c b = record {
    contents = λ i. ground arith;
    dev = λ i. ground arith;
    blockno = λ i. ground arith;
    valid = λ i. ground arith;
    dirty = λ i. ground arith;
    hash_table = refl;
    disk = refl;
  }

  pub hit-IsCoherent : (c : Bcache D) (b : ℕ) → IsCoherent c → IsCoherent (hit c b)
  hit-IsCoherent c b i = Alike-IsCoherent c (hit c b) (hit-Alike c b) i

  brelse-Alike : (c : Bcache D) (b : ℕ) → Alike c (brelse c b)
  unfolding brelse
  brelse-Alike c b = elim (Bool-cases (((c.bufs b).refcnt + 2 ^ 32 - 1) % 2 ^ 32 == 0)) [
    | inl e ↦ rw e (record {
      contents = λ i. ground arith;
      dev = λ i. ground arith;
      blockno = λ i. ground arith;
      valid = λ i. ground arith;
      dirty = λ i. ground arith;
      hash_table = refl;
      disk = refl;
    })
    | inr e ↦ rw e (record {
      contents = λ i. ground arith;
      dev = λ i. ground arith;
      blockno = λ i. ground arith;
      valid = λ i. ground arith;
      dirty = λ i. ground arith;
      hash_table = refl;
      disk = refl;
    })
  ]

  pub brelse-IsCoherent : (c : Bcache D) (b : ℕ) → IsCoherent c → IsCoherent (brelse c b)
  brelse-IsCoherent c b i = Alike-IsCoherent c (brelse c b) (brelse-Alike c b) i

  -- The cache with the lock of a buffer taken.
  abbrev pub locked_at : Bcache D → ℕ → Bcache D
  locked_at c b = set_buf c b (record (c.bufs b) { locked = true })

  locked_at-Alike : (c : Bcache D) (b : ℕ) → Alike c (locked_at c b)
  locked_at-Alike c b = record {
    contents = λ i. ground arith;
    dev = λ i. ground arith;
    blockno = λ i. ground arith;
    valid = λ i. ground arith;
    dirty = λ i. ground arith;
    hash_table = refl;
    disk = refl;
  }

  pub locked_at-IsCoherent : (c : Bcache D) (b : ℕ) → IsCoherent c → IsCoherent (locked_at c b)
  locked_at-IsCoherent c b i = Alike-IsCoherent c (locked_at c b) (locked_at-Alike c b) i

  pub bcache_init-IsCoherent :
      (held : ℕ → D) (disk : ℕ → ℕ → D) (faults : ℕ → Option D)
      → IsCoherent (bcache_init held disk faults)
  unfolding bcache_init occurs
  bcache_init-IsCoherent held disk faults = record {
    placed = λ b h. absurd (ground (arith, h));
    homed = λ b h o. absurd (omega arith);
    unique = λ x y h p q s. absurd (omega arith);
    current = λ b h. absurd (ground (arith, h));
    unstained = λ b. refl;
  }

  -- A cache in which only contents, validity and the device have changed.
  pub rebuilt-IsCoherent :
      (c c' : Bcache D)
      → IsCoherent c
      → ((b : ℕ) → (c'.bufs b).dev ≡ (c.bufs b).dev)
      → ((b : ℕ) → (c'.bufs b).blockno ≡ (c.bufs b).blockno)
      → c'.hash_table ≡ c.hash_table
      → ((b : ℕ) → (c'.bufs b).dirty ≡ false)
      → ((b : ℕ) → (c'.bufs b).valid ≡ true → 0 < occurs b (c.hash_table (home_of c b)))
      → ((b : ℕ)
          → (c'.bufs b).valid ≡ true
          → (c'.bufs b).contents ≡ c'.disk (c.bufs b).dev (c.bufs b).blockno)
      → IsCoherent c'
  rebuilt-IsCoherent c c' i dev blockno table clean placed current = record {
    placed = λ b h. rw (table, dev b, blockno b) (placed b h);
    homed = λ b h o. rw (dev b, blockno b) (i.homed b h (rw table at o));
    unique = λ x y h p q s.
        i.unique x y h (rw table at p) (rw table at q)
          (rw (dev x, dev y, blockno x, blockno y) at s);
    current = λ b h. rw (dev b, blockno b) (current b h);
    unstained = clean;
  }

  -- Filling a buffer that is in its bucket.
  pub fill-IsCoherent :
      (c : Bcache D) (b dev blockno : ℕ)
      → IsCoherent c
      → IsReliable c
      → 0 < occurs b (c.hash_table (home_of c b))
      → (c.bufs b).dev ≡ dev
      → (c.bufs b).blockno ≡ blockno
      → IsCoherent (fill c b dev blockno)
  unfolding fill transferred
  fill-IsCoherent c b dev blockno i ok o p q = elim (Bool-cases (c.bufs b).valid) [
    | inl e ↦ rw e i
    | inr e ↦ rw e (
        rebuilt-IsCoherent c _ i (λ j. ground arith) (λ j. ground arith) refl
          (λ j. ground (arith, i.unstained j))
          (here_or_else b (λ h. o) (λ j s h. ground (arith, s, h, i.placed j)))
          (here_or_else b (λ h. rw (==_refl b, p, q, ok c.transfers) refl)
            (λ j s h. rw s (i.current j (rw s at h)))))
  ]

  -- Another valid buffer holds another block.
  apart :
      (c : Bcache D) (a b : ℕ)
      → IsCoherent c
      → (c.bufs a).valid ≡ true
      → (c.bufs b).valid ≡ true
      → (b == a) ≡ false
      → ((c.bufs b).dev == (c.bufs a).dev && (c.bufs b).blockno == (c.bufs a).blockno) ≡ false
  apart c a b i va vb o =
      elim (Bool-cases
        ((c.bufs b).dev == (c.bufs a).dev && (c.bufs b).blockno == (c.bufs a).blockno)) [
          | inl e ↦
              let dev : (c.bufs b).dev ≡ (c.bufs a).dev = ground arith in
              let blockno : (c.bufs b).blockno ≡ (c.bufs a).blockno = ground arith in
              let there : 0 < occurs b (c.hash_table (home_of c a)) =
                rw (← dev, ← blockno) (i.placed b vb) in
              let same : b ≡ a = i.unique b a (home_of c a) there (i.placed a va) (dev, blockno) in
              absurd (ground arith)
          | inr e ↦ e
        ]

  -- A store by a holder, written through at once.
  pub store-IsCoherent :
      (c : Bcache D) (b : ℕ) (d : D)
      → IsCoherent c
      → IsReliable c
      → (c.bufs b).valid ≡ true
      → IsCoherent (bwrite (modify c b d) b)
  unfolding bwrite modify write_disk transferred
  store-IsCoherent c b d i ok v =
      rw (==_refl b, v)
        (rebuilt-IsCoherent c _ i (λ j. ground arith) (λ j. ground arith) refl
          (λ j. ground (arith, i.unstained j))
          (here_or_else b (λ h. i.placed b v) (λ j s h. ground (arith, s, h, i.placed j)))
          (here_or_else b
            (λ h.
              rw (==_refl b, ==_refl (c.bufs b).dev, ==_refl (c.bufs b).blockno, ok c.transfers)
                refl)
            (λ j s h.
              let vj : (c.bufs j).valid ≡ true = rw s at h in
              rw (s, apart c j b i vj v s) (i.current j vj))))
