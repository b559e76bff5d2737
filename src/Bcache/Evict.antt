-- ===== src/Bcache/Evict.antt =====
-- The buffer that `bcache_evict` picks, and its reuse for another block.
use yu_noob_kernel.Base.{
  ℕ, ◌<◌, ◌≡◌, ◌≢◌, inl, inr, refl, sym, ◌∙◌, arith, true, false, Bool-cases, ◌==◌, ==_refl,
  here_or_else, if◌then◌else◌, List, [], ◌∷◌, none, some, occurs, occurs-list_del,
}
use yu_noob_kernel.Bcache.{
  Bcache, Victim, clean, unclean, nobody, bcache_hash, set_buf, holds, lookup_in, bcache_lookup,
  unhash, victim_of, to_front, claim,
}
use yu_noob_kernel.Bcache.Inv.{IsCoherent, home_of}

module _ {D : Type 0} where
  -- Of a cache without dirty buffers a clean one is picked, one of the list without a reference.
  abbrev pub Picked : Bcache D → List ℕ → Victim → Type 0
  Picked c bs (clean b) = ((c.bufs b).refcnt ≡ 0) × (0 < occurs b bs)
  Picked c bs (unclean b) = ⊥
  Picked c bs nobody = (b : ℕ) → 0 < occurs b bs → (c.bufs b).refcnt ≢ 0

  next-Picked :
      (c : Bcache D) (b : ℕ) (bs : List ℕ)
      → (c.bufs b).dirty ≡ false
      → (v : Victim) → victim_of c bs ≡ v
      → Picked c bs v
      → Picked c (b ∷ bs) (victim_of c (b ∷ bs))
  unfolding victim_of occurs
  next-Picked c b bs h (clean v) e (p, o) = rw e (p, omega arith)
  next-Picked c b bs h (unclean v) e p = absurd p
  next-Picked c b bs h nobody e p = elim (Bool-cases ((c.bufs b).refcnt == 0)) [
    | inl f ↦ rw (e, f, h) (ground arith, rw (==_refl b) (omega arith))
    | inr f ↦ rw (e, f) (here_or_else b (λ o. ground arith) (λ j s o. p j (ground arith)))
  ]

  pub victim_of-Picked :
      (c : Bcache D)
      → ((b : ℕ) → (c.bufs b).dirty ≡ false)
      → (bs : List ℕ) → Picked c bs (victim_of c bs)
  unfolding victim_of occurs
  victim_of-Picked c h [] = λ b o. absurd (omega arith)
  victim_of-Picked c h (b ∷ bs) =
      next-Picked c b bs (h b) (victim_of c bs) refl (victim_of-Picked c h bs)

  lookup_in-none :
      (c : Bcache D) (dev blockno : ℕ) (bs : List ℕ)
      → lookup_in c dev blockno bs ≡ none
      → (b : ℕ) → 0 < occurs b bs
      → holds c dev blockno b ≡ false
  unfolding lookup_in occurs
  lookup_in-none c dev blockno [] h b o = absurd (omega arith)
  lookup_in-none c dev blockno (x ∷ bs) h b o = elim (Bool-cases (holds c dev blockno x)) [
    | inl e ↦ absurd (ground (arith, rw e at h))
    | inr e ↦ elim (Bool-cases (x == b)) [
      | inl s ↦ let same : x ≡ b = ground arith in rw same at e
      | inr s ↦ lookup_in-none c dev blockno bs (rw e at h) b (ground arith)
    ]
  ]

  pub lookup_in-some :
      (c : Bcache D) (dev blockno : ℕ) (bs : List ℕ) (b : ℕ)
      → lookup_in c dev blockno bs ≡ some b
      → (0 < occurs b bs) × ((c.bufs b).dev ≡ dev) × ((c.bufs b).blockno ≡ blockno)
  unfolding lookup_in occurs
  lookup_in-some c dev blockno [] b h = absurd (ground (arith, h))
  lookup_in-some c dev blockno (x ∷ bs) b h = elim (Bool-cases (holds c dev blockno x)) [
    | inl e ↦
        let same : x ≡ b = ground (arith, rw e at h) in
        (ground arith, ground (arith, rw same at e), ground (arith, rw same at e))
    | inr e ↦ let (o, p, q) = lookup_in-some c dev blockno bs b (rw e at h) in (ground arith, p, q)
  ]

  -- The cache with a clean buffer taken for another block.
  abbrev pub reused : Bcache D → ℕ → ℕ → ℕ → Bcache D
  reused c b dev blockno =
      claim (set_buf (unhash c b) b (record (c.bufs b) { valid = false })) b dev blockno

  occurs-reused :
      (c : Bcache D) (b dev blockno j h : ℕ)
      → occurs j ((reused c b dev blockno).hash_table h) ≡ (
          if b == j
          then (if bcache_hash dev blockno == h then 1 else 0)
          else occurs j (c.hash_table h))
  unfolding claim unhash to_front occurs
  occurs-reused c b dev blockno j h = ground (arith, occurs-list_del j b (c.hash_table h))

  reused-other :
      (c : Bcache D) (b dev blockno j : ℕ)
      → (b == j) ≡ false
      → (reused c b dev blockno).bufs j ≡ c.bufs j
  unfolding claim unhash to_front
  reused-other c b dev blockno j h = rw h refl

  taken_one :
      (c : Bcache D) (b dev blockno : ℕ)
      → (reused c b dev blockno).bufs b ≡ record (c.bufs b) {
        dev = dev;
        blockno = blockno;
        refcnt = 1;
        valid = false;
        dirty = false;
      }
  unfolding claim unhash to_front
  taken_one c b dev blockno = rw (==_refl b) refl

  -- A cache `r` that differs from `c` in the buffer `b` only, which has the block now.
  pub record Reused (c r : Bcache D) (b dev blockno : ℕ) : Type 0 where
    pub new_dev : (r.bufs b).dev ≡ dev
    pub new_blockno : (r.bufs b).blockno ≡ blockno
    pub not_valid : (r.bufs b).valid ≡ false
    pub not_dirty : (r.bufs b).dirty ≡ false
    pub other : (j : ℕ) → (b == j) ≡ false → r.bufs j ≡ c.bufs j
    pub same_disk : r.disk ≡ c.disk
    pub table :
        (j h : ℕ)
        → occurs j (r.hash_table h) ≡ (
            if b == j
            then (if bcache_hash dev blockno == h then 1 else 0)
            else occurs j (c.hash_table h))

  pub reused-Reused :
      (c : Bcache D) (b dev blockno : ℕ) → Reused c (reused c b dev blockno) b dev blockno
  unfolding claim unhash to_front
  reused-Reused c b dev blockno = record {
    new_dev = rw (==_refl b) refl;
    new_blockno = rw (==_refl b) refl;
    not_valid = rw (==_refl b) refl;
    not_dirty = rw (==_refl b) refl;
    other = reused-other c b dev blockno;
    same_disk = refl;
    table = occurs-reused c b dev blockno;
  }

  -- No other buffer has the block.
  Absent : (c : Bcache D) (dev blockno : ℕ) → Type 0
  Absent c dev blockno =
      (a : ℕ)
      → 0 < occurs a (c.hash_table (bcache_hash dev blockno))
      → holds c dev blockno a ≡ false

  no_second :
      (c r : Bcache D) (b dev blockno : ℕ)
      → Reused c r b dev blockno
      → Absent c dev blockno
      → (a h : ℕ) → (b == a) ≡ false
      → 0 < occurs a (r.hash_table h)
      → 0 < occurs b (r.hash_table h)
      → (r.bufs a).dev ≡ dev
      → (r.bufs a).blockno ≡ blockno
      → ⊥
  unfolding Absent
  no_second c r b dev blockno u n a h s oa ob p q =
      let in_old : 0 < occurs a (c.hash_table h) = rw (u.table a h, s) at oa in
      let other_h : (bcache_hash dev blockno == h) ≡ true =
        ground (arith, u.table b h, ob, ==_refl b) in
      let home : bcache_hash dev blockno ≡ h = ground arith in
      let p' : (c.bufs a).dev ≡ dev = rw (u.other a s) at p in
      let q' : (c.bufs a).blockno ≡ blockno = rw (u.other a s) at q in
      let no = n a (rw home in_old) in absurd (ground (arith, no, p', q'))

  own_home :
      (c r : Bcache D) (b dev blockno : ℕ)
      → Reused c r b dev blockno
      → (h : ℕ) → 0 < occurs b (r.hash_table h)
      → bcache_hash dev blockno ≡ h
  own_home c r b dev blockno u h o =
      let other_h : (bcache_hash dev blockno == h) ≡ true =
        ground (arith, u.table b h, o, ==_refl b) in
      ground arith

  Reused-IsCoherent :
      (c r : Bcache D) (b dev blockno : ℕ)
      → Reused c r b dev blockno
      → Absent c dev blockno
      → IsCoherent c
      → IsCoherent r
  Reused-IsCoherent c r b dev blockno u n i = record {
    placed =
        here_or_else b (λ h. absurd (ground (arith, h, u.not_valid)))
          (λ j s h.
            rw (u.table j (home_of r j), s, u.other j s) (i.placed j (rw (u.other j s) at h)));
    homed =
        here_or_else b (λ h o. rw (u.new_dev, u.new_blockno) (own_home c r b dev blockno u h o))
          (λ j s h o. rw (u.other j s) (i.homed j h (rw (u.table j h, s) at o)));
    unique =
        here_or_else b
          (here_or_else b (λ h p q e. refl)
            (λ y s h p q e. absurd (
              no_second c r b dev blockno u n y h s q p (sym e.0 ∙ u.new_dev)
                (sym e.1 ∙ u.new_blockno))))
          (λ x s.
            here_or_else b
              (λ h p q e.
                absurd (
                  no_second c r b dev blockno u n x h s p q (e.0 ∙ u.new_dev)
                    (e.1 ∙ u.new_blockno)))
              (λ y t h p q e.
                i.unique x y h (rw (u.table x h, s) at p) (rw (u.table y h, t) at q)
                  (rw (u.other x s, u.other y t) at e)));
    current =
        here_or_else b (λ h. absurd (ground (arith, h, u.not_valid)))
          (λ j s h. rw (u.same_disk, u.other j s) (i.current j (rw (u.other j s) at h)));
    unstained = here_or_else b u.not_dirty (λ j s. rw (u.other j s) (i.unstained j));
  }

  pub miss-IsCoherent :
      (c : Bcache D) (b dev blockno : ℕ)
      → IsCoherent c
      → bcache_lookup c dev blockno ≡ none
      → IsCoherent (reused c b dev blockno)
  unfolding bcache_lookup Absent
  miss-IsCoherent c b dev blockno i h =
      Reused-IsCoherent c (reused c b dev blockno) b dev blockno (reused-Reused c b dev blockno)
        (lookup_in-none c dev blockno (c.hash_table (bcache_hash dev blockno)) h) i
