-- ===== src/Bcache/Spec.antt =====
-- The cache against the device without a cache.
use yu_noob_kernel.Base.{
  ℕ, ◌+◌, ◌-◌, ◌%◌, ◌^◌, ◌<◌, ◌≡◌, inl, inr, refl, sym, ap, ◌∙◌, arith, true, false, ◌==◌, ==_refl,
  here_or_else, if◌then◌else◌, ◌&&◌, List, [], ◌∷◌, ◌++◌, Option, none, some, occurs, occurs-append,
  list_del,
}
use yu_noob_kernel.Bcache.{
  Bcache, bread, bwrite, modify, brelse, bcache_init, below, write_disk, transferred,
}
use yu_noob_kernel.Bcache.Inv.{
  IsCoherent, IsReliable, brelse-IsCoherent, store-IsCoherent, bcache_init-IsCoherent,
}
use yu_noob_kernel.Bcache.Fill.{Got}
use yu_noob_kernel.Bcache.Get.{Read, bread-Read}

-- A read of a block and a write of one, each with its `bread` and its `brelse`.
pub data Access (D : Type 0) : Type 0 where
  read_block : ℕ → ℕ → Access D
  write_block : ℕ → ℕ → D → Access D

module _ {D : Type 0} where
  -- A cache that no caller uses: coherent, without references and locks, with a buffer.
  pub record Resting (c : Bcache D) : Type 0 where
    pub coherent : IsCoherent c
    pub unused : (b : ℕ) → (c.bufs b).refcnt ≡ 0
    pub unlocked : (b : ℕ) → (c.bufs b).locked ≡ false
    pub stocked : (b : ℕ) × (0 < occurs b c.lru_list)

  -- The use of a buffer that was read: the value, and the cache behind `brelse`.
  abbrev pub use_buffer : Access D → ℕ × Bcache D → D × Bcache D
  use_buffer (read_block dev blockno) (b, c) = ((c.bufs b).contents, brelse c b)
  use_buffer (write_block dev blockno d) (b, c) = (d, brelse (bwrite (modify c b d) b) b)

  abbrev pub device_of : Access D → ℕ
  device_of (read_block dev blockno) = dev
  device_of (write_block dev blockno d) = dev

  abbrev pub number_of : Access D → ℕ
  number_of (read_block dev blockno) = blockno
  number_of (write_block dev blockno d) = blockno

  -- An access through the cache.
  unfoldable pub perform : Bcache D → Access D → Option (D × Bcache D)
  perform c a = elim (bread c (device_of a) (number_of a)) [
    | none ↦ none
    | some g ↦ some (use_buffer a g)
  ]

  -- The same access to the device itself.
  abbrev pub plain : (ℕ → ℕ → D) → Access D → D × (ℕ → ℕ → D)
  plain disk (read_block dev blockno) = (disk dev blockno, disk)
  plain disk (write_block dev blockno d) =
      (d, λ x n. if dev == x && blockno == n then d else disk x n)

  -- A sequence of accesses: what each of them answered, and the cache.
  unfoldable pub perform_all : Bcache D → List (Access D) → Option (List D × Bcache D)
  perform_all c [] = some ([], c)
  perform_all c (a ∷ rest) = elim (perform c a) [
    | none ↦ none
    | some r ↦ elim (perform_all r.1 rest) [ none ↦ none | some rs ↦ some (r.0 ∷ rs.0, rs.1) ]
  ]

  unfoldable pub plain_all : (ℕ → ℕ → D) → List (Access D) → List D × (ℕ → ℕ → D)
  plain_all disk [] = ([], disk)
  plain_all disk (a ∷ rest) =
      let r = plain disk a in let rs = plain_all r.1 rest in (r.0 ∷ rs.0, rs.1)

  -- `brelse` of a buffer with one reference leaves it without one, at the end of the list.
  released :
      (c : Bcache D) (b : ℕ)
      → (c.bufs b).refcnt ≡ 1
      → (((brelse c b).bufs b).refcnt ≡ 0)
        × ((a : ℕ) → (b == a) ≡ false → (brelse c b).bufs a ≡ c.bufs a)
        × ((brelse c b).lru_list ≡ list_del b c.lru_list ++ b ∷ [])
        × ((brelse c b).disk ≡ c.disk)
        × (((brelse c b).bufs b).locked ≡ false)
        × ((brelse c b).faults ≡ c.faults)
  unfolding brelse
  released c b h =
      let z : ((c.bufs b).refcnt + 2 ^ 32 - 1) % 2 ^ 32 ≡ 0 = omega arith in
      rw (z, ==_refl b) (refl, (λ a s. rw s refl), refl, refl, refl, refl)

  rested :
      (c : Bcache D) (b : ℕ)
      → IsCoherent c
      → (c.bufs b).refcnt ≡ 1
      → ((a : ℕ) → (b == a) ≡ false → (c.bufs a).refcnt ≡ 0)
      → ((a : ℕ) → (b == a) ≡ false → (c.bufs a).locked ≡ false)
      → Resting (brelse c b)
  unfolding occurs
  rested c b i h o free =
      let (z, rest, l, _, u, _) = released c b h in
      record {
        coherent = brelse-IsCoherent c b i;
        unused = here_or_else b z (λ a s. rw (rest a s) (o a s));
        unlocked = here_or_else b u (λ a s. rw (rest a s) (free a s));
        stocked =
            (b, rw l (ground (arith, occurs-append b (list_del b c.lru_list) (b ∷ []), ==_refl b)));
      }

  -- `bwrite` of a buffer in which a holder has stored.
  stored :
      (c : Bcache D) (b : ℕ) (d : D)
      → IsReliable c
      → (c.bufs b).valid ≡ true
      → (((bwrite (modify c b d) b).bufs b).refcnt ≡ (c.bufs b).refcnt)
        × ((a : ℕ) → (b == a) ≡ false → (bwrite (modify c b d) b).bufs a ≡ c.bufs a)
        × ((bwrite (modify c b d) b).disk
            ≡ (λ x n. if (c.bufs b).dev == x && (c.bufs b).blockno == n then d else c.disk x n))
        × ((bwrite (modify c b d) b).faults ≡ c.faults)
  unfolding bwrite modify write_disk transferred
  stored c b d ok v =
      let there : transferred (c.faults c.transfers) d ≡ d = rw (ok c.transfers) refl in
      rw (==_refl b, v, ==_refl b)
        (
          refl,
          (λ a s. rw s refl),
          ap (λ z x n. if (c.bufs b).dev == x && (c.bufs b).blockno == n then z else c.disk x n)
              there,
          refl,
        )

  -- One access, with the buffer that `bread` gave.
  used :
      (c : Bcache D) (a : Access D) (b : ℕ) (g : Bcache D)
      → Resting c
      → IsReliable c
      → Got c (device_of a) (number_of a) b g
      → ((use_buffer a (b, g)).0 ≡ (plain c.disk a).0)
        × Resting (use_buffer a (b, g)).1
        × ((use_buffer a (b, g)).1.disk ≡ (plain c.disk a).1)
        × ((use_buffer a (b, g)).1.faults ≡ c.faults)
  used c (read_block dev blockno) b g r ok k =
      let one : (g.bufs b).refcnt ≡ 1 = k.referenced ∙ rw (r.unused b) refl in
      (
        k.contents,
        rested g b k.coherent one (λ x s. rw (k.others x s) (r.unused x))
            (λ x s. rw (k.others x s) (r.unlocked x)),
        (released g b one).3 ∙ k.same_disk,
        (released g b one).5 ∙ k.same_faults,
      )
  used c (write_block dev blockno d) b g r ok k =
      let here : IsReliable g = rw k.same_faults ok in
      let (z, o, w, f) = stored g b d here k.is_valid in
      let one : ((bwrite (modify g b d) b).bufs b).refcnt ≡ 1 =
        z ∙ k.referenced ∙ rw (r.unused b) refl in
      (
        refl,
        rested (bwrite (modify g b d) b) b (store-IsCoherent g b d k.coherent here k.is_valid) one
            (λ x s. rw (o x s, k.others x s) (r.unused x))
            (λ x s. rw (o x s, k.others x s) (r.unlocked x)),
        (released (bwrite (modify g b d) b) b one).3
            ∙ w
            ∙ rw (k.dev_is, k.blockno_is, k.same_disk) refl,
        (released (bwrite (modify g b d) b) b one).5 ∙ f ∙ k.same_faults,
      )

  performed :
      (c : Bcache D) (a : Access D)
      → Resting c
      → IsReliable c
      → (o : Option (ℕ × Bcache D)) → bread c (device_of a) (number_of a) ≡ o
      → Read c (device_of a) (number_of a) o
      → (c' : Bcache D) × (perform c a ≡ some ((plain c.disk a).0, c'))
        × Resting c'
        × (c'.disk ≡ (plain c.disk a).1)
        × (c'.faults ≡ c.faults)
  unfolding perform
  performed c a r ok none e (inl (_, full)) =
      absurd (full r.stocked.0 r.stocked.1 (r.unused r.stocked.0))
  performed c a r ok none e (inr (b, l, _)) = absurd (cc (sym l ∙ r.unlocked b))
  performed c a r ok (some (b, g)) e k =
      let (v, r', d, f) = used c a b g r ok k in
      ((use_buffer a (b, g)).1, rw (e, perform, ← v) refl, r', d, f)

  -- The rest of a sequence behind its first access.
  prepended :
      (c c' : Bcache D) (a : Access D) (rest : List (Access D)) (v : D)
      → perform c a ≡ some (v, c')
      → (vs : List D) (z : Bcache D) → perform_all c' rest ≡ some (vs, z)
      → perform_all c (a ∷ rest) ≡ some (v ∷ vs, z)
  unfolding perform_all
  prepended c c' a rest v h vs z k = rw (h, perform_all, k) refl

  -- From a resting cache over a device of which no transfer fails, every sequence of reads and writes
  -- of blocks through `bread`, `bwrite` and `brelse` runs without the panic and without a wait for a
  -- lock, answers what the device without a cache answers, and leaves a resting cache over the same
  -- device.
  pub perform_all-plain_all :
      (c : Bcache D) (accesses : List (Access D))
      → Resting c
      → IsReliable c
      → (c' : Bcache D) × (perform_all c accesses ≡ some ((plain_all c.disk accesses).0, c'))
        × Resting c'
        × (c'.disk ≡ (plain_all c.disk accesses).1)
  unfolding plain_all
  perform_all-plain_all c [] r ok = (c, unfold perform_all in refl, r, refl)
  perform_all-plain_all c (a ∷ rest) r ok =
      let (c1, h, r1, d1, f1) =
        performed c a r ok (bread c (device_of a) (number_of a)) refl
          (bread-Read c (device_of a) (number_of a) r.coherent ok) in
      let (z, k, rz, dz) = perform_all-plain_all c1 rest r1 (rw f1 ok) in
      (
        z,
        prepended c c1 a rest (plain c.disk a).0 h (plain_all (plain c.disk a).1 rest).0 z
            (rw d1 at k),
        rz,
        rw d1 at dz,
      )

  pub bcache_init-Resting :
      (held : ℕ → D) (disk : ℕ → ℕ → D) (faults : ℕ → Option D)
      → Resting (bcache_init held disk faults)
  bcache_init-Resting held disk faults = record {
    coherent = bcache_init-IsCoherent held disk faults;
    unused = λ b. unfold bcache_init in refl;
    unlocked = λ b. unfold bcache_init in refl;
    stocked = (511, unfold bcache_init below occurs in omega arith);
  }
