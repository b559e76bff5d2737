-- ===== src/Bcache/Sync.antt =====
-- The loops of `bcache_flush` and `bcache_sync` that write dirty buffers back.
use yu_noob_kernel.Base.{
  ℕ, ◌<◌, ◌≡◌, inl, inr, refl, ap, arith, Bool, true, false, Bool-cases, ◌==◌, ==_refl,
  here_or_else, if◌then◌else◌, ◌&&◌, List, [], ◌∷◌, Option, none, some, occurs,
}
use yu_noob_kernel.Bcache.Inv.{IsReliable}
use yu_noob_kernel.Bcache.{
  Buf, Bcache, write_back, flush_list, bcache_flush, sync_list, bcache_sync,
}
use yu_noob_kernel.Bcache.Written.{
  Written, write_all, other_after, still_selected, write_all-Written,
}

module _ {D : Type 0} where
  -- What a run answers: it has written back the selected buffers, none of which was locked, or it
  -- waits for ever for the lock of a selected buffer.
  abbrev pub Synced : (Buf D → Bool) → Bcache D → List ℕ → Option (Bcache D) → Type 0
  Synced p c bs (some c') =
      Written p c c' bs
      × ((a : ℕ) → 0 < occurs a bs → p (c.bufs a) ≡ true → (c.bufs a).locked ≡ false)
  Synced p c bs none =
      (a : ℕ) × (0 < occurs a bs) × (p (c.bufs a) ≡ true) × ((c.bufs a).locked ≡ true)

module _ {D : Type 0} (p : Buf D → Bool)
    (off : (x : Buf D) → p (record x { dirty = false; locked = false }) ≡ false) where
  -- The loops with the locks: it stops at a selected buffer that is locked.
  unfoldable until_locked : Bcache D → List ℕ → Option (Bcache D)
  until_locked c [] = some c
  until_locked c (b ∷ bs) =
      let rest = until_locked (if p (c.bufs b) then write_back c b else c) bs in
      if p (c.bufs b) && (c.bufs b).locked then none else rest

  -- A run to the end has met no lock, and one that stops has.
  abbrev Run : Bcache D → List ℕ → Option (Bcache D) → Type 0
  Run c bs (some c') =
      (c' ≡ write_all p off c bs)
      × ((a : ℕ) → 0 < occurs a bs → p (c.bufs a) ≡ true → (c.bufs a).locked ≡ false)
  Run c bs none = (a : ℕ) × (0 < occurs a bs) × (p (c.bufs a) ≡ true) × ((c.bufs a).locked ≡ true)

  next_unselected :
      (c : Bcache D) (b : ℕ) (bs : List ℕ)
      → p (c.bufs b) ≡ false
      → (o : Option (Bcache D)) → Run c bs o
      → Run c (b ∷ bs) o
  unfolding write_all occurs
  next_unselected c b bs e (some c') (q, f) = (
    rw e q,
    here_or_else b (λ o s. absurd (ground (arith, e, s))) (λ a n o s. f a (ground arith) s),
  )
  next_unselected c b bs e none (a, o, s, l) = (a, omega (arith, o), s, l)

  next_written :
      (c : Bcache D) (b : ℕ) (bs : List ℕ)
      → p (c.bufs b) ≡ true
      → (c.bufs b).locked ≡ false
      → (o : Option (Bcache D)) → Run (write_back c b) bs o
      → Run c (b ∷ bs) o
  unfolding write_all occurs
  next_written c b bs e free (some c') (q, f) = (
    rw e q,
    here_or_else b (λ o s. free)
        (λ a n o s.
          let k = other_after p off c b a n in
          let was = f a (ground arith) (rw k s) in rw k at was),
  )
  next_written c b bs e free none (a, o, s, l) =
      let (n, k) = still_selected p off c b a s in (a, omega (arith, o), rw k at s, rw k at l)

  until_locked-Run : (c : Bcache D) (bs : List ℕ) → Run c bs (until_locked c bs)
  unfolding until_locked write_all occurs
  until_locked-Run c [] = (refl, λ a o. absurd (omega arith))
  until_locked-Run c (b ∷ bs) = elim (Bool-cases (p (c.bufs b))) [
    | inr e ↦
        rw (until_locked, e) (next_unselected c b bs e (until_locked c bs) (until_locked-Run c bs))
    | inl e ↦ elim (Bool-cases (c.bufs b).locked) [
      | inl l ↦ rw (until_locked, e, l) (b, rw (==_refl b) (omega arith), e, l)
      | inr l ↦
          rw (until_locked, e, l)
            (next_written c b bs e l (until_locked (write_back c b) bs)
              (until_locked-Run (write_back c b) bs))
    ]
  ]

  Run-Synced :
      (c : Bcache D) (bs : List ℕ)
      → IsReliable c
      → (o : Option (Bcache D)) → Run c bs o
      → Synced p c bs o
  Run-Synced c bs ok (some c') (q, f) = (rw q (write_all-Written p off c bs ok), f)
  Run-Synced c bs ok none r = r

module _ {D : Type 0} where
  dirty-off : (x : Buf D) → (record x { dirty = false; locked = false }).dirty ≡ false
  dirty-off x = refl

  sync_list-until_locked :
      (c : Bcache D) (bs : List ℕ) → sync_list c bs ≡ until_locked (λ x. x.dirty) dirty-off c bs
  unfolding sync_list until_locked
  sync_list-until_locked c [] = refl
  sync_list-until_locked c (b ∷ bs) =
      ap (λ o. if (c.bufs b).dirty && (c.bufs b).locked then none else o)
        (sync_list-until_locked (if (c.bufs b).dirty then write_back c b else c) bs)

  abbrev of_device : ℕ → Buf D → Bool
  of_device dev x = x.dev == dev && x.dirty

  of_device-off :
      (dev : ℕ) (x : Buf D) → of_device dev (record x { dirty = false; locked = false }) ≡ false
  of_device-off dev x = ground arith

  flush_list-until_locked :
      (c : Bcache D) (dev : ℕ) (bs : List ℕ)
      → flush_list c dev bs ≡ until_locked (of_device dev) (of_device-off dev) c bs
  unfolding flush_list until_locked
  flush_list-until_locked c dev [] = refl
  flush_list-until_locked c dev (b ∷ bs) =
      ap (λ o. if of_device dev (c.bufs b) && (c.bufs b).locked then none else o)
        (flush_list-until_locked (if of_device dev (c.bufs b) then write_back c b else c) dev bs)

  pub bcache_sync-Synced :
      (c : Bcache D) → IsReliable c → Synced (λ x. x.dirty) c c.lru_list (bcache_sync c)
  unfolding bcache_sync
  bcache_sync-Synced c ok = rw (sync_list-until_locked c c.lru_list) (
      Run-Synced (λ x. x.dirty) dirty-off c c.lru_list ok _
        (until_locked-Run (λ x. x.dirty) dirty-off c c.lru_list))

  -- With a device of which no transfer fails, `bcache_flush` returns exactly if no buffer of the LRU
  -- list that is dirty and of the device `dev` is locked. It then has changed of the buffers only the
  -- dirty marks of these, which are cleared, has changed neither the LRU list nor the buckets, and has
  -- stored on the device the block of each of these, unless two of them are of one block; no other
  -- block of the device has changed.
  pub bcache_flush-Synced :
      (c : Bcache D) (dev : ℕ)
      → IsReliable c
      → Synced (λ x. x.dev == dev && x.dirty) c c.lru_list (bcache_flush c dev)
  unfolding bcache_flush
  bcache_flush-Synced c dev ok = rw (flush_list-until_locked c dev c.lru_list) (
      Run-Synced (of_device dev) (of_device-off dev) c c.lru_list ok _
        (until_locked-Run (of_device dev) (of_device-off dev) c c.lru_list))
