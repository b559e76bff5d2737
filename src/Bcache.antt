-- ===== src/Bcache.antt =====
-- src/mm/bcache.c: the cache of disk blocks. A buffer is named by its index in `bufs`. The contents of
-- a block are of any type, and `disk` is what the device holds. `blk_read` and `blk_write` copy one
-- block between a buffer and an entry of it; either can fail, which no caller looks at, and then leaves
-- anything where it should have copied to. A call runs with no other process in between, also where it
-- gives up a lock for the device, so that a lock it takes and gives back is as before; `b->lock`, which
-- the caller of `bread` keeps until `brelse`, is a field. `list_del` of a node takes it out of the list
-- that it is in.
pub mod Inv
pub mod Evict
pub mod Fill
pub mod Get
pub mod Spec
pub mod Order
pub mod Written
pub mod Sync
mod Tests
use yu_noob_kernel.Base.{
  ℕ, zero, suc, ◌+◌, ◌-◌, ◌%◌, ◌^◌, Bool, true, false, not, ltb, ◌==◌, if◌then◌else◌, ◌&&◌, List,
  [], ◌∷◌, ◌++◌, Option, none, some, list_del,
}

abbrev pub bcache_size : ℕ
bcache_size = 512

abbrev pub bcache_hash_size : ℕ
bcache_hash_size = 64

-- `struct buf`.
pub record Buf (D : Type 0) : Type 0 where
  pub contents : D
  pub blockno : ℕ
  pub dev : ℕ
  pub refcnt : ℕ
  pub dirty : Bool
  pub valid : Bool
  pub locked : Bool

-- The static `bcache`, and the device: its block for a device number and a block number, the number of
-- transfers so far, and for the number of a transfer whether it fails, with what it then leaves.
pub record Bcache (D : Type 0) : Type 0 where
  pub bufs : ℕ → Buf D
  pub hash_table : ℕ → List ℕ
  pub lru_list : List ℕ
  pub disk : ℕ → ℕ → D
  pub transfers : ℕ
  pub faults : ℕ → Option D

-- `bcache_hash`; the sum is of 64 bits.
abbrev pub bcache_hash : ℕ → ℕ → ℕ
bcache_hash dev blockno = (dev + blockno) % 2 ^ 64 % bcache_hash_size

-- The numbers below `n`, the last one first, as `list_add` at the head of a list leaves them.
unfoldable pub below : ℕ → List ℕ
below zero = []
below (suc n) = n ∷ below n

-- What the walk of `bcache_evict` finds.
pub data Victim : Type 0 where
  clean : ℕ → Victim
  unclean : ℕ → Victim
  nobody : Victim

module _ {D : Type 0} where
  -- `bcache_init`, over whatever the buffers hold.
  unfoldable pub bcache_init : (ℕ → D) → (ℕ → ℕ → D) → (ℕ → Option D) → Bcache D
  bcache_init held disk faults = record {
    bufs = λ b. record {
      contents = held b;
      blockno = 0;
      dev = 0;
      refcnt = 0;
      dirty = false;
      valid = false;
      locked = false;
    };
    hash_table = λ h. [];
    lru_list = below bcache_size;
    disk = disk;
    transfers = 0;
    faults = faults;
  }

  abbrev pub set_buf : Bcache D → ℕ → Buf D → Bcache D
  set_buf c b x = record c { bufs = λ i. if b == i then x else c.bufs i }

  -- What a transfer of a block leaves where it copies to.
  unfoldable pub transferred : Option D → D → D
  transferred none d = d
  transferred (some x) d = x

  -- `blk_write` of the block of a buffer.
  unfoldable pub write_disk : Bcache D → Buf D → Bcache D
  write_disk c x = record c {
    disk = λ d n.
        if x.dev == d && x.blockno == n
        then transferred (c.faults c.transfers) x.contents
        else c.disk d n;
    transfers = c.transfers + 1;
  }

  -- `spinlock_acquire(&b->lock)`, by a caller that goes on with the buffer; of a lock that is taken
  -- it never returns.
  unfoldable pub lock_buf : Bcache D → ℕ → Option (ℕ × Bcache D)
  lock_buf c b =
      if (c.bufs b).locked
      then none
      else some (b, set_buf c b (record (c.bufs b) { locked = true }))

  -- The test of `bcache_lookup`.
  abbrev pub holds : Bcache D → ℕ → ℕ → ℕ → Bool
  holds c dev blockno b = (c.bufs b).dev == dev && (c.bufs b).blockno == blockno

  -- The walk of `bcache_lookup` along one bucket.
  unfoldable pub lookup_in : Bcache D → ℕ → ℕ → List ℕ → Option ℕ
  lookup_in c dev blockno [] = none
  lookup_in c dev blockno (b ∷ bs) =
      if holds c dev blockno b then some b else lookup_in c dev blockno bs

  unfoldable pub bcache_lookup : Bcache D → ℕ → ℕ → Option ℕ
  bcache_lookup c dev blockno = lookup_in c dev blockno (c.hash_table (bcache_hash dev blockno))

  -- `list_del(&b->hash)`.
  unfoldable pub unhash : Bcache D → ℕ → Bcache D
  unhash c b = record c { hash_table = λ h. list_del b (c.hash_table h) }

  -- The walk of `bcache_evict` from the tail of the list: the first buffer without a reference that is
  -- clean, and if there is none the first one without a reference.
  unfoldable pub victim_of : Bcache D → List ℕ → Victim
  victim_of c [] = nobody
  victim_of c (b ∷ bs) =
      let free = (c.bufs b).refcnt == 0 in
      let stained = (c.bufs b).dirty in
      elim (victim_of c bs) [
        | clean v ↦ clean v
        | unclean v ↦ if free && not stained then clean b else unclean v
        | nobody ↦ if free then (if stained then unclean b else clean b) else nobody
      ]

  -- The end of `bcache_evict`, for a clean buffer and for one that is written back first.
  unfoldable pub evict : Bcache D → Victim → Option (ℕ × Bcache D)
  evict c nobody = none
  evict c (clean b) = some (b, set_buf (unhash c b) b (record (c.bufs b) { valid = false }))
  evict c (unclean b) =
      let x = c.bufs b in
      let c' = unhash c b in
      some (
        b,
        set_buf (write_disk (record c' { lru_list = list_del b c.lru_list }) x) b
            (record x { valid = false; dirty = false }),
      )

  unfoldable pub bcache_evict : Bcache D → Option (ℕ × Bcache D)
  bcache_evict c = evict c (victim_of c c.lru_list)

  -- `list_del` and `list_add` of the node in the LRU list.
  unfoldable pub to_front : Bcache D → ℕ → Bcache D
  to_front c b = record c { lru_list = b ∷ list_del b c.lru_list }

  -- `bcache_get` of a block that is in the cache, up to the lock of the buffer.
  unfoldable pub hit : Bcache D → ℕ → Bcache D
  hit c b =
      set_buf (to_front c b) b (record (c.bufs b) { refcnt = ((c.bufs b).refcnt + 1) % 2 ^ 32 })

  -- `bcache_get` of a block that is not, with the buffer that was evicted, up to its lock.
  unfoldable pub claim : Bcache D → ℕ → ℕ → ℕ → Bcache D
  claim c b dev blockno =
      let c' = set_buf c b (record (c.bufs b) {
        dev = dev;
        blockno = blockno;
        refcnt = 1;
        valid = false;
        dirty = false;
      }) in
      to_front
        (record c' {
          hash_table =
              λ h. if bcache_hash dev blockno == h then b ∷ c.hash_table h else c.hash_table h;
        })
        b

  -- `bcache_get`; `none` is the panic without a free buffer, or the wait for the lock of the buffer.
  unfoldable pub bcache_get : Bcache D → ℕ → ℕ → Option (ℕ × Bcache D)
  bcache_get c dev blockno = elim (bcache_lookup c dev blockno) [
    | some b ↦ lock_buf (hit c b) b
    | none ↦ elim (bcache_evict c) [
      | none ↦ none
      | some e ↦ lock_buf (claim e.1 e.0 dev blockno) e.0
    ]
  ]

  -- The end of `bread`: a buffer that is not valid is filled from the device.
  unfoldable pub fill : Bcache D → ℕ → ℕ → ℕ → Bcache D
  fill c b dev blockno =
      if (c.bufs b).valid
      then c
      else set_buf (record c { transfers = c.transfers + 1 }) b
          (record (c.bufs b) {
            contents = transferred (c.faults c.transfers) (c.disk dev blockno);
            valid = true;
          })

  -- `bread`: the buffer.
  unfoldable pub bread : Bcache D → ℕ → ℕ → Option (ℕ × Bcache D)
  bread c dev blockno = elim (bcache_get c dev blockno) [
    | none ↦ none
    | some g ↦ some (g.0, fill g.1 g.0 dev blockno)
  ]

  -- `bwrite`: the block of the buffer is written to the device.
  unfoldable pub bwrite : Bcache D → ℕ → Bcache D
  bwrite c b =
      let x = c.bufs b in
      if x.valid then set_buf (write_disk c x) b (record x { dirty = false; locked = true }) else c

  -- The store of a caller into the data of a buffer that it holds.
  unfoldable pub modify : Bcache D → ℕ → D → Bcache D
  modify c b d = set_buf c b (record (c.bufs b) { contents = d })

  -- `brelse`. `refcnt` is a `u32`.
  unfoldable pub brelse : Bcache D → ℕ → Bcache D
  brelse c b =
      let n = ((c.bufs b).refcnt + 2 ^ 32 - 1) % 2 ^ 32 in
      let c' = set_buf c b (record (c.bufs b) { refcnt = n; locked = false }) in
      if n == 0 then record c' { lru_list = list_del b c.lru_list ++ b ∷ [] } else c'

  -- The body of the loops of `bcache_flush` and `bcache_sync` for one buffer whose lock is free.
  unfoldable pub write_back : Bcache D → ℕ → Bcache D
  write_back c b =
      let x = c.bufs b in set_buf (write_disk c x) b (record x { dirty = false; locked = false })

  -- The loop of `bcache_flush` over a list; `none` is the wait for the lock of a buffer.
  unfoldable pub flush_list : Bcache D → ℕ → List ℕ → Option (Bcache D)
  flush_list c dev [] = some c
  flush_list c dev (b ∷ bs) =
      let x = c.bufs b in
      let to_write = x.dev == dev && x.dirty in
      let rest = flush_list (if to_write then write_back c b else c) dev bs in
      if to_write && x.locked then none else rest

  unfoldable pub bcache_flush : Bcache D → ℕ → Option (Bcache D)
  bcache_flush c dev = flush_list c dev c.lru_list

  -- The loop of `bcache_sync` over a list; `none` is the wait for the lock of a buffer.
  unfoldable pub sync_list : Bcache D → List ℕ → Option (Bcache D)
  sync_list c [] = some c
  sync_list c (b ∷ bs) =
      let x = c.bufs b in
      let rest = sync_list (if x.dirty then write_back c b else c) bs in
      if x.dirty && x.locked then none else rest

  unfoldable pub bcache_sync : Bcache D → Option (Bcache D)
  bcache_sync c = sync_list c c.lru_list
