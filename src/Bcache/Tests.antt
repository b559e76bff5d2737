-- ===== src/Bcache/Tests.antt =====
-- Runs of the block cache, and the theorems at concrete caches.
use yu_noob_kernel.Base.{
  ℕ, ◌+◌, ◌*◌, ◌≡◌, refl, Bool, true, false, ◌==◌, ◌&&◌, if◌then◌else◌, List, [], ◌∷◌, not, Option,
  none, some,
}
use yu_noob_kernel.Bcache.{
  Buf, Bcache, clean, unclean, bcache_init, bread, brelse, victim_of, bcache_sync, sync_list,
  write_back, bcache_flush, flush_list, write_disk, transferred, bcache_get, bcache_lookup,
  lookup_in, hit, to_front, lock_buf,
}
use yu_noob_kernel.Bcache.Inv.{bcache_init-IsCoherent}
use yu_noob_kernel.Bcache.Get.{Read, bread-Read}
use yu_noob_kernel.Bcache.Spec.{
  Access, read_block, write_block, Resting, perform_all, plain_all, perform_all-plain_all,
  bcache_init-Resting,
}
use yu_noob_kernel.Bcache.Order.{brelse-victim}
use yu_noob_kernel.Bcache.Sync.{Synced, bcache_sync-Synced, bcache_flush-Synced}

abbrev device : ℕ → ℕ → ℕ
device dev blockno = dev * 100 + blockno

-- A device of which no transfer fails.
abbrev no_faults : ℕ → Option ℕ
no_faults n = none

abbrev start : Bcache ℕ
start = bcache_init (λ b. 0) device no_faults

abbrev buffer : ℕ → ℕ → ℕ → Bool → Buf ℕ
buffer contents blockno refcnt dirty = record {
  contents = contents;
  blockno = blockno;
  dev = 1;
  refcnt = refcnt;
  dirty = dirty;
  valid = true;
  locked = not (refcnt == 0);
}

-- Buffer 0 holds block 5 and is in use and locked, buffer 1 holds block 6, stained.
abbrev two_buffers : Bcache ℕ
two_buffers = record {
  bufs = λ b. if b == 0 then buffer 105 5 1 false else buffer 77 6 0 true;
  hash_table = λ h. if h == 6 then 0 ∷ [] else if h == 7 then 1 ∷ [] else [];
  lru_list = 0 ∷ 1 ∷ [];
  disk = device;
  transfers = 0;
  faults = no_faults;
}

abbrev accesses : List (Access ℕ)
accesses = write_block 1 7 42 ∷ read_block 1 7 ∷ read_block 1 71 ∷ []

-- Block 1 of device 7 is in the bucket of block 7 of device 1, and is not taken for it.
reads_back :
    (plain_all device (write_block 1 7 42 ∷ read_block 7 1 ∷ read_block 1 7 ∷ [])).0
    ≡ 42 ∷ 701 ∷ 42 ∷ []
unfolding plain_all
reads_back = refl

-- A free clean buffer is taken before a stained one, which is taken if no other is free.
takes_the_stained : victim_of two_buffers two_buffers.lru_list ≡ unclean 1
unfolding victim_of
takes_the_stained = refl

-- What block 6 of device 1 is on the device behind a run that returns.
abbrev block_six : Option (Bcache ℕ) → Option ℕ
block_six none = none
block_six (some c) = some (c.disk 1 6)

sync_writes : block_six (bcache_sync two_buffers) ≡ some 77
unfolding bcache_sync sync_list write_back write_disk transferred
sync_writes = refl

flush_of_another : block_six (bcache_flush two_buffers 2) ≡ some 106
unfolding bcache_flush flush_list
flush_of_another = refl

-- A write that fails loses the block: the buffer is not dirty any more.
failed_write : block_six (bcache_sync (record two_buffers { faults = λ n. some 13 })) ≡ some 13
unfolding bcache_sync sync_list write_back write_disk transferred
failed_write = refl

-- A second `bread` of a block in use waits for ever for its lock.
second_read : bread two_buffers 1 5 ≡ none
unfolding bread bcache_get bcache_lookup lookup_in hit to_front lock_buf
second_read = refl

bread-Read_example : Read start 1 7 (bread start 1 7)
unfolding bcache_init
bread-Read_example =
    bread-Read start 1 7 (bcache_init-IsCoherent (λ b. 0) device no_faults) (λ n. refl)

perform_all-plain_all_example :
    (c' : Bcache ℕ) × (perform_all start accesses ≡ some ((plain_all start.disk accesses).0, c'))
    × Resting c'
    × (c'.disk ≡ (plain_all start.disk accesses).1)
unfolding bcache_init
perform_all-plain_all_example =
    perform_all-plain_all start accesses (bcache_init-Resting (λ b. 0) device no_faults) (λ n. refl)

brelse-victim_example : victim_of (brelse two_buffers 0) (brelse two_buffers 0).lru_list ≡ clean 0
brelse-victim_example = brelse-victim two_buffers 0 refl refl

sync_run : Synced (λ x. x.dirty) two_buffers two_buffers.lru_list (bcache_sync two_buffers)
sync_run = bcache_sync-Synced two_buffers (λ n. refl)

bcache_flush-Synced_example :
    Synced
      (λ x. x.dev == 1 && x.dirty)
      two_buffers
      two_buffers.lru_list
      (bcache_flush two_buffers 1)
bcache_flush-Synced_example = bcache_flush-Synced two_buffers 1 (λ n. refl)
