-- ===== src/Virtq/Tests.antt =====
-- The theorems about src/hal/virtio/virtq.c at a queue of four descriptors.
use yu_noob_kernel.Base.{
  ℕ, ◌+◌, ◌-◌, ◌%◌, ◌^◌, ◌<◌, ◌≤◌, ◌≡◌, refl, arith, true, false, not, ◌==◌, if◌then◌else◌, List,
  [], ◌∷◌, none, some, occurs,
}
use yu_noob_kernel.Virtq.{
  VirtqBuf, Virtq, virtq_create, virtq_alloc_desc, link_desc, in_loop, out_loop, publish,
  virtq_add_buf, virtq_get_buf, free_chain,
}
use yu_noob_kernel.Virtq.Free.{IsFree, Linked}
use yu_noob_kernel.Virtq.Chain.{Chain, last, more, request}
use yu_noob_kernel.Virtq.Release.{Released, free_chain-Released}
use yu_noob_kernel.Virtq.Create.{from_on, virtq_create-IsFree}
use yu_noob_kernel.Virtq.Enqueue.{AddOk, virtq_add_buf-AddOk}
use yu_noob_kernel.Virtq.RoundTrip.{device_uses, add-get}

abbrev four : Virtq
four = record {
  descs = λ i. record {
    addr = 0;
    len = 0;
    has_next = not (i == 4 - 1);
    write = false;
    next = if i == 4 - 1 then 0 else (i + 1) % 4;
  };
  avail_ring = λ i. 0;
  avail_ring_idx = 0;
  used_ring = λ i. record { id = 0; len = 0 };
  used_ring_idx = 0;
  num = 4;
  free_head = 0;
  num_free = 4;
  avail_idx = 0;
  used_idx = 0;
  tokens = λ i. none;
}

four_created : IsFree four (from_on 0 4) × (four.used_idx ≡ four.used_ring_idx)
four_created = virtq_create-IsFree 4 true true {vq = four} (omega arith) made
  where
    made : virtq_create 4 true true ≡ some four
    made = unfold virtq_create in refl

abbrev four_free : List ℕ
four_free = 0 ∷ 1 ∷ 2 ∷ 3 ∷ []

four-IsFree : IsFree four four_free
unfolding from_on
four-IsFree = four_created.0

abbrev header : VirtqBuf
header = record { addr = 0x1000; len = 16 }

abbrev block : VirtqBuf
block = record { addr = 0x2000; len = 512 }

abbrev status : VirtqBuf
status = record { addr = 0x3000; len = 1 }

abbrev queued : Virtq
queued = (virtq_add_buf four (header ∷ []) (block ∷ status ∷ []) (some 7)).0

one_is_left : queued.num_free ≡ 1
unfolding virtq_add_buf virtq_alloc_desc in_loop out_loop link_desc publish
one_is_left = refl

last_writes : (queued.descs 2).write ≡ true
unfolding virtq_add_buf virtq_alloc_desc in_loop out_loop link_desc publish
last_writes = refl

virtq_add_buf-AddOk_example :
    AddOk four
      (header ∷ [])
      (block ∷ status ∷ [])
      (some 7)
      four_free
      (virtq_add_buf four (header ∷ []) (block ∷ status ∷ []) (some 7))
virtq_add_buf-AddOk_example =
    virtq_add_buf-AddOk four (header ∷ []) (block ∷ status ∷ []) (some 7) four_free four-IsFree
      (omega arith)

four_small : (x : ℕ) → 0 < occurs x four_free → x < 2 ^ 16
unfolding occurs
four_small x h = ground (arith, h)

add-get_example :
    (vq : Virtq) × (frees : List ℕ) × (virtq_get_buf 4 (device_uses queued 0 513)
      ≡ some (vq, some (some 7, 513)))
    × IsFree vq frees
    × ((x : ℕ) → occurs x frees ≡ occurs x four_free)
    × (vq.num_free ≡ four.num_free)
    × (vq.used_idx ≡ vq.used_ring_idx)
add-get_example =
    add-get four queued (header ∷ []) (block ∷ status ∷ []) (some 7) four_free 0 513 4 four-IsFree
      (omega arith) four_small (omega arith) refl (omega arith) (omega arith) added
  where
    added : virtq_add_buf four (header ∷ []) (block ∷ status ∷ []) (some 7) ≡ (queued, some 0)
    added = unfold virtq_add_buf virtq_alloc_desc in_loop out_loop link_desc publish in refl

queued-Chain : Chain queued.descs 0 (request (header ∷ []) (block ∷ status ∷ [])) (0 ∷ 1 ∷ 2 ∷ [])
unfolding virtq_add_buf virtq_alloc_desc in_loop out_loop link_desc publish
queued-Chain =
    more 0 1 (header, false) ((block, true) ∷ (status, true) ∷ []) (1 ∷ 2 ∷ []) refl
      (more 1 2 (block, true) ((status, true) ∷ []) (2 ∷ []) refl (last 2 (status, true) refl))

queued-IsFree : IsFree queued (3 ∷ [])
unfolding virtq_add_buf virtq_alloc_desc in_loop out_loop link_desc publish Linked occurs
queued-IsFree = record { linked = (refl, tt); counted = refl; distinct = λ x. ground arith }

three_distinct : (x : ℕ) → occurs x (0 ∷ 1 ∷ 2 ∷ []) + occurs x (3 ∷ []) ≤ 1
unfolding occurs
three_distinct x = ground arith

free_chain-Released_example :
    (vq : Virtq) × (free_chain 3 queued 0 ≡ some vq) × Released queued (0 ∷ 1 ∷ 2 ∷ []) (3 ∷ []) vq
free_chain-Released_example =
    free_chain-Released 3 queued 0 (request (header ∷ []) (block ∷ status ∷ [])) (0 ∷ 1 ∷ 2 ∷ [])
      (3 ∷ []) queued-Chain queued-IsFree three_distinct (omega arith) (omega arith)
