-- ===== src/Virtq.antt =====
-- src/hal/virtio/virtq.c and its structs in include/hal/virtio.h: a queue of requests to a device. The
-- flags of a descriptor are two Booleans, NEXT and WRITE. An address is a number, a token is NULL or a
-- number. A function holds the lock of the queue, and the device changes its ring only in between two
-- calls.
pub mod Free
pub mod Chain
pub mod Create
pub mod Add
pub mod Enqueue
pub mod Release
pub mod RoundTrip
mod Tests
use yu_noob_kernel.Base.{
  ℕ, zero, suc, ◌+◌, ◌-◌, ◌%◌, ◌^◌, Bool, true, false, not, ltb, ◌==◌, if◌then◌else◌, ◌||◌, List,
  [], ◌∷◌, Option, none, some, length,
}

-- `struct virtq_desc`.
pub record Desc : Type 0 where
  pub addr : ℕ
  pub len : ℕ
  pub has_next : Bool
  pub write : Bool
  pub next : ℕ

-- `struct virtq_buf`.
pub record VirtqBuf : Type 0 where
  pub addr : ℕ
  pub len : ℕ

-- `struct virtq_used_elem`.
pub record UsedElem : Type 0 where
  pub id : ℕ
  pub len : ℕ

-- `struct virtq`, with the three rings that it points to.
pub record Virtq : Type 0 where
  pub descs : ℕ → Desc
  pub avail_ring : ℕ → ℕ
  pub avail_ring_idx : ℕ
  pub used_ring : ℕ → UsedElem
  pub used_ring_idx : ℕ
  pub num : ℕ
  pub free_head : ℕ
  pub num_free : ℕ
  pub avail_idx : ℕ
  pub used_idx : ℕ
  pub tokens : ℕ → Option ℕ

-- `virtq_create`, where the flags say whether the two allocations find memory; `num` is not 0.
unfoldable pub virtq_create : ℕ → Bool → Bool → Option Virtq
virtq_create num ring_mem mem =
    if not ring_mem || not mem
    then none
    else some (record {
      descs = λ i. record {
        addr = 0;
        len = 0;
        has_next = not (i == num - 1);
        write = false;
        next = if i == num - 1 then 0 else (i + 1) % num;
      };
      avail_ring = λ i. 0;
      avail_ring_idx = 0;
      used_ring = λ i. record { id = 0; len = 0 };
      used_ring_idx = 0;
      num = num;
      free_head = 0;
      num_free = num;
      avail_idx = 0;
      used_idx = 0;
      tokens = λ i. none;
    })

abbrev pub set_desc : Virtq → ℕ → Desc → Virtq
set_desc vq i d = record vq { descs = λ j. if i == j then d else vq.descs j }

-- `virtq_alloc_desc`; 65535 is -1 as a `u16`.
unfoldable pub virtq_alloc_desc : Virtq → Virtq × ℕ
virtq_alloc_desc vq = if vq.num_free == 0 then (vq, 65535) else (
  record vq { free_head = (vq.descs vq.free_head).next; num_free = vq.num_free - 1 },
  vq.free_head,
)

-- `virtq_free_desc`. `num_free` is a `u16`.
unfoldable pub virtq_free_desc : Virtq → ℕ → Virtq
virtq_free_desc vq idx =
    record (set_desc vq idx
      (record { addr = 0; len = 0; has_next = true; write = false; next = vq.free_head })) {
        free_head = idx;
        num_free = (vq.num_free + 1) % 2 ^ 16;
      }

-- The address, the length and the flags of one descriptor in the loops of `virtq_add_buf`.
abbrev pub fill_desc : Virtq → ℕ → VirtqBuf → Bool → Virtq
fill_desc vq prev b write =
    set_desc vq prev
      (record (vq.descs prev) { addr = b.addr; len = b.len; has_next = false; write = write })

-- The next descriptor of the chain in these loops.
unfoldable pub link_desc : Virtq → ℕ → Virtq × ℕ
link_desc vq prev =
    let a = virtq_alloc_desc vq in
    (set_desc a.0 prev (record (a.0.descs prev) { has_next = true; next = a.1 }), a.1)

abbrev pub is_empty : List VirtqBuf → Bool
is_empty [] = true
is_empty (b ∷ bs) = false

-- The first loop of `virtq_add_buf`; the flag is `n_out > 0`.
unfoldable pub in_loop : Virtq → ℕ → List VirtqBuf → Bool → Virtq × ℕ
in_loop vq prev [] more = (vq, prev)
in_loop vq prev (b ∷ bs) more =
    let v = fill_desc vq prev b false in
    let step : Virtq × ℕ = if not (is_empty bs) || more then link_desc v prev else (v, prev) in
    in_loop step.0 step.1 bs more

-- The second loop.
unfoldable pub out_loop : Virtq → ℕ → List VirtqBuf → Virtq × ℕ
out_loop vq prev [] = (vq, prev)
out_loop vq prev (b ∷ bs) =
    let v = fill_desc vq prev b true in
    let step : Virtq × ℕ = if not (is_empty bs) then link_desc v prev else (v, prev) in
    out_loop step.0 step.1 bs

-- The end of the chain.
abbrev pub end_chain : Virtq × ℕ → Virtq
end_chain (vq, prev) = set_desc vq prev (record (vq.descs prev) { has_next = false; next = 0 })

-- The chain goes into the available ring.
unfoldable pub publish : Virtq → ℕ → Virtq
publish vq head = record vq {
  avail_ring = λ i. if vq.avail_idx % vq.num == i then head else vq.avail_ring i;
  avail_idx = (vq.avail_idx + 1) % 2 ^ 16;
  avail_ring_idx = (vq.avail_idx + 1) % 2 ^ 16;
}

-- `virtq_add_buf`; none is -1.
unfoldable pub virtq_add_buf : Virtq → List VirtqBuf → List VirtqBuf → Option ℕ → Virtq × Option ℕ
virtq_add_buf vq in_bufs out_bufs token =
    let a = virtq_alloc_desc vq in
    let head = a.1 in
    let started : Virtq = record a.0 { tokens = λ i. if head == i then token else vq.tokens i } in
    let ins = in_loop started head in_bufs (not (is_empty out_bufs)) in
    let outs = out_loop ins.0 ins.1 out_bufs in
    if ltb vq.num_free (length in_bufs + length out_bufs)
    then (vq, none)
    else (publish (end_chain outs) head, some head)

-- The loop of `virtq_get_buf` that frees a chain, in so many rounds.
unfoldable pub free_chain : ℕ → Virtq → ℕ → Option Virtq
free_chain zero vq head = none
free_chain (suc fuel) vq head =
    let rest = free_chain fuel (virtq_free_desc vq head) (vq.descs head).next in
    if (vq.descs head).has_next then rest else some (virtq_free_desc vq head)

-- The part of `virtq_get_buf` behind the entry of the used ring.
unfoldable pub take_used : ℕ → Virtq → UsedElem → Option (Virtq × Option (Option ℕ × ℕ))
take_used fuel vq e =
    let head = e.id % 2 ^ 16 in
    let taken : Virtq = record vq { tokens = λ i. if head == i then none else vq.tokens i } in
    elim (free_chain fuel taken head) [
      | none ↦ none
      | some v ↦
          some (record v { used_idx = (v.used_idx + 1) % 2 ^ 16 }, some (vq.tokens head, e.len))
    ]

-- `virtq_get_buf`: the token and the length, or NULL. The outer none is a chain that is not at its end
-- after so many rounds.
unfoldable pub virtq_get_buf : ℕ → Virtq → Option (Virtq × Option (Option ℕ × ℕ))
virtq_get_buf fuel vq =
    if vq.used_idx == vq.used_ring_idx
    then some (vq, none)
    else take_used fuel vq (vq.used_ring (vq.used_idx % vq.num))

abbrev pub virtq_has_buf : Virtq → Bool
virtq_has_buf vq = not (vq.used_idx == vq.used_ring_idx)

abbrev pub virtq_desc_count : Virtq → ℕ
virtq_desc_count vq = (vq.num + 2 ^ 16 - vq.num_free) % 2 ^ 16
