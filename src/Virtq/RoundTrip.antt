-- ===== src/Virtq/RoundTrip.antt =====
-- A request from `virtq_add_buf` over the device to `virtq_get_buf`.
use yu_noob_kernel.Base.{
  ℕ, ◌+◌, ◌%◌, ◌^◌, ◌<◌, ◌≤◌, ◌≡◌, refl, sym, ap, ◌∙◌, arith, false, ◌==◌, ==_refl, if◌then◌else◌,
  List, ◌∷◌, length, length-append, Option, none, some, occurs, occurs-append,
}
use yu_noob_kernel.Virtq.{VirtqBuf, Virtq, free_chain, virtq_add_buf, virtq_get_buf, take_used}
use yu_noob_kernel.Virtq.Free.{IsFree, same_frees}
use yu_noob_kernel.Virtq.Chain.{request}
use yu_noob_kernel.Virtq.Enqueue.{Added, virtq_add_buf-AddOk}
use yu_noob_kernel.Virtq.Release.{Released, free_chain-Released}

-- The device has finished the chain of a head: it puts the next entry into the used ring.
abbrev pub device_uses : Virtq → ℕ → ℕ → Virtq
device_uses vq head len = record vq {
  used_ring = λ i.
      if vq.used_ring_idx % vq.num == i then record { id = head; len = len } else vq.used_ring i;
  used_ring_idx = (vq.used_ring_idx + 1) % 2 ^ 16;
}

-- The queue in which the token of the head has been taken.
abbrev without_token : Virtq → ℕ → Virtq
without_token vq head = record vq { tokens = λ i. if head == i then none else vq.tokens i }

get_by :
    (fuel : ℕ) (vq v : Virtq) (head len : ℕ)
    → vq.used_idx ≡ vq.used_ring_idx
    → vq.used_idx < 2 ^ 16
    → head < 2 ^ 16
    → free_chain fuel (without_token (device_uses vq head len) head) head ≡ some v
    → virtq_get_buf fuel (device_uses vq head len)
      ≡ some (record v { used_idx = (v.used_idx + 1) % 2 ^ 16 }, some (vq.tokens head, len))
unfolding virtq_get_buf take_used
get_by fuel vq v head len u s l h =
    let moved : (vq.used_idx == (vq.used_ring_idx + 1) % 2 ^ 16) ≡ false = ground (arith, u, s) in
    let small : head % 2 ^ 16 ≡ head = omega (arith, l) in
    let entry : (device_uses vq head len).used_ring (vq.used_idx % vq.num)
        ≡ record { id = head; len = len } =
      rw (u, ==_refl (vq.used_ring_idx % vq.num)) refl in
    rw (moved, virtq_get_buf)
      (ap (take_used fuel (device_uses vq head len)) entry
        ∙ rw (small, h, take_used) (rw small refl))

-- The chain of a request that was added, given back.
given_back :
    (vq v1 : Virtq) (ins outs : List VirtqBuf) (token : Option ℕ) (fs : List ℕ) (head len fuel : ℕ)
    → IsFree vq fs
    → length fs < 2 ^ 16
    → length fs ≤ fuel
    → (a : Added vq ins outs token fs head v1)
    → (v : Virtq) × (free_chain fuel (without_token (device_uses v1 head len) head) head ≡ some v)
      × Released (without_token (device_uses v1 head len) head) (head ∷ a.taken) a.left v
given_back vq v1 ins outs token fs head len fuel i s l a =
    let t = without_token (device_uses v1 head len) head in
    let size : length fs ≡ length (head ∷ a.taken) + length a.left =
      ap length a.split ∙ length-append (head ∷ a.taken) a.left in
    free_chain-Released fuel t head (request ins outs) (head ∷ a.taken) a.left a.chain
      (same_frees v1 t a.left refl refl (λ c o. refl) a.free)
      (λ x.
        omega (arith, i.distinct x, ap (occurs x) a.split, occurs-append x (head ∷ a.taken) a.left))
      (omega (arith, s, size)) (omega (arith, l, size))

-- A request that `virtq_add_buf` has queued, on a queue without finished requests: once the device
-- has put its head into the used ring, `virtq_get_buf` returns its token and the length that the
-- device gave, in at most as many rounds as there were free descriptors, and the same descriptors are
-- free as before. The request has a buffer, and the free descriptors are below 2^16.
pub add-get :
    (vq v1 : Virtq) (ins outs : List VirtqBuf) (token : Option ℕ) (fs : List ℕ) (head len fuel : ℕ)
    → IsFree vq fs
    → 0 < length ins + length outs
    → ((x : ℕ) → 0 < occurs x fs → x < 2 ^ 16)
    → length fs < 2 ^ 16
    → vq.used_idx ≡ vq.used_ring_idx
    → vq.used_idx < 2 ^ 16
    → length fs ≤ fuel
    → virtq_add_buf vq ins outs token ≡ (v1, some head)
    → (v2 : Virtq) × (frees : List ℕ) × (virtq_get_buf fuel (device_uses v1 head len)
        ≡ some (v2, some (token, len)))
      × IsFree v2 frees
      × ((x : ℕ) → occurs x frees ≡ occurs x fs)
      × (v2.num_free ≡ vq.num_free)
      × (v2.used_idx ≡ v2.used_ring_idx)
unfolding occurs
add-get vq v1 ins outs token fs head len fuel i p below s u w l h =
    let a : Added vq ins outs token fs head v1 =
      rw h at (virtq_add_buf-AddOk vq ins outs token fs i p) in
    let (v, done, r) = given_back vq v1 ins outs token fs head len fuel i s l a in
    let (same_used, same_num, same_ring) = a.same_used in
    let set : (x : ℕ) → occurs x fs ≡ occurs x (head ∷ a.taken) + occurs x a.left =
      λ x. ap (occurs x) a.split ∙ occurs-append x (head ∷ a.taken) a.left in
    let small : head < 2 ^ 16 = below head (rw (set head, ==_refl head) (omega arith)) in
    let v2 : Virtq = record v { used_idx = (v.used_idx + 1) % 2 ^ 16 } in
    let free : IsFree v2 r.frees = same_frees v v2 r.frees refl refl (λ c o. refl) r.free in
    let size : length fs ≡ length (head ∷ a.taken) + length a.left =
      ap length a.split ∙ length-append (head ∷ a.taken) a.left in
    let idx : v.used_idx ≡ v1.used_idx = ap (λ q. q.used_idx) r.rings in
    let ring : v.used_ring_idx ≡ (v1.used_ring_idx + 1) % 2 ^ 16 =
      ap (λ q. q.used_ring_idx) r.rings in
    (
      v2,
      r.frees,
      get_by fuel v1 v head len (rw (same_used, same_ring) u) (rw same_used w) small done
          ∙ ap (λ t. some (v2, some (t, len))) a.token_kept,
      free,
      (λ x. r.same_set x ∙ sym (set x)),
      free.counted ∙ r.size ∙ sym size ∙ sym i.counted,
      rw (idx, ring, same_used, same_ring, u) refl,
    )
