-- ===== src/Virtq/Enqueue.antt =====
-- `virtq_add_buf`: a request becomes a chain of descriptors in the available ring.
use yu_noob_kernel.Base.{
  ℕ, ◌+◌, ◌%◌, ◌^◌, ◌<◌, ◌≤◌, ◌≡◌, inl, inr, refl, ap, ◌∙◌, arith, Bool, false, Bool-cases, ltb,
  ◌==◌, ==_refl, if◌then◌else◌, List, [], ◌∷◌, ◌++◌, length, Option, none, some,
}
use yu_noob_kernel.Virtq.{VirtqBuf, Virtq, end_chain, publish, virtq_alloc_desc, virtq_add_buf}
use yu_noob_kernel.Virtq.Free.{IsFree, takes_first, same_frees}
use yu_noob_kernel.Virtq.Chain.{Chain, request}
use yu_noob_kernel.Virtq.Add.{fill_all, loops-fill_all, Filled, fill_all-Filled}

-- A request that was added: its chain has its buffers in order and came from the head of the free
-- list, the token is with the head, and the head is the next entry of the available ring.
pub record Added (vq : Virtq) (ins outs : List VirtqBuf) (token : Option ℕ) (fs : List ℕ) (head : ℕ)
    (vq' : Virtq) : Type 0 where
  pub taken : List ℕ
  pub left : List ℕ
  pub split : fs ≡ (head ∷ taken) ++ left
  pub free : IsFree vq' left
  pub chain : Chain vq'.descs head (request ins outs) (head ∷ taken)
  pub token_kept : vq'.tokens head ≡ token
  pub published : vq'.avail_ring (vq.avail_idx % vq.num) ≡ head
  pub announced : vq'.avail_ring_idx ≡ (vq.avail_idx + 1) % 2 ^ 16
  pub same_used :
      (vq'.used_idx ≡ vq.used_idx) × (vq'.num ≡ vq.num) × (vq'.used_ring_idx ≡ vq.used_ring_idx)

abbrev pub AddOk :
    Virtq → List VirtqBuf → List VirtqBuf → Option ℕ → List ℕ → Virtq × Option ℕ → Type 0
AddOk vq ins outs token fs (vq', some head) = Added vq ins outs token fs head vq'
AddOk vq ins outs token fs (vq', none) = (vq' ≡ vq) × (length fs < length ins + length outs)

length-request : (ins outs : List VirtqBuf) → length (request ins outs) ≡ length ins + length outs
length-request [] [] = refl
length-request [] (b ∷ outs) = omega (arith, length-request [] outs)
length-request (b ∷ ins) outs = omega (arith, length-request ins outs)

-- The queue in which the head has been taken, with its token.
abbrev started : Virtq → ℕ → List ℕ → Option ℕ → Virtq
started vq head fs token = record vq {
  free_head = (vq.descs head).next;
  num_free = length fs;
  tokens = λ i. if head == i then token else vq.tokens i;
}

added :
    (vq : Virtq) (ins outs : List VirtqBuf) (token : Option ℕ) (head : ℕ) (fs : List ℕ)
    (r : Virtq × ℕ) (b : VirtqBuf × Bool) (bs : List (VirtqBuf × Bool))
    → request ins outs ≡ b ∷ bs
    → Filled (started vq head fs token) head (b ∷ bs) fs r
    → Added vq ins outs token (head ∷ fs) head (publish (end_chain r) head)
unfolding publish
added vq ins outs token head fs r b bs e f =
    let idx : (end_chain r).avail_idx ≡ vq.avail_idx = ap (λ v. v.avail_idx) f.rings in
    let num : (end_chain r).num ≡ vq.num = ap (λ v. v.num) f.rings in
    record {
      taken = f.taken;
      left = f.left;
      split = ap (λ xs. head ∷ xs) f.split;
      free =
          same_frees (end_chain r) (publish (end_chain r) head) f.left refl refl (λ c o. refl)
            f.free;
      chain = rw e f.chain;
      token_kept = ap (λ v. v.tokens head) f.rings ∙ rw (==_refl head) refl;
      published = rw (idx, num, ==_refl (vq.avail_idx % vq.num)) refl;
      announced = rw idx refl;
      same_used = (ap (λ v. v.used_idx) f.rings, num, ap (λ v. v.used_ring_idx) f.rings);
    }

run_of :
    (vq : Virtq) (ins outs : List VirtqBuf) (token : Option ℕ) (head : ℕ) (fs : List ℕ)
    (bs : List (VirtqBuf × Bool))
    → request ins outs ≡ bs
    → ltb vq.num_free (length ins + length outs) ≡ false
    → virtq_alloc_desc vq
      ≡ (record vq { free_head = (vq.descs head).next; num_free = length fs }, head)
    → virtq_add_buf vq ins outs token
      ≡ (publish (end_chain (fill_all (started vq head fs token) head bs)) head, some head)
unfolding virtq_add_buf
run_of vq ins outs token head fs bs e n h =
    rw (n, h, virtq_add_buf, ← e)
      (ap (λ r. (publish (end_chain r) head, some head))
        (loops-fill_all (started vq head fs token) head ins outs))

add_by :
    (vq : Virtq) (ins outs : List VirtqBuf) (token : Option ℕ) (fs : List ℕ)
    → IsFree vq fs
    → length ins + length outs ≤ length fs
    → (bs : List (VirtqBuf × Bool)) → request ins outs ≡ bs
    → 0 < length bs
    → AddOk vq ins outs token fs (virtq_add_buf vq ins outs token)
add_by vq ins outs token fs i l [] e p = absurd (omega (arith, p))
add_by vq ins outs token [] i l (b ∷ bs) e p =
    absurd (omega (arith, l, length-request ins outs, ap length e, p))
add_by vq ins outs token (head ∷ fs) i l (b ∷ bs) e p =
    let (v, h, same, free, apart) = takes_first vq head fs i in
    let enough : ltb vq.num_free (length ins + length outs) ≡ false =
      ground (arith, l, i.counted) in
    let started_free : IsFree (started vq head fs token) fs =
      same_frees v (started vq head fs token) fs (rw same refl) (rw same refl) (λ c o. rw same refl)
        free in
    let count : length bs ≤ length fs = omega (arith, l, length-request ins outs, ap length e) in
    let f = fill_all-Filled (started vq head fs token) head b bs fs started_free apart count in
    rw (run_of vq ins outs token head fs (b ∷ bs) e enough (h ∙ ap (λ w. (w, head)) same))
      (added vq ins outs token head fs (fill_all (started vq head fs token) head (b ∷ bs)) b bs e f)

-- `virtq_add_buf` of a request with at least one buffer, on a queue with the free list `fs`: if there
-- are enough free descriptors the request becomes a chain out of them, published in the available
-- ring, and the rest of the list stays free; otherwise nothing changes.
pub virtq_add_buf-AddOk :
    (vq : Virtq) (ins outs : List VirtqBuf) (token : Option ℕ) (fs : List ℕ)
    → IsFree vq fs
    → 0 < length ins + length outs
    → AddOk vq ins outs token fs (virtq_add_buf vq ins outs token)
unfolding virtq_add_buf
virtq_add_buf-AddOk vq ins outs token fs i p =
    elim (Bool-cases (ltb vq.num_free (length ins + length outs))) [
      | inl e ↦ rw e (refl, ground (arith, i.counted))
      | inr e ↦
          add_by vq ins outs token fs i (ground (arith, i.counted)) (request ins outs) refl
            (omega (arith, p, length-request ins outs))
    ]
