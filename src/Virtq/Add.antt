-- ===== src/Virtq/Add.antt =====
-- The loops of `virtq_add_buf`: the chain that they build out of the free list.
use yu_noob_kernel.Base.{
  ℕ, ◌+◌, ◌≤◌, ◌≡◌, refl, sym, ap, ◌∙◌, arith, Bool, true, false, not, ==_refl, here_or_else,
  if◌then◌else◌, ◌||◌, List, [], ◌∷◌, ◌++◌, map, length, occurs, occurs-append,
}
use yu_noob_kernel.Virtq.{
  VirtqBuf, Virtq, set_desc, fill_desc, link_desc, is_empty, in_loop, out_loop, end_chain,
}
use yu_noob_kernel.Virtq.Free.{IsFree, same_frees, takes_first}
use yu_noob_kernel.Virtq.Chain.{Chain, last, more, request}

abbrev is_nil : List (VirtqBuf × Bool) → Bool
is_nil [] = true
is_nil (b ∷ bs) = false

-- Both loops as one, over the buffers of the request.
unfoldable pub fill_all : Virtq → ℕ → List (VirtqBuf × Bool) → Virtq × ℕ
fill_all vq prev [] = (vq, prev)
fill_all vq prev (b ∷ bs) =
    let v = fill_desc vq prev b.0 b.1 in
    let step : Virtq × ℕ = if not (is_nil bs) then link_desc v prev else (v, prev) in
    fill_all step.0 step.1 bs

-- The rest of `fill_all` behind one buffer, where the flag says whether there is another.
abbrev filled_on : Virtq → ℕ → Bool → List (VirtqBuf × Bool) → Virtq × ℕ
filled_on v prev another bs =
    let step : Virtq × ℕ = if another then link_desc v prev else (v, prev) in
    fill_all step.0 step.1 bs

nil_outs : (bs : List VirtqBuf) → is_nil (map (λ b. (b, true)) bs) ≡ is_empty bs
nil_outs [] = refl
nil_outs (b ∷ bs) = refl

nil_request :
    (ins outs : List VirtqBuf)
    → not (is_nil (request ins outs)) ≡ (not (is_empty ins) || not (is_empty outs))
nil_request [] outs = rw (nil_outs outs) refl
nil_request (b ∷ ins) outs = refl

outs-fill_all :
    (vq : Virtq) (prev : ℕ) (bs : List VirtqBuf)
    → out_loop vq prev bs ≡ fill_all vq prev (map (λ b. (b, true)) bs)
unfolding out_loop fill_all
outs-fill_all vq prev [] = refl
outs-fill_all vq prev (b ∷ bs) =
    let v = fill_desc vq prev b true in
    let step : Virtq × ℕ = if not (is_empty bs) then link_desc v prev else (v, prev) in
    outs-fill_all step.0 step.1 bs
    ∙ ap (λ e. filled_on v prev (not e) (map (λ b. (b, true)) bs)) (sym (nil_outs bs))

pub loops-fill_all :
    (vq : Virtq) (prev : ℕ) (ins outs : List VirtqBuf)
    → out_loop
        (in_loop vq prev ins (not (is_empty outs))).0
        (in_loop vq prev ins (not (is_empty outs))).1
        outs
      ≡ fill_all vq prev (request ins outs)
unfolding in_loop fill_all
loops-fill_all vq prev [] outs = outs-fill_all vq prev outs
loops-fill_all vq prev (b ∷ ins) outs =
    let v = fill_desc vq prev b false in
    let step : Virtq × ℕ =
      if not (is_empty ins) || not (is_empty outs) then link_desc v prev else (v, prev) in
    loops-fill_all step.0 step.1 ins outs
    ∙ ap (λ e. filled_on v prev e (request ins outs)) (sym (nil_request ins outs))

-- Nothing but descriptors and the free list differs.
abbrev pub with_descs : Virtq → Virtq → Virtq
with_descs vq v = record vq { descs = v.descs; free_head = v.free_head; num_free = v.num_free }

-- The queue in which the descriptor `n` has been taken and linked behind `prev`.
abbrev linked_queue : Virtq → ℕ → ℕ → List ℕ → Virtq
linked_queue v prev n fs =
    set_desc (record v { free_head = (v.descs n).next; num_free = length fs }) prev
      (record (v.descs prev) { has_next = true; next = n })

takes_next :
    (v : Virtq) (prev n : ℕ) (fs : List ℕ)
    → IsFree v (n ∷ fs)
    → occurs prev (n ∷ fs) ≡ 0
    → (link_desc v prev ≡ (linked_queue v prev n fs, n))
      × IsFree (linked_queue v prev n fs) fs
      × (occurs n fs ≡ 0)
unfolding link_desc occurs
takes_next v prev n fs i o =
    let (a, h, same, free, apart) = takes_first v n fs i in
    (
      rw (h, same) refl,
      same_frees a (linked_queue v prev n fs) fs (rw same refl) (rw same refl)
          (here_or_else prev (λ p. absurd (omega (arith, o, p))) (λ c s p. rw (same, s) refl)) free,
      apart,
    )

-- What the loops leave behind from one descriptor on: the rest of the chain came from the head of the
-- free list, and nothing else has changed.
pub record Filled (vq : Virtq) (prev : ℕ) (bs : List (VirtqBuf × Bool)) (fs : List ℕ)
    (r : Virtq × ℕ) : Type 0 where
  pub taken : List ℕ
  pub left : List ℕ
  pub split : fs ≡ taken ++ left
  pub free : IsFree (end_chain r) left
  pub chain : Chain (end_chain r).descs prev bs (prev ∷ taken)
  pub counted : length taken + 1 ≡ length bs
  pub others : (x : ℕ) → occurs x (prev ∷ taken) ≡ 0 → (end_chain r).descs x ≡ vq.descs x
  pub rings : end_chain r ≡ with_descs vq (end_chain r)

one_buffer :
    (vq : Virtq) (prev : ℕ) (b : VirtqBuf × Bool) (fs : List ℕ)
    → IsFree vq fs
    → occurs prev fs ≡ 0
    → Filled vq prev (b ∷ []) fs (fill_all vq prev (b ∷ []))
unfolding fill_all occurs
one_buffer vq prev b fs i o = record {
  taken = [];
  left = fs;
  split = refl;
  free =
      same_frees vq _ fs refl refl
        (here_or_else prev (λ p. absurd (omega (arith, o, p))) (λ c s p. rw s refl)) i;
  chain = last prev b (rw (==_refl prev) refl);
  counted = refl;
  others = here_or_else prev (λ p. absurd (ground (arith, p, ==_refl prev))) (λ c s p. rw s refl);
  rings = refl;
}

-- One descriptor more in front of what the loops leave.
one_more :
    (vq : Virtq) (prev n : ℕ) (b : VirtqBuf × Bool) (bs : List (VirtqBuf × Bool)) (fs : List ℕ)
    (r : Virtq × ℕ)
    → occurs prev (n ∷ fs) ≡ 0
    → Filled (linked_queue (fill_desc vq prev b.0 b.1) prev n fs) n bs fs r
    → Filled vq prev (b ∷ bs) (n ∷ fs) r
unfolding occurs
one_more vq prev n b bs fs r o f =
    let split = f.split in
    let absent : occurs prev (n ∷ f.taken) ≡ 0 =
      omega (arith, o, ap (occurs prev) split, occurs-append prev f.taken f.left) in
    record {
      taken = n ∷ f.taken;
      left = f.left;
      split = ap (λ xs. n ∷ xs) split;
      free = f.free;
      chain =
          more prev n b bs (n ∷ f.taken) (f.others prev absent ∙ rw (==_refl prev) refl) f.chain;
      counted = omega (arith, f.counted);
      others =
          here_or_else prev (λ p. absurd (ground (arith, p, ==_refl prev)))
            (λ x s p. f.others x (omega (arith, p)) ∙ rw s refl);
      rings = f.rings;
    }

-- The loops from one descriptor on, which is not free, with enough free descriptors.
pub fill_all-Filled :
    (vq : Virtq) (prev : ℕ) (b : VirtqBuf × Bool) (bs : List (VirtqBuf × Bool)) (fs : List ℕ)
    → IsFree vq fs
    → occurs prev fs ≡ 0
    → length bs ≤ length fs
    → Filled vq prev (b ∷ bs) fs (fill_all vq prev (b ∷ bs))
unfolding fill_all
fill_all-Filled vq prev b [] fs i o l = one_buffer vq prev b fs i o
fill_all-Filled vq prev b (b' ∷ bs) [] i o l = absurd (omega (arith, l))
fill_all-Filled vq prev b (b' ∷ bs) (n ∷ fs) i o l =
    let v = fill_desc vq prev b.0 b.1 in
    let kept : IsFree v (n ∷ fs) =
      same_frees vq v (n ∷ fs) refl refl
        (here_or_else prev (λ p. absurd (omega (arith, o, p))) (λ c s p. rw s refl)) i in
    let (h, free, apart) = takes_next v prev n fs kept o in
    let f = fill_all-Filled (linked_queue v prev n fs) n b' bs fs free apart (omega (arith, l)) in
    rw h (one_more vq prev n b (b' ∷ bs) fs _ o f)
