-- ===== src/Virtq/Release.antt =====
-- `virtq_get_buf`: the chain of a finished request goes back to the free list.
use yu_noob_kernel.Base.{
  ℕ, zero, suc, ◌+◌, ◌^◌, ◌<◌, ◌≤◌, ◌≡◌, refl, ap, ◌∙◌, arith, Bool, true, ==_refl, here_or_else,
  List, ◌∷◌, length, some, occurs,
}
use yu_noob_kernel.Virtq.{Desc, VirtqBuf, Virtq, virtq_free_desc, free_chain}
use yu_noob_kernel.Virtq.Free.{IsFree, returns_first}
use yu_noob_kernel.Virtq.Chain.{Chain, last, more, desc_of, kept_outside}

-- A queue behind the release of the chain `cs`: the free list has these descriptors and the ones that
-- it had, and nothing but descriptors and the free list has changed.
pub record Released (vq : Virtq) (cs fs : List ℕ) (v : Virtq) : Type 0 where
  pub frees : List ℕ
  pub free : IsFree v frees
  pub same_set : (x : ℕ) → occurs x frees ≡ occurs x cs + occurs x fs
  pub size : length frees ≡ length cs + length fs
  pub rings : v ≡ record vq { descs = v.descs; free_head = v.free_head; num_free = v.num_free }

rings_kept :
    (vq : Virtq) (c : ℕ) (v : Virtq)
    → v ≡ record (virtq_free_desc vq c) {
      descs = v.descs;
      free_head = v.free_head;
      num_free = v.num_free;
    }
    → v ≡ record vq { descs = v.descs; free_head = v.free_head; num_free = v.num_free }
unfolding virtq_free_desc
rings_kept vq c v h = h

goes_on :
    (fuel : ℕ) (vq : Virtq) (c n : ℕ) (d : Desc)
    → vq.descs c ≡ d
    → d.has_next ≡ true
    → d.next ≡ n
    → free_chain (suc fuel) vq c ≡ free_chain fuel (virtq_free_desc vq c) n
unfolding free_chain
goes_on fuel vq c n d e t h =
    let at_c : (vq.descs c).has_next ≡ true = ap (λ x. x.has_next) e ∙ t in
    let next : (vq.descs c).next ≡ n = ap (λ x. x.next) e ∙ h in rw (at_c, next) refl

-- The loop of `virtq_get_buf` that frees a chain ends on a chain of distinct descriptors that are not
-- free, in as many rounds as the chain is long, and frees these descriptors. The chain and the free
-- descriptors are fewer than 2^16 together.
pub free_chain-Released :
    (fuel : ℕ) (vq : Virtq) (h : ℕ) (bs : List (VirtqBuf × Bool)) (cs fs : List ℕ)
    → Chain vq.descs h bs cs
    → IsFree vq fs
    → ((x : ℕ) → occurs x cs + occurs x fs ≤ 1)
    → length cs + length fs < 2 ^ 16
    → length cs ≤ fuel
    → (v : Virtq) × (free_chain fuel vq h ≡ some v) × Released vq cs fs v
unfolding free_chain occurs
free_chain-Released zero vq _ _ _ fs (last c b e) i o s l = absurd (omega (arith, l))
free_chain-Released zero vq _ _ _ fs (more c n b bs cs e k) i o s l = absurd (omega (arith, l))
free_chain-Released (suc fuel) vq _ _ _ fs (last c b e) i o s l =
    let absent : occurs c fs ≡ 0 = ground (arith, o c, ==_refl c) in
    (
      virtq_free_desc vq c,
      rw (e, free_chain) refl,
      record {
        frees = c ∷ fs;
        free = returns_first vq c fs i absent (omega (arith, s));
        same_set = λ x. omega arith;
        size = omega arith;
        rings = unfold virtq_free_desc in refl;
      },
    )
free_chain-Released (suc fuel) vq _ _ _ fs (more c n b bs cs e k) i o s l =
    let absent : occurs c fs ≡ 0 = ground (arith, o c, ==_refl c) in
    let apart : occurs c cs ≡ 0 = ground (arith, o c, ==_refl c) in
    let w = virtq_free_desc vq c in
    let rest : Chain w.descs n bs cs =
      kept_outside vq.descs w.descs n bs cs
        (here_or_else c (λ p. absurd (omega (arith, p, apart)))
          (λ x d p. unfold virtq_free_desc in rw d refl))
        k in
    let (v, h, r) =
      free_chain-Released fuel w n bs cs (c ∷ fs) rest
        (returns_first vq c fs i absent (omega (arith, s))) (λ x. omega (arith, o x))
        (omega (arith, s)) (omega (arith, l)) in
    (
      v,
      goes_on fuel vq c n (desc_of b true n) e refl refl ∙ h,
      record {
        frees = r.frees;
        free = r.free;
        same_set = λ x. omega (arith, r.same_set x);
        size = omega (arith, r.size);
        rings = rings_kept vq c v r.rings;
      },
    )
