-- ===== src/Virtq/Free.antt =====
-- The free list of descriptors.
use yu_noob_kernel.Base.{
  ℕ, suc, ◌+◌, ◌-◌, ◌^◌, ◌<◌, ◌≤◌, ◌≡◌, refl, ◌∙◌, arith, false, ◌==◌, ==_refl, here_or_else, List,
  [], ◌∷◌, length, occurs,
}
use yu_noob_kernel.Virtq.{Desc, Virtq, virtq_alloc_desc, virtq_free_desc}

-- The descriptors of a list are linked in its order, from the given one on.
unfoldable pub Linked : (ℕ → Desc) → ℕ → List ℕ → Type 0
Linked d h [] = Unit {0}
Linked d h (c ∷ cs) = (h ≡ c) × Linked d (d c).next cs

-- Links outside of which descriptors change.
pub links_kept :
    (d d' : ℕ → Desc) (h : ℕ) (cs : List ℕ)
    → ((c : ℕ) → 0 < occurs c cs → (d' c).next ≡ (d c).next)
    → Linked d h cs
    → Linked d' h cs
unfolding Linked occurs
links_kept d d' h [] s l = tt
links_kept d d' h (c ∷ cs) s (e, l) = (
  e,
  rw (s c (rw (==_refl c) (omega arith)))
      (links_kept d d' (d c).next cs (λ x o. s x (omega (arith, o))) l),
)

-- The free descriptors: they are linked from `free_head` on, counted by `num_free`, and distinct.
pub record IsFree (vq : Virtq) (fs : List ℕ) : Type 0 where
  pub linked : Linked vq.descs vq.free_head fs
  pub counted : vq.num_free ≡ length fs
  pub distinct : (c : ℕ) → occurs c fs ≤ 1

-- A queue with the same free list in which no free descriptor has changed.
pub same_frees :
    (vq vq' : Virtq) (fs : List ℕ)
    → vq'.free_head ≡ vq.free_head
    → vq'.num_free ≡ vq.num_free
    → ((c : ℕ) → 0 < occurs c fs → (vq'.descs c).next ≡ (vq.descs c).next)
    → IsFree vq fs
    → IsFree vq' fs
same_frees vq vq' fs h n s i = record {
  linked = rw h (links_kept vq.descs vq'.descs vq.free_head fs s i.linked);
  counted = n ∙ i.counted;
  distinct = i.distinct;
}

-- The descriptor that `virtq_alloc_desc` takes is the first free one.
pub takes_first :
    (vq : Virtq) (c : ℕ) (fs : List ℕ)
    → IsFree vq (c ∷ fs)
    → (v : Virtq) × (virtq_alloc_desc vq ≡ (v, c))
      × (v ≡ record vq { free_head = (vq.descs c).next; num_free = length fs })
      × IsFree v fs
      × (occurs c fs ≡ 0)
unfolding virtq_alloc_desc Linked occurs
takes_first vq c fs i =
    let n : vq.num_free ≡ suc (length fs) = i.counted in
    let z : (vq.num_free == 0) ≡ false = ground (arith, n) in
    let m : vq.num_free - 1 ≡ length fs = omega (arith, n) in
    let (h, l) = i.linked in
    let once = i.distinct c in
    (
      record vq { free_head = (vq.descs c).next; num_free = length fs },
      rw (z, m, h) refl,
      refl,
      record { linked = l; counted = refl; distinct = λ x. omega (arith, i.distinct x) },
      ground (arith, once, ==_refl c),
    )

-- A descriptor that is not free becomes the first free one.
pub returns_first :
    (vq : Virtq) (c : ℕ) (fs : List ℕ)
    → IsFree vq fs
    → occurs c fs ≡ 0
    → length fs + 1 < 2 ^ 16
    → IsFree (virtq_free_desc vq c) (c ∷ fs)
unfolding virtq_free_desc Linked occurs
returns_first vq c fs i o s = record {
  linked = (
    refl,
    rw (==_refl c) (
        links_kept vq.descs (virtq_free_desc vq c).descs vq.free_head fs
          (here_or_else c (λ p. absurd (omega (arith, o, p))) (λ x e p. rw e refl)) i.linked),
  );
  counted = rw i.counted (omega (arith, s));
  distinct =
      here_or_else c (rw (==_refl c) (omega (arith, o))) (λ x e. ground (arith, e, i.distinct x));
}
