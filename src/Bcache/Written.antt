-- ===== src/Bcache/Written.antt =====
-- The writing back of dirty buffers, without the locks.
use yu_noob_kernel.Base.{
  ℕ, ◌<◌, ◌≡◌, inl, inr, refl, arith, Bool, true, false, Bool-cases, ◌==◌, ==_refl, here_or_else,
  if◌then◌else◌, ◌&&◌, List, [], ◌∷◌, occurs, ◌∙◌,
}
use yu_noob_kernel.Bcache.Inv.{IsReliable}
use yu_noob_kernel.Bcache.{Buf, Bcache, write_disk, transferred, write_back}

module _ {D : Type 0} where
  -- What writing back the buffers of `bs` that a test selects does: they lose their dirty mark, and
  -- nothing else of a buffer, of the lists and of the buckets changes; a block of a selected buffer is
  -- on the device, unless two selected buffers are of one block; no other block of the device changes.
  pub record Written (p : Buf D → Bool) (c c' : Bcache D) (bs : List ℕ) : Type 0 where
    pub cleaned :
        (a : ℕ)
        → 0 < occurs a bs
        → p (c.bufs a) ≡ true
        → c'.bufs a ≡ record (c.bufs a) { dirty = false; locked = false }
    pub unselected : (a : ℕ) → p (c.bufs a) ≡ false → c'.bufs a ≡ c.bufs a
    pub elsewhere : (a : ℕ) → occurs a bs ≡ 0 → c'.bufs a ≡ c.bufs a
    pub same_lru : c'.lru_list ≡ c.lru_list
    pub same_table : c'.hash_table ≡ c.hash_table
    pub stored :
        ((a b : ℕ)
          → 0 < occurs a bs
          → 0 < occurs b bs
          → p (c.bufs a) ≡ true
          → p (c.bufs b) ≡ true
          → ((c.bufs a).dev == (c.bufs b).dev && (c.bufs a).blockno == (c.bufs b).blockno) ≡ true
          → a ≡ b)
        → (a : ℕ) → 0 < occurs a bs
        → p (c.bufs a) ≡ true
        → c'.disk (c.bufs a).dev (c.bufs a).blockno ≡ (c.bufs a).contents
    pub untouched :
        (d n : ℕ)
        → ((a : ℕ)
            → 0 < occurs a bs
            → p (c.bufs a) ≡ true
            → ((c.bufs a).dev == d && (c.bufs a).blockno == n) ≡ false)
        → c'.disk d n ≡ c.disk d n

module _ {D : Type 0} (p : Buf D → Bool)
    (off : (x : Buf D) → p (record x { dirty = false; locked = false }) ≡ false) where
  -- Both loops, with their test.
  unfoldable pub write_all : Bcache D → List ℕ → Bcache D
  write_all c [] = c
  write_all c (b ∷ bs) = write_all (if p (c.bufs b) then write_back c b else c) bs

  nothing_to_do : (c : Bcache D) → Written p c c []
  unfolding occurs
  nothing_to_do c = record {
    cleaned = λ a o. absurd (omega arith);
    unselected = λ a s. refl;
    elsewhere = λ a s. refl;
    same_lru = refl;
    same_table = refl;
    stored = λ u a o s. absurd (omega arith);
    untouched = λ d n h. refl;
  }

  skipped :
      (c c' : Bcache D) (b : ℕ) (bs : List ℕ)
      → p (c.bufs b) ≡ false
      → Written p c c' bs
      → Written p c c' (b ∷ bs)
  unfolding occurs
  skipped c c' b bs e w = record {
    cleaned =
        here_or_else b (λ o s. absurd (ground (arith, e, s)))
          (λ a n o s. w.cleaned a (ground arith) s);
    unselected = w.unselected;
    elsewhere = λ a z. w.elsewhere a (omega arith);
    same_lru = w.same_lru;
    same_table = w.same_table;
    stored = λ u.
        here_or_else b (λ o s. absurd (ground (arith, e, s)))
          (λ a n o s. w.stored (λ x y ox oy. u x y (omega arith) (omega arith)) a (ground arith) s);
    untouched = λ d n h. w.untouched d n (λ a o s. h a (omega arith) s);
  }

  self_after :
      (c : Bcache D) (b : ℕ)
      → (write_back c b).bufs b ≡ record (c.bufs b) { dirty = false; locked = false }
  unfolding write_back write_disk
  self_after c b = rw (==_refl b) refl

  pub other_after : (c : Bcache D) (b a : ℕ) → (b == a) ≡ false → (write_back c b).bufs a ≡ c.bufs a
  unfolding write_back write_disk
  other_after c b a s = rw s refl

  -- A buffer that is still selected is another one, and unchanged.
  pub still_selected :
      (c : Bcache D) (b a : ℕ)
      → p ((write_back c b).bufs a) ≡ true
      → ((b == a) ≡ false) × ((write_back c b).bufs a ≡ c.bufs a)
  still_selected c b a h = elim (Bool-cases (b == a)) [
    | inl e ↦
        let same : b ≡ a = ground arith in
        absurd (ground (arith, off (c.bufs b), rw (← same, self_after c b) at h))
    | inr e ↦ (e, other_after c b a e)
  ]

  one_more :
      (c c' : Bcache D) (b : ℕ) (bs : List ℕ)
      → IsReliable c
      → p (c.bufs b) ≡ true
      → Written p (write_back c b) c' bs
      → Written p c c' (b ∷ bs)
  unfolding occurs
  one_more c c' b bs ok e w = record {
    cleaned =
        here_or_else b (λ o s. at_b)
          (λ a n o s.
            let k = other_after c b a n in w.cleaned a (ground arith) (rw k s) ∙ rw k refl);
    unselected =
        here_or_else b (λ s. absurd (ground (arith, e, s)))
          (λ a n s. let k = other_after c b a n in w.unselected a (rw k s) ∙ k);
    elsewhere =
        here_or_else b (λ z. absurd (ground (arith, z, ==_refl b)))
          (λ a n z. w.elsewhere a (omega arith) ∙ other_after c b a n);
    same_lru = w.same_lru ∙ (unfold write_back write_disk in refl);
    same_table = w.same_table ∙ (unfold write_back write_disk in refl);
    stored = λ u.
        here_or_else b
          (λ o s.
            w.untouched (c.bufs b).dev (c.bufs b).blockno (λ a oa sa.
              let (n, k) = still_selected c b a sa in
              elim (Bool-cases
                ((c.bufs a).dev == (c.bufs b).dev && (c.bufs a).blockno == (c.bufs b).blockno)) [
                  | inl t ↦
                      let same : a ≡ b = u a b (omega arith) (omega (arith, o)) (rw k at sa) e t in
                      absurd (ground arith)
                  | inr f ↦ rw k f
                ])
            ∙ (unfold write_back write_disk transferred in
                rw (==_refl (c.bufs b).dev, ==_refl (c.bufs b).blockno, ok c.transfers) refl))
          (λ a n o s.
            let k = other_after c b a n in
            rw k at (
              w.stored
                (λ x y ox oy sx sy t.
                  let kx = (still_selected c b x sx).1 in
                  let ky = (still_selected c b y sy).1 in
                  u x y (omega arith) (omega arith) (rw kx at sx) (rw ky at sy) (rw (kx, ky) at t))
                a (ground arith) (rw k s)));
    untouched = λ d n h.
        w.untouched d n
          (λ a o s. let k = (still_selected c b a s).1 in rw k (h a (omega arith) (rw k at s)))
        ∙ (unfold write_back write_disk in rw (h b (rw (==_refl b) (omega arith)) e) refl);
  }
    where
      at_b : c'.bufs b ≡ record (c.bufs b) { dirty = false; locked = false }
      at_b = w.unselected b (rw (self_after c b) (off (c.bufs b))) ∙ self_after c b

  pub write_all-Written :
      (c : Bcache D) (bs : List ℕ) → IsReliable c → Written p c (write_all c bs) bs
  unfolding write_all
  write_all-Written c [] ok = nothing_to_do c
  write_all-Written c (b ∷ bs) ok = elim (Bool-cases (p (c.bufs b))) [
    | inl e ↦ rw e (
        one_more c _ b bs ok e
          (write_all-Written (write_back c b) bs (unfold write_back write_disk in ok)))
    | inr e ↦ rw e (skipped c _ b bs e (write_all-Written c bs ok))
  ]
