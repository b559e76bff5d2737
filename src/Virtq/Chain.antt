-- ===== src/Virtq/Chain.antt =====
-- The chain of descriptors of one request.
use yu_noob_kernel.Base.{
  ℕ, ◌<◌, ◌≡◌, ◌∙◌, arith, Bool, true, false, ==_refl, List, [], ◌∷◌, ◌++◌, map, occurs,
}
use yu_noob_kernel.Virtq.{Desc, VirtqBuf}

-- A descriptor of a buffer, and whether the device may write to it.
abbrev pub desc_of : VirtqBuf × Bool → Bool → ℕ → Desc
desc_of (b, write) has_next next = record {
  addr = b.addr;
  len = b.len;
  has_next = has_next;
  write = write;
  next = next;
}

-- The buffers of a request in the order of their descriptors.
abbrev pub request : List VirtqBuf → List VirtqBuf → List (VirtqBuf × Bool)
request ins outs = map (λ b. (b, false)) ins ++ map (λ b. (b, true)) outs

-- The descriptors of a chain, from the head on, hold the buffers of a request; each but the last leads
-- to the next one.
pub data Chain (d : ℕ → Desc) : ℕ → List (VirtqBuf × Bool) → List ℕ → Type 0 where
  last : (c : ℕ) (b : VirtqBuf × Bool) → d c ≡ desc_of b false 0 → Chain d c (b ∷ []) (c ∷ [])
  more :
      (c n : ℕ) (b : VirtqBuf × Bool) (bs : List (VirtqBuf × Bool)) (cs : List ℕ)
      → d c ≡ desc_of b true n
      → Chain d n bs cs
      → Chain d c (b ∷ bs) (c ∷ cs)

-- Descriptors outside of a chain may change.
pub kept_outside :
    (d d' : ℕ → Desc) (h : ℕ) (bs : List (VirtqBuf × Bool)) (cs : List ℕ)
    → ((c : ℕ) → 0 < occurs c cs → d' c ≡ d c)
    → Chain d h bs cs
    → Chain d' h bs cs
unfolding occurs
kept_outside d d' _ _ _ s (last c b e) = last c b (s c (rw (==_refl c) (omega arith)) ∙ e)
kept_outside d d' _ _ _ s (more c n b bs cs e k) =
    more c n b bs cs (s c (rw (==_refl c) (omega arith)) ∙ e)
      (kept_outside d d' n bs cs (λ x o. s x (omega (arith, o))) k)
