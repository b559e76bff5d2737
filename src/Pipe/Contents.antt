-- ===== src/Pipe/Contents.antt =====
-- The bytes that a pipe holds, oldest first, and what the two steps on one byte do to them.
use yu_noob_kernel.Base.{
  ℕ, zero, suc, ◌+◌, ◌-◌, ◌%◌, ◌<◌, ◌≡◌, refl, ap, ap₂, ◌∙◌, arith, List, [], ◌∷◌, ◌++◌, length,
  get_or, set, get_or-set_self, get_or-set_ne,
}
use yu_noob_kernel.Pipe.{Pipe, pipe_size, front, remove_front, store_byte}
use yu_noob_kernel.Pipe.Inv.{IsValid}

-- The `n` cells of the ring from position `h` on; a position counts on past the end of the ring.
pub cells : List ℕ → ℕ → ℕ → List ℕ
cells buf h zero = []
cells buf h (suc n) = get_or buf (h % pipe_size) 0 ∷ cells buf (h + 1) n

pub contents : Pipe → List ℕ
contents p = cells p.buf p.rd p.count

pub length-cells : (buf : List ℕ) (h n : ℕ) → length (cells buf h n) ≡ n
unfolding cells
length-cells buf h zero = refl
length-cells buf h (suc n) = ap suc (length-cells buf (h + 1) n)

pub length-contents : (p : Pipe) → length (contents p) ≡ p.count
unfolding contents
length-contents p = length-cells p.buf p.rd p.count

pub contents-empty : (p : Pipe) → p.count ≡ 0 → contents p ≡ []
unfolding contents cells
contents-empty p e = rw e

-- The contents stand in the ring alone.
pub contents_same :
    (p q : Pipe) → q.buf ≡ p.buf → q.rd ≡ p.rd → q.count ≡ p.count → contents q ≡ contents p
unfolding contents
contents_same p q a b c = cc

cells_congr :
    (buf : List ℕ) (h k n : ℕ) → h % pipe_size ≡ k % pipe_size → cells buf h n ≡ cells buf k n
unfolding cells
cells_congr buf h k zero e = refl
cells_congr buf h k (suc n) e =
    ap₂ ◌∷◌ (ap (λ i. get_or buf i 0) e) (cells_congr buf (h + 1) (k + 1) n (omega arith))

cells-set :
    (buf : List ℕ) (x h n i : ℕ)
    → length buf ≡ pipe_size
    → n < pipe_size
    → i ≡ (h + n) % pipe_size
    → cells (set buf i x) h (suc n) ≡ cells buf h n ++ x ∷ []
unfolding cells
cells-set buf x h zero i hl hn e =
    let e' : h % pipe_size ≡ i = omega arith in rw (e', get_or-set_self buf i x 0 (omega arith))
cells-set buf x h (suc n) i hl hn e =
    ap₂ ◌∷◌ (get_or-set_ne buf i (h % pipe_size) x 0 (omega arith))
      (cells-set buf x (h + 1) n i hl (omega arith) (omega arith))

cells-cons :
    (buf : List ℕ) (h n : ℕ)
    → 0 < n
    → h < pipe_size
    → cells buf h n ≡ get_or buf h 0 ∷ cells buf ((h + 1) % pipe_size) (n - 1)
unfolding cells
cells-cons buf h zero p q = absurd (omega arith)
cells-cons buf h (suc n) p q =
    let e : suc n - 1 ≡ n = omega arith in
    rw e (
      ap₂ (λ i l. get_or buf i 0 ∷ l) (omega arith)
        (cells_congr buf (h + 1) ((h + 1) % pipe_size) n (omega arith)))

-- A valid pipe with data holds its front byte, then what is left without it.
pub contents-remove_front :
    {p : Pipe} → IsValid p → 0 < p.count → contents p ≡ front p ∷ contents (remove_front p)
unfolding contents remove_front front
contents-remove_front {p} v h = cells-cons p.buf p.rd p.count h v.rd_in

-- A byte stored in a pipe with room goes behind those that it holds.
pub contents-store_byte :
    {p : Pipe} (c : ℕ)
    → IsValid p
    → p.count < pipe_size
    → contents (store_byte p c).pipe ≡ contents p ++ c ∷ []
unfolding contents store_byte
contents-store_byte {p} c v h =
    ap (cells (set p.buf p.wr c) p.rd) (omega arith)
    ∙ cells-set p.buf c p.rd p.count p.wr v.storage h v.wr_at
