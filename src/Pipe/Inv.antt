-- ===== src/Pipe/Inv.antt =====
-- The representation invariant of `struct pipe`.
use yu_noob_kernel.Base.{ℕ, ◌+◌, ◌%◌, ◌≤◌, ◌<◌, ◌≡◌, arith, length, length-set}
use yu_noob_kernel.Pipe.{Pipe, pipe_size, remove_front, store_byte}

pub record IsValid (p : Pipe) : Type 0 where
  pub storage : length p.buf ≡ pipe_size
  pub rd_in : p.rd < pipe_size
  pub count_in : p.count ≤ pipe_size
  pub wr_at : p.wr ≡ (p.rd + p.count) % pipe_size

pub remove_front-IsValid : {p : Pipe} → IsValid p → 0 < p.count → IsValid (remove_front p)
unfolding remove_front
remove_front-IsValid v h = omega arith

pub store_byte-IsValid :
    {p : Pipe} (c : ℕ) → IsValid p → p.count < pipe_size → IsValid (store_byte p c).pipe
unfolding store_byte
store_byte-IsValid {p} c v h = omega (arith, length-set p.buf p.wr c)
