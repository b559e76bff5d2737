-- ===== src/Pipe.antt =====
-- src/ipc/pipe.c. The body of each critical section is one function from a pipe to the pipe that
-- it leaves; `spinlock_acquire` and `spinlock_release` mark where such a function begins and ends.
pub mod Inv
pub mod Contents
pub mod Read
pub mod Write
pub mod Release
mod Tests
pub mod Order
use yu_noob_kernel.Base.{
  ℕ, zero, suc, ◌+◌, ◌-◌, ◌%◌, ◌^◌, Bool, true, false, ltb, ◌==◌, if◌then◌else◌, ◌&&◌, List, [],
  ◌∷◌, ◌++◌, length, get_or, set, take, replicate,
}
use yu_noob_kernel.Errno.{Errno, epipe, enomem, Result, ok, err}

abbrev pub pipe_size : ℕ
pipe_size = 4096

-- `struct pipe`. `rq` and `wq` are the processes asleep in the two wait queues, oldest first.
pub record Pipe : Type 0 where
  pub buf : List ℕ
  pub rd : ℕ
  pub wr : ℕ
  pub count : ℕ
  pub nreaders : ℕ
  pub nwriters : ℕ
  pub rq : List ℕ
  pub wq : List ℕ

-- What one call did: the pipe that it leaves, its result, and the processes that it woke.
pub record Step (R : Type 0) : Type 0 where
  pub pipe : Pipe
  pub result : R
  pub woken : List ℕ

-- `wait_queue_wakeup_one`: the process woken, and the queue left.
unfoldable pub wake_one : List ℕ → List ℕ × List ℕ
wake_one [] = ([], [])
wake_one (p ∷ ps) = (p ∷ [], ps)

-- `(int)count` as the bound of `total < (int)count`, where `total` is never negative.
unfoldable pub int_bound : ℕ → ℕ
int_bound count = let low = count % 2 ^ 32 in if ltb low (2 ^ 31) then low else 0

-- A reader that finds no data sleeps and tries again when it is woken.
pub data ReadResult : Type 0 where
  read_slept : ReadResult
  read_done : List ℕ → ReadResult

-- `c = p->buf[p->rd]` and the removal of that byte.
unfoldable pub front : Pipe → ℕ
front p = get_or p.buf p.rd 0

unfoldable pub remove_front : Pipe → Pipe
remove_front p = record p { rd = (p.rd + 1) % pipe_size; count = p.count - 1 }

-- The loop of `pipe_read`, with `n` bytes of the buffer left: the bytes put into it.
unfoldable pub drain : ℕ → Pipe → List ℕ × Pipe
unfolding front remove_front
drain zero p = ([], p)
drain (suc n) p =
    let rest = drain n (remove_front p) in
    if p.count == 0 then ([], p) else (front p ∷ rest.0, rest.1)

is_empty : List ℕ → Bool
is_empty [] = true
is_empty (_ ∷ _) = false

-- The end of `pipe_read`: a writer is woken if anything was taken.
unfoldable pub finish_read : List ℕ × Pipe → Step ReadResult
unfolding is_empty wake_one
finish_read (bytes, p) =
    if is_empty bytes then record { pipe = p; result = read_done bytes; woken = [] } else record {
      pipe = record p { wq = (wake_one p.wq).1 };
      result = read_done bytes;
      woken = (wake_one p.wq).0;
    }

-- `pipe_read` by the process `cur`, from its entry or from its return out of a sleep, to its
-- return or to its next sleep.
unfoldable pub pipe_read : Pipe → ℕ → ℕ → Step ReadResult
unfolding drain finish_read int_bound
pipe_read p cur count =
    if count == 0
    then record { pipe = p; result = read_done []; woken = [] }
    else if ltb 0 p.count
    then finish_read (drain (int_bound count) p)
    else if p.nwriters == 0
    then record { pipe = p; result = read_done []; woken = [] }
    else record { pipe = record p { rq = p.rq ++ cur ∷ [] }; result = read_slept; woken = [] }

-- The outcome of one round of the loop of `pipe_write`: a byte stored, the writer asleep in `wq`
-- with the lock released, or a return.
pub data WriteResult : Type 0 where
  stored : WriteResult
  write_slept : WriteResult
  write_failed : Errno → WriteResult
  write_done : ℕ → WriteResult

-- The end of a round: the byte goes to `buf[wr]`, and a reader is woken.
unfoldable pub store_byte : Pipe → ℕ → Step WriteResult
unfolding wake_one
store_byte p c = record {
  pipe = record p {
    buf = set p.buf p.wr c;
    wr = (p.wr + 1) % pipe_size;
    count = p.count + 1;
    rq = (wake_one p.rq).1;
  };
  result = stored;
  woken = (wake_one p.rq).0;
}

-- One round, from its acquisition of the lock, for the byte `c`.
unfoldable pub write_round : Pipe → ℕ → ℕ → Step WriteResult
unfolding store_byte
write_round p cur c =
    if p.count == pipe_size
    then if p.nreaders == 0
      then record { pipe = p; result = write_failed epipe; woken = [] }
      else record { pipe = record p { wq = p.wq ++ cur ∷ [] }; result = write_slept; woken = [] }
    else store_byte p c

-- The rest of a round whose writer has slept and been woken, with `total` bytes written before it:
-- a full pipe is looked at again only if no reader is left.
unfoldable pub write_resume : Pipe → ℕ → ℕ → Step WriteResult
unfolding store_byte
write_resume p total c =
    if p.count == pipe_size && p.nreaders == 0
    then record {
      pipe = p;
      result = if ltb 0 total then write_done total else write_failed epipe;
      woken = [];
    }
    else store_byte p c

-- `pipe_write` as far as it runs with no other process in between, on the bytes left and the
-- number written; the last component is how many bytes were stored.
unfoldable pub write_loop : Pipe → ℕ → List ℕ → ℕ → Step WriteResult × ℕ
write_loop p cur [] total = (record { pipe = p; result = write_done total; woken = [] }, total)
write_loop p cur (c ∷ cs) total =
    let s = write_round p cur c in
    let rest = write_loop s.pipe cur cs (total + 1) in
    elim s.result [
      | stored ↦ (record rest.0 { woken = s.woken ++ rest.0.woken }, rest.1)
      | _ ↦ (s, total)
    ]

-- The entry of `pipe_write`. The buffer holds `count` bytes.
unfoldable pub pipe_write : Pipe → ℕ → List ℕ → Step WriteResult × ℕ
unfolding write_loop write_round int_bound
pipe_write p cur src =
    if length src == 0
    then (record { pipe = p; result = write_done 0; woken = [] }, 0)
    else if p.nreaders == 0
    then (record { pipe = p; result = write_failed epipe; woken = [] }, 0)
    else write_loop p cur (take (int_bound (length src)) src) 0

-- `pipe_release` of one end: the flag says that the pipe was freed.
unfoldable pub pipe_release : Pipe → Bool → Step Bool
pipe_release p read_end =
    let p' : Pipe =
      if read_end
      then record p { nreaders = p.nreaders - 1; wq = [] }
      else record p { nwriters = p.nwriters - 1; rq = [] } in
    record {
      pipe = p';
      result = p'.nreaders == 0 && p'.nwriters == 0;
      woken = if read_end then p.wq else p.rq;
    }

-- `pipe_create`, where the flag says whether `kzalloc` found memory.
unfoldable pub pipe_create : Bool → Result Pipe
pipe_create false = err enomem
pipe_create true = ok (record {
  buf = replicate pipe_size 0;
  rd = 0;
  wr = 0;
  count = 0;
  nreaders = 1;
  nwriters = 1;
  rq = [];
  wq = [];
})
