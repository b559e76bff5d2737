-- ===== src/Pipe/Write.antt =====
-- What `pipe_write` stores.
use yu_noob_kernel.Base.{
  ℕ, ◌+◌, ◌-◌, ◌^◌, ◌<◌, ◌≡◌, ◌≢◌, inl, inr, refl, arith, List, [], ◌∷◌, ◌++◌, false, min, length,
  take, Bool-cases, ltb, ◌==◌, if◌then◌else◌, take-cons, take-nil, append-nil, append_assoc,
  take_all,
}
use yu_noob_kernel.Errno.{epipe}
use yu_noob_kernel.Pipe.{
  Pipe, Step, WriteResult, stored, write_slept, write_failed, write_done, pipe_size, store_byte,
  write_round, write_loop, pipe_write, int_bound,
}
use yu_noob_kernel.Pipe.Inv.{IsValid, store_byte-IsValid}
use yu_noob_kernel.Pipe.Contents.{contents, contents-store_byte, contents_same}

-- What the loop has done when it stops, started with `total` bytes written and `src` left.
pub record Wrote (p : Pipe) (src : List ℕ) (total : ℕ) (out : Step WriteResult × ℕ) : Type 0 where
  pub valid : IsValid out.0.pipe
  pub counted : out.1 ≡ total + min (length src) (pipe_size - p.count)
  pub bytes : contents out.0.pipe ≡ contents p ++ take (pipe_size - p.count) src
  pub ending : out.0.result ≡ (
      if ltb (pipe_size - p.count) (length src)
      then if p.nreaders == 0 then write_failed epipe else write_slept
      else write_done (total + length src))

store_byte_rest :
    (p : Pipe) (c : ℕ)
    → ((store_byte p c).result ≡ stored)
      × ((store_byte p c).pipe.count ≡ p.count + 1)
      × ((store_byte p c).pipe.nreaders ≡ p.nreaders)
unfolding store_byte
store_byte_rest p c = (refl, refl, refl)

write_round-room :
    (p : Pipe) (cur c : ℕ) → p.count ≢ pipe_size → write_round p cur c ≡ store_byte p c
unfolding write_round
write_round-room p cur c h = ground arith

-- What a round leaves behind that finds the pipe full.
blocked : Pipe → ℕ → Step WriteResult
blocked p cur =
    if p.nreaders == 0
    then record { pipe = p; result = write_failed epipe; woken = [] }
    else record { pipe = record p { wq = p.wq ++ cur ∷ [] }; result = write_slept; woken = [] }

write_round-full :
    (p : Pipe) (cur c : ℕ) → p.count ≡ pipe_size → write_round p cur c ≡ blocked p cur
unfolding write_round blocked
write_round-full p cur c h = ground arith

blocked_lem :
    (p : Pipe) (cur : ℕ)
    → IsValid p
    → IsValid (blocked p cur).pipe
      × (contents (blocked p cur).pipe ≡ contents p)
      × ((blocked p cur).result ≡ (if p.nreaders == 0 then write_failed epipe else write_slept))
unfolding blocked
blocked_lem p cur v =
    ground (arith, contents_same p (record p { wq = p.wq ++ cur ∷ [] }) refl refl refl)

write_loop-full :
    (p : Pipe) (cur c : ℕ) (cs : List ℕ) (total : ℕ)
    → p.count ≡ pipe_size
    → write_loop p cur (c ∷ cs) total ≡ (blocked p cur, total)
unfolding write_loop blocked
write_loop-full p cur c cs total h = ground (arith, write_round-full p cur c h)

write_loop-room :
    (p : Pipe) (cur c : ℕ) (cs : List ℕ) (total : ℕ)
    → p.count ≢ pipe_size
    → (let s = store_byte p c in
        let rest = write_loop s.pipe cur cs (total + 1) in
        write_loop p cur (c ∷ cs) total
        ≡ (record rest.0 { woken = s.woken ++ rest.0.woken }, rest.1))
unfolding write_loop
write_loop-room p cur c cs total h = ground (arith, write_round-room p cur c h, store_byte_rest p c)

write_loop-Wrote :
    (src : List ℕ) (p : Pipe) (cur total : ℕ)
    → IsValid p
    → Wrote p src total (write_loop p cur src total)
write_loop-Wrote [] p cur total v =
    unfold write_loop in ground (arith, take-nil ℕ (pipe_size - p.count), append-nil (contents p))
write_loop-Wrote (c ∷ cs) p cur total v = elim (Bool-cases (p.count == pipe_size)) [
  | inl e ↦
      rw (write_loop-full p cur c cs total (ground arith))
        (ground (arith, blocked_lem p cur v, append-nil (contents p)))
  | inr e ↦ rw (write_loop-room p cur c cs total (ground arith)) (
      ground (
        arith,
        write_loop-Wrote cs (store_byte p c).pipe cur (total + 1),
        store_byte-IsValid c v,
        store_byte_rest p c,
        contents-store_byte c v,
        take-cons (pipe_size - p.count) c cs,
        append_assoc (contents p) (c ∷ []) (take (pipe_size - p.count - 1) cs),
      ))
]

int_bound_small : (n : ℕ) → n < 2 ^ 31 → int_bound n ≡ n
unfolding int_bound
int_bound_small n h = ground arith

-- On a well-formed pipe with a reader, `pipe_write` of a buffer whose length fits an `int`, run with
-- no other process in between, stores as many bytes as there is room for, in order, behind those
-- that the pipe holds, and keeps the pipe well formed; it returns the length if all fit, and
-- otherwise sleeps with the rest unwritten.
pub pipe_write-Wrote :
    {p : Pipe} (cur : ℕ) (src : List ℕ)
    → IsValid p
    → p.nreaders ≢ 0
    → length src < 2 ^ 31
    → Wrote p src 0 (pipe_write p cur src)
unfolding pipe_write
pipe_write-Wrote {p} cur [] v r h =
    ground (arith, take-nil ℕ (pipe_size - p.count), append-nil (contents p))
pipe_write-Wrote {p} cur (c ∷ cs) v r h =
    rw (some_data, r', whole) (write_loop-Wrote (c ∷ cs) p cur 0 v)
  where
    some_data : (length (c ∷ cs) == 0) ≡ false
    some_data = ground arith

    r' : (p.nreaders == 0) ≡ false
    r' = ground arith

    whole : take (int_bound (length (c ∷ cs))) (c ∷ cs) ≡ c ∷ cs
    whole = take_all _ (c ∷ cs) (omega (arith, int_bound_small (length (c ∷ cs)) h))

-- Once `pipe_write` is past its entry, readers that leave are not noticed until the pipe is full:
-- with no reader left and more to write than there is room for, the loop stores what fits and then
-- reports EPIPE, although bytes were written, whatever their number.
pub write_loop-no_reader :
    (src : List ℕ) (p : Pipe) (cur total : ℕ)
    → IsValid p
    → p.nreaders ≡ 0
    → pipe_size - p.count < length src
    → ((write_loop p cur src total).0.result ≡ write_failed epipe)
      × ((write_loop p cur src total).1 ≡ total + (pipe_size - p.count))
write_loop-no_reader src p cur total v r h = ground (arith, write_loop-Wrote src p cur total v)
