-- ===== src/Pipe/Read.antt =====
-- What `pipe_read` takes.
use yu_noob_kernel.Base.{
  ℕ, zero, suc, ◌<◌, ◌≡◌, ◌≢◌, ◌⊎◌, ◌↔◌, inl, inr, refl, arith, List, [], ◌∷◌, ◌++◌, true, false,
  length, take, drop, Bool-cases, ltb, ◌==◌, if◌then◌else◌,
}
use yu_noob_kernel.Pipe.{
  Pipe, Step, ReadResult, read_slept, read_done, remove_front, drain, finish_read, pipe_read,
  wake_one, int_bound,
}
use yu_noob_kernel.Pipe.Inv.{IsValid, remove_front-IsValid}
use yu_noob_kernel.Pipe.Contents.{
  contents, length-contents, contents-remove_front, contents-empty, contents_same,
}

-- What the loop has done when it stops, with room for `n` bytes.
record Drained (n : ℕ) (p : Pipe) (out : List ℕ × Pipe) : Type 0 where
  valid : IsValid out.1
  taken : out.0 ≡ take n (contents p)
  left : contents out.1 ≡ drop n (contents p)
  rest :
      (out.1.nreaders ≡ p.nreaders)
      × (out.1.nwriters ≡ p.nwriters)
      × (out.1.rq ≡ p.rq)
      × (out.1.wq ≡ p.wq)

remove_front_rest :
    (p : Pipe)
    → ((remove_front p).nreaders ≡ p.nreaders)
      × ((remove_front p).nwriters ≡ p.nwriters)
      × ((remove_front p).rq ≡ p.rq)
      × ((remove_front p).wq ≡ p.wq)
unfolding remove_front
remove_front_rest p = (refl, refl, refl, refl)

drain-Drained : (n : ℕ) {p : Pipe} → IsValid p → Drained n p (drain n p)
unfolding drain
drain-Drained zero v = ground arith
drain-Drained (suc n) {p} v = elim (Bool-cases (p.count == 0)) [
  | inl e ↦ let none_left = contents-empty p (ground arith) in ground (arith, none_left)
  | inr e ↦ ground (
    arith,
    contents-remove_front v (ground arith),
    drain-Drained n (remove_front-IsValid v (ground arith)),
    remove_front_rest p,
  )
]

-- What a read does that finds data: it takes as many of the oldest bytes as fit, in order, leaves
-- the rest in order, and keeps the pipe well formed.
pub record Reads (p : Pipe) (n : ℕ) (s : Step ReadResult) : Type 0 where
  pub valid : IsValid s.pipe
  pub result : s.result ≡ read_done (take n (contents p))
  pub left : contents s.pipe ≡ drop n (contents p)
  pub writers : s.pipe.nwriters ≡ p.nwriters

finish_read-Reads :
    {n : ℕ} {p : Pipe} (out : List ℕ × Pipe) → Drained n p out → Reads p n (finish_read out)
unfolding finish_read
finish_read-Reads out d =
    let same = contents_same out.1 (record out.1 { wq = (wake_one out.1.wq).1 }) refl refl refl in
    ground (arith, same)

-- A read with a non-empty buffer of a well-formed pipe that holds data returns the oldest bytes, as
-- many as the buffer (its size as an `int`) and the pipe allow, removes exactly those, and keeps
-- the pipe well formed.
pub pipe_read-Reads :
    {p : Pipe} (cur count : ℕ)
    → IsValid p
    → 0 < p.count
    → 0 < count
    → Reads p (int_bound count) (pipe_read p cur count)
unfolding pipe_read
pipe_read-Reads {p} cur count v h k =
    rw (e₁, e₂) (finish_read-Reads _ (drain-Drained (int_bound count) v))
  where
    e₁ : (count == 0) ≡ false
    e₁ = ground arith

    e₂ : ltb 0 p.count ≡ true
    e₂ = ground arith

head_of_take : (n : ℕ) (xs : List ℕ) → 0 < n → 0 < length xs → read_done (take n xs) ≢ read_done []
head_of_take zero xs h k = absurd (omega arith)
head_of_take (suc n) [] h k = absurd (omega arith)
head_of_take (suc n) (x ∷ xs) h k = λ e. cc

empty_read :
    (p : Pipe) (cur count : ℕ)
    → 0 < count
    → p.count ≡ 0
    → (pipe_read p cur count).result ≡ (if p.nwriters == 0 then read_done [] else read_slept)
unfolding pipe_read
empty_read p cur count k e = ground arith

-- On a well-formed pipe, with a buffer whose size is positive as an `int`: `pipe_read` returns no
-- bytes, the end of the stream, exactly when the pipe is empty and has no writer, and it sleeps
-- exactly when the pipe is empty and has one.
pub pipe_read-end_iff :
    {p : Pipe} (cur count : ℕ)
    → IsValid p
    → 0 < int_bound count
    → 0 < count
    → (((pipe_read p cur count).result ≡ read_done []) ↔ ((p.count ≡ 0) × (p.nwriters ≡ 0)))
      × (((pipe_read p cur count).result ≡ read_slept) ↔ ((p.count ≡ 0) × (p.nwriters ≢ 0)))
pipe_read-end_iff {p} cur count v b k = elim (Bool-cases (p.count == 0)) [
  | inl e ↦ ground (arith, empty_read p cur count k)
  | inr e ↦ ground (
    arith,
    pipe_read-Reads cur count v (ground arith) k,
    head_of_take (int_bound count) (contents p) b,
    length-contents p,
  )
]

-- A read that finds no room in its buffer or no data in the pipe hands over nothing.
pub record Idle (p : Pipe) (s : Step ReadResult) : Type 0 where
  pub valid : IsValid s.pipe
  pub same : contents s.pipe ≡ contents p
  pub nothing : (s.result ≡ read_done []) ⊎ (s.result ≡ read_slept)

pub pipe_read-Idle :
    (p : Pipe) (cur count : ℕ)
    → IsValid p
    → (count ≡ 0) ⊎ (p.count ≡ 0)
    → Idle p (pipe_read p cur count)
unfolding pipe_read
pipe_read-Idle p cur count v h =
    ground (arith, contents_same p (record p { rq = p.rq ++ cur ∷ [] }) refl refl refl)
