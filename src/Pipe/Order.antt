-- ===== src/Pipe/Order.antt =====
-- Interleavings of the critical sections of readers and writers on one pipe.
use yu_noob_kernel.Base.{
  ℕ, ◌+◌, ◌-◌, ◌<◌, ◌≡◌, ◌≢◌, refl, sym, get_or-set_self, arith, List, [], ◌∷◌, ◌++◌, Bool, true,
  false, ◌||◌, Bool-cases, inl, inr, ◌==◌, append-nil, append_assoc, take-append-drop,
}
use yu_noob_kernel.Pipe.{
  Pipe, ReadResult, read_slept, read_done, WriteResult, stored, pipe_size, store_byte, write_round,
  write_resume, pipe_read, pipe_release, int_bound, front,
}
use yu_noob_kernel.Pipe.Inv.{IsValid, store_byte-IsValid}
use yu_noob_kernel.Pipe.Contents.{contents, contents-store_byte, contents_same}
use yu_noob_kernel.Pipe.Read.{pipe_read-Reads, pipe_read-Idle}

-- One critical section: a round of a writer, the rest of a round after a sleep, a read, and the
-- release of an end.
pub data Event : Type 0 where
  round : ℕ → ℕ → Event
  resume : ℕ → ℕ → Event
  read : ℕ → ℕ → Event
  release : Bool → Event

-- The pipe after an event.
pub after : Pipe → Event → Pipe
after p (round cur c) = (write_round p cur c).pipe
after p (resume total c) = (write_resume p total c).pipe
after p (read cur count) = (pipe_read p cur count).pipe
after p (release read_end) = (pipe_release p read_end).pipe

put_by : WriteResult → ℕ → List ℕ
put_by stored c = c ∷ []
put_by _ c = []

got_by : ReadResult → List ℕ
got_by read_slept = []
got_by (read_done bytes) = bytes

-- The bytes that an event puts into the pipe, and those that it hands to a reader.
pub fed : Pipe → Event → List ℕ
unfolding put_by
fed p (round cur c) = put_by (write_round p cur c).result c
fed p (resume total c) = put_by (write_resume p total c).result c
fed p _ = []

pub taken : Pipe → Event → List ℕ
unfolding got_by
taken p (read cur count) = got_by (pipe_read p cur count).result
taken p _ = []

-- A writer that was asleep runs on only while the pipe has room.
abbrev pub IsCalm : Pipe → Event → Type 0
IsCalm p (resume total c) = p.count < pipe_size
IsCalm p _ = Unit {0}

room_case :
    (p : Pipe) (c : ℕ)
    → IsValid p
    → p.count < pipe_size
    → IsValid (store_byte p c).pipe
      × ((store_byte p c).result ≡ stored)
      × (contents (store_byte p c).pipe ≡ contents p ++ c ∷ [])
room_case p c v h = (store_byte-IsValid c v h, stored_lem, contents-store_byte c v h)
  where
    stored_lem : (store_byte p c).result ≡ stored
    stored_lem = unfold store_byte in refl

-- Conservation for one event.
record Conserves (p : Pipe) (e : Event) : Type 0 where
  valid : IsValid (after p e)
  kept : taken p e ++ contents (after p e) ≡ contents p ++ fed p e

round-Conserves : (p : Pipe) (cur c : ℕ) → IsValid p → Conserves p (round cur c)
unfolding after fed taken write_round
round-Conserves p cur c v = ground (
  arith,
  room_case p c v,
  contents_same p (record p { wq = p.wq ++ cur ∷ [] }) refl refl refl,
  append-nil (contents p),
)

resume-Conserves :
    (p : Pipe) (total c : ℕ) → IsValid p → p.count < pipe_size → Conserves p (resume total c)
unfolding after fed taken write_resume
resume-Conserves p total c v h = ground (arith, room_case p c v h)

read-Conserves : (p : Pipe) (cur count : ℕ) → IsValid p → Conserves p (read cur count)
unfolding after fed taken
read-Conserves p cur count v = elim (Bool-cases (count == 0 || p.count == 0)) [
  | inl idle ↦ ground (arith, pipe_read-Idle p cur count v, append-nil (contents p))
  | inr busy ↦ ground (
    arith,
    pipe_read-Reads cur count v,
    take-append-drop (int_bound count) (contents p),
    append-nil (contents p),
  )
]

release-Conserves : (p : Pipe) (read_end : Bool) → IsValid p → Conserves p (release read_end)
unfolding after fed taken pipe_release
release-Conserves p true v = ground (
  arith,
  contents_same p (record p { nreaders = p.nreaders - 1; wq = [] }) refl refl refl,
  append-nil (contents p),
)
release-Conserves p false v = ground (
  arith,
  contents_same p (record p { nwriters = p.nwriters - 1; rq = [] }) refl refl refl,
  append-nil (contents p),
)

event-Conserves : (p : Pipe) (e : Event) → IsValid p → IsCalm p e → Conserves p e
event-Conserves p (round cur c) v h = round-Conserves p cur c v
event-Conserves p (resume total c) v h = resume-Conserves p total c v h
event-Conserves p (read cur count) v h = read-Conserves p cur count v
event-Conserves p (release read_end) v h = release-Conserves p read_end v

-- A sequence of events: the pipe at its end, all bytes put in, and all bytes handed to readers.
pub run : Pipe → List Event → Pipe
unfolding after
run p [] = p
run p (e ∷ es) = run (after p e) es

pub all_fed : Pipe → List Event → List ℕ
unfolding fed after
all_fed p [] = []
all_fed p (e ∷ es) = fed p e ++ all_fed (after p e) es

pub all_taken : Pipe → List Event → List ℕ
unfolding taken after
all_taken p [] = []
all_taken p (e ∷ es) = taken p e ++ all_taken (after p e) es

abbrev pub AllCalm : Pipe → List Event → Type 0
AllCalm p [] = Unit {0}
AllCalm p (e ∷ es) = IsCalm p e × AllCalm (after p e) es

-- For every interleaving of rounds of writers, reads and releases, in which a writer woken from a
-- sleep runs on only while there is room: the bytes that the readers got, followed by those still in
-- the pipe, are the bytes that it held at first followed by those written, in the order of writing,
-- none lost, doubled or reordered; and the pipe stays well formed.
pub run_fifo :
    (es : List Event) (p : Pipe)
    → IsValid p
    → AllCalm p es
    → IsValid (run p es) × (all_taken p es ++ contents (run p es) ≡ contents p ++ all_fed p es)
unfolding run all_fed all_taken
run_fifo [] p v h = (v, sym (append-nil (contents p)))
run_fifo (e ∷ es) p v h =
    let now = event-Conserves p e v h.0 in
    let (valid, later) = run_fifo es (after p e) now.valid h.1 in
    let t = taken p e in
    let last = contents (run (after p e) es) in
    (
      valid,
      cc (
        now.kept,
        later,
        append_assoc t (all_taken (after p e) es) last,
        append_assoc t (contents (after p e)) (all_fed (after p e) es),
        append_assoc (contents p) (fed p e) (all_fed (after p e) es),
      ),
    )

-- A writer that was asleep and is run while the pipe is full again and has a reader, as when another
-- writer took the room first, stores its byte all the same: the count passes the size of the ring,
-- the pipe is no longer well formed, and the oldest byte is overwritten by the new one.
pub resume_overflows :
    {p : Pipe} (total c : ℕ)
    → IsValid p
    → p.count ≡ pipe_size
    → p.nreaders ≢ 0
    → ((write_resume p total c).pipe.count ≡ pipe_size + 1)
      × ¬ (IsValid (write_resume p total c).pipe)
      × (front (write_resume p total c).pipe ≡ c)
unfolding write_resume store_byte front
resume_overflows {p} total c v full r = (ground arith, λ w. ground arith, overwritten)
  where
    at_front : p.wr ≡ p.rd
    at_front = omega arith

    overwritten : front (write_resume p total c).pipe ≡ c
    overwritten = ground (arith, get_or-set_self p.buf p.rd c 0 (omega arith), at_front)
