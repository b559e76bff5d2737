-- ===== src/Pipe/Tests.antt =====
-- The theorems about src/ipc/pipe.c at concrete pipes.
use yu_noob_kernel.Base.{
  ◌+◌, ◌-◌, ◌≡◌, ◌≢◌, ◌↔◌, refl, arith, List, [], ◌∷◌, ◌++◌, true, false, replicate,
  length-replicate,
}
use yu_noob_kernel.Errno.{epipe, ok}
use yu_noob_kernel.Pipe.{
  Pipe, read_slept, read_done, write_failed, pipe_size, store_byte, write_resume, pipe_read,
  pipe_write, write_loop, int_bound, front, pipe_create,
}
use yu_noob_kernel.Pipe.Inv.{IsValid, store_byte-IsValid}
use yu_noob_kernel.Pipe.Contents.{contents}
use yu_noob_kernel.Pipe.Read.{Reads, pipe_read-Reads, pipe_read-end_iff}
use yu_noob_kernel.Pipe.Write.{Wrote, pipe_write-Wrote, write_loop-no_reader}
use yu_noob_kernel.Pipe.Order.{
  Event, round, read, run, all_fed, all_taken, run_fifo, resume_overflows,
}
use yu_noob_kernel.Pipe.Release
use yu_noob_kernel.Pipe.Release.{release_all, freed_last, release_all-freed_last}

abbrev fresh : Pipe
fresh = record {
  buf = replicate pipe_size 0;
  rd = 0;
  wr = 0;
  count = 0;
  nreaders = 1;
  nwriters = 1;
  rq = [];
  wq = [];
}

-- A pipe whose 4096 bytes are all zero.
abbrev full : Pipe
full = record fresh { count = pipe_size }

fresh_made : pipe_create true ≡ ok fresh
unfolding pipe_create
fresh_made = refl

fresh-IsValid : IsValid fresh
fresh-IsValid = record {
  storage = length-replicate pipe_size 0;
  rd_in = omega arith;
  count_in = omega arith;
  wr_at = refl;
}

full-IsValid : IsValid full
full-IsValid = record {
  storage = length-replicate pipe_size 0;
  rd_in = omega arith;
  count_in = omega arith;
  wr_at = refl;
}

-- One byte in the pipe.
abbrev one_byte : Pipe
one_byte = (store_byte fresh 7).pipe

one_byte-IsValid : IsValid one_byte
one_byte-IsValid = store_byte-IsValid 7 fresh-IsValid (omega arith)

int_bound_values : (int_bound 5 ≡ 5) × (int_bound (0x8000_0000) ≡ 0) × (int_bound 0x1_0000_0002 ≡ 2)
unfolding int_bound
int_bound_values = (refl, refl, refl)

abbrev script : List Event
script = round 3 10 ∷ round 3 20 ∷ read 4 1 ∷ round 3 30 ∷ read 4 8 ∷ read 4 8 ∷ []

run_fifo_example :
    IsValid (run fresh script)
    × (all_taken fresh script ++ contents (run fresh script)
        ≡ contents fresh ++ all_fed fresh script)
run_fifo_example = run_fifo script fresh fresh-IsValid (omega arith)

pipe_read-Reads_example : Reads one_byte (int_bound 5) (pipe_read one_byte 4 5)
pipe_read-Reads_example =
    pipe_read-Reads 4 5 one_byte-IsValid (unfold store_byte in omega arith) (omega arith)

end_of_file :
    (((pipe_read fresh 4 5).result ≡ read_done []) ↔ ((fresh.count ≡ 0) × (fresh.nwriters ≡ 0)))
    × (((pipe_read fresh 4 5).result ≡ read_slept) ↔ ((fresh.count ≡ 0) × (fresh.nwriters ≢ 0)))
end_of_file = pipe_read-end_iff 4 5 fresh-IsValid (unfold int_bound in omega arith) (omega arith)

pipe_write-Wrote_example : Wrote fresh (1 ∷ 2 ∷ 3 ∷ []) 0 (pipe_write fresh 3 (1 ∷ 2 ∷ 3 ∷ []))
pipe_write-Wrote_example =
    pipe_write-Wrote 3 (1 ∷ 2 ∷ 3 ∷ []) fresh-IsValid (omega arith) (omega arith)

-- A full pipe without a reader.
abbrev abandoned : Pipe
abandoned = record full { nreaders = 0 }

abandoned-IsValid : IsValid abandoned
abandoned-IsValid = record {
  storage = full-IsValid.storage;
  rd_in = full-IsValid.rd_in;
  count_in = full-IsValid.count_in;
  wr_at = full-IsValid.wr_at;
}

full_without_reader :
    ((write_loop abandoned 3 (1 ∷ []) 5).0.result ≡ write_failed epipe)
    × ((write_loop abandoned 3 (1 ∷ []) 5).1 ≡ 5 + (pipe_size - abandoned.count))
full_without_reader =
    write_loop-no_reader (1 ∷ []) abandoned 3 5 abandoned-IsValid refl (omega arith)

resume_overflows_example :
    ((write_resume full 1 9).pipe.count ≡ pipe_size + 1)
    × ¬ (IsValid (write_resume full 1 9).pipe)
    × (front (write_resume full 1 9).pipe ≡ 9)
resume_overflows_example = resume_overflows 1 9 full-IsValid refl (omega arith)

-- A pipe with two read ends, as after a fork, and one write end.
abbrev forked : Pipe
forked = record fresh { nreaders = 2 }

release_all-freed_last_example :
    release_all forked (true ∷ false ∷ true ∷ []) ≡ freed_last (true ∷ false ∷ true ∷ [])
release_all-freed_last_example =
    release_all-freed_last (true ∷ false ∷ true ∷ []) forked two_readers one_writer
  where
    two_readers : forked.nreaders ≡ Release.readers (true ∷ false ∷ true ∷ [])
    two_readers = unfold Release.readers in refl

    one_writer : forked.nwriters ≡ Release.writers (true ∷ false ∷ true ∷ [])
    one_writer = unfold Release.writers in refl
