-- ===== src/OpenFile/Tests.antt =====
-- The theorems about src/fs/file.c at a file of ten bytes.
use yu_noob_kernel.Base.{
  ℕ, ◌+◌, ◌-◌, ◌^◌, ◌≡◌, refl, sym, ap, ◌∙◌, subst, arith, true, false, ltb, if◌then◌else◌, Option,
  none, some, pos,
}
use yu_noob_kernel.OpenFile.{
  Inode, Transfer, FileOps, File, is_neg64, file_read, file_write, file_lseek, transfer,
  read_within, read_inode, target, set_position, seek_inode,
}
use yu_noob_kernel.OpenFile.Read.{Advances, ReadOk, file_read-ReadOk}
use yu_noob_kernel.OpenFile.Write.{WriteOk, file_write-WriteOk}
use yu_noob_kernel.OpenFile.Seek.{SeekOk, file_lseek-SeekOk, file_lseek-tell}

-- A file system that moves all bytes that it is asked for, at most four at a time.
abbrev four_at_most : Transfer ℕ
four_at_most d p c = let n = if ltb c 4 then c else 4 in (d, pos n, p + n)

four_at_most-Advances : Advances four_at_most
four_at_most-Advances = record {
  count = λ d p c n h. ground (arith, h);
  behind = λ d p c n h. ground (arith, h);
}

abbrev plain : FileOps ℕ
plain = record {
  llseek = none;
  read = some four_at_most;
  write = some four_at_most;
  readdir = none;
}

abbrev ten_bytes : Inode
ten_bytes = record { i_mode = 0x8000; i_size = 10 }

-- Opened for reading and writing.
abbrev opened : File ℕ
opened = record { f_mode = 0x8000; f_flags = 2; f_pos = 8; f_inode = some ten_bytes; disk = 0 }

op_of : Transfer ℕ → Option (Transfer ℕ) → Transfer ℕ
op_of missing none = missing
op_of missing (some op) = op

of_plain :
    (o : Option (Transfer ℕ))
    → o ≡ some four_at_most
    → (op : Transfer ℕ) → o ≡ some op
    → Advances op
unfolding op_of
of_plain o e op h =
    let same : four_at_most ≡ op = ap (op_of four_at_most) (sym e ∙ h) in
    subst (λ t. Advances t) same four_at_most-Advances

file_read-ReadOk_example : ReadOk opened 100 (file_read plain opened true 100)
file_read-ReadOk_example =
    file_read-ReadOk plain opened true 100 (of_plain plain.read refl) (omega arith) (omega arith)
      (omega arith)

file_write-WriteOk_example : WriteOk opened 100 (file_write plain opened true 100)
file_write-WriteOk_example =
    file_write-WriteOk plain opened true 100 (of_plain plain.write refl) (omega arith) (omega arith)

read_to_end : (file_read plain opened true 100).1 ≡ pos 2
unfolding file_read read_inode read_within transfer
read_to_end = refl

seek_to_the_end : SeekOk opened (file_lseek plain opened (2 ^ 64 - 3) 2)
seek_to_the_end = file_lseek-SeekOk plain opened (2 ^ 64 - 3) 2

tell_after_seek :
    file_lseek plain (file_lseek plain opened (2 ^ 64 - 3) 2).0 0 1
    ≡ file_lseek plain opened (2 ^ 64 - 3) 2
tell_after_seek = file_lseek-tell plain opened ten_bytes (2 ^ 64 - 3) 2 refl refl refl answer
  where
    answer : is_neg64 (file_lseek plain opened (2 ^ 64 - 3) 2).1 ≡ false
    answer = unfold file_lseek seek_inode target set_position in refl
