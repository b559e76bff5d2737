-- ===== src/OpenFile.antt =====
-- `file_read`, `file_write`, `file_lseek` and `file_getdents` of src/fs/file.c. A position is the
-- 64-bit pattern of an `loff_t`, so that it is negative from 2 ^ 63 on. The operations of the file
-- system, `f_op`, are not in this file: they are parameters.
pub mod Read
pub mod Write
pub mod Seek
mod Tests
use Prim.Native.Nat.{bit_and}
use yu_noob_kernel.Base.{
  ℕ, zero, suc, ◌+◌, ◌-◌, ◌%◌, ◌^◌, Bool, true, false, not, ltb, leb, ◌==◌, if◌then◌else◌, ◌&&◌,
  ◌||◌, Option, none, some, ℤ, pos, negsuc, neg, is_neg,
}
use yu_noob_kernel.Errno.{Errno, code, einval, enosys, enoent, eacces, eisdir, enotdir}

-- `-e` as a result.
abbrev pub fail : Errno → ℤ
fail e = neg (pos (code e))

-- `struct inode` as far as these functions read it.
pub record Inode : Type 0 where
  pub i_mode : ℕ
  pub i_size : ℕ

-- `f_op->read` or `f_op->write`: from the state of the file system, which the buffer of the caller
-- belongs to, the position and the count, the state, the result and the position behind it.
abbrev pub Transfer {ℓ} : Type ℓ → Type ℓ
Transfer D = D → ℕ → ℕ → D × ℤ × ℕ

-- `struct file_operations`; `none` is NULL. An `llseek` answers a
-- position, or a negative number, for an offset and a base; it changes nothing itself.
pub record FileOps {ℓ} (D : Type ℓ) : Type ℓ where
  pub llseek : Option (ℕ → ℕ → ℕ)
  pub read : Option (Transfer D)
  pub write : Option (Transfer D)
  pub readdir : Option (D → ℕ → D × ℤ)

-- `struct file` with its inode, and the state of the file system.
pub record File {ℓ} (D : Type ℓ) : Type ℓ where
  pub f_mode : ℕ
  pub f_flags : ℕ
  pub f_pos : ℕ
  pub f_inode : Option Inode
  pub disk : D

abbrev pub s_ififo : ℕ
s_ififo = 0x1000

abbrev pub s_ifchr : ℕ
s_ifchr = 0x2000

-- `S_ISDIR`.
abbrev pub is_dir : ℕ → Bool
is_dir mode = bit_and mode 0xf000 == 0x4000

-- `O_ACCMODE`, with `O_RDONLY` 0 and `O_WRONLY` 1.
abbrev pub access_mode : ℕ → ℕ
access_mode flags = bit_and flags 3

-- `O_APPEND`.
abbrev pub appends : ℕ → Bool
appends flags = not (bit_and flags 0x400 == 0)

abbrev pub is_positive : ℤ → Bool
is_positive (pos zero) = false
is_positive (pos (suc n)) = true
is_positive (negsuc n) = false

-- The sign bit of an `loff_t`.
abbrev pub is_neg64 : ℕ → Bool
is_neg64 p = leb (2 ^ 63) p

-- `-e` as the pattern of an `loff_t`.
abbrev pub fail64 : Errno → ℕ
fail64 e = 2 ^ 64 - code e

module _ {ℓ} {D : Type ℓ} where
  -- A transfer of a pipe: the position is not the one of the file.
  unfoldable pub pipe_transfer : Option (Transfer D) → File D → ℕ → File D × ℤ
  pipe_transfer none f count = (f, fail enosys)
  pipe_transfer (some op) f count =
      let (d, ret, p) = op f.disk 0 count in (record f { disk = d }, ret)

  -- A transfer at `at`, and `f_pos` behind it.
  unfoldable pub transfer : Transfer D → File D → ℕ → ℕ → File D × ℤ
  transfer op f at count =
      let (d, ret, p) = op f.disk at count in
      (record f { disk = d; f_pos = if is_positive ret then p else f.f_pos }, ret)

  -- A transfer of a character device.
  unfoldable pub device_transfer : Option (Transfer D) → File D → ℕ → File D × ℤ
  unfolding transfer
  device_transfer none f count = (f, fail enosys)
  device_transfer (some op) f count = transfer op f f.f_pos count

  -- The part of `file_read` under the lock: nothing behind the end of the file is read.
  unfoldable pub read_within : Transfer D → File D → Inode → ℕ → File D × ℤ
  unfolding transfer
  read_within op f inode count =
      if leb inode.i_size f.f_pos
      then (f, pos 0)
      else transfer op f f.f_pos
          (if ltb inode.i_size ((f.f_pos + count) % 2 ^ 64) then inode.i_size - f.f_pos else count)

  -- The part of `file_read` behind the tests of the mode of the file.
  unfoldable pub read_inode : Option (Transfer D) → File D → Option Inode → ℕ → File D × ℤ
  unfolding read_within
  read_inode op f none count = (f, fail enoent)
  read_inode none f (some inode) count =
      if access_mode f.f_flags == 1
      then (f, fail eacces)
      else if is_dir inode.i_mode
      then (f, fail eisdir)
      else (f, fail enosys)
  read_inode (some op) f (some inode) count =
      if access_mode f.f_flags == 1
      then (f, fail eacces)
      else if is_dir inode.i_mode
      then (f, fail eisdir)
      else read_within op f inode count

  -- `file_read`; the flag says that there is a buffer.
  unfoldable pub file_read : FileOps D → File D → Bool → ℕ → File D × ℤ
  unfolding pipe_transfer device_transfer read_inode
  file_read ops f buf count =
      if not buf || count == 0
      then (f, fail einval)
      else if f.f_mode == s_ififo
      then pipe_transfer ops.read f count
      else if f.f_mode == s_ifchr
      then device_transfer ops.read f count
      else read_inode ops.read f f.f_inode count

  -- What `file_write` does with the answer of the operation: the size follows a position behind it.
  unfoldable pub finish_write : File D → Inode → D × ℤ × ℕ → File D × ℤ
  finish_write f inode (d, ret, p) =
      let grown : Inode = if ltb inode.i_size p then record inode { i_size = p } else inode in
      if is_positive ret
      then (record f { disk = d; f_pos = p; f_inode = some grown }, ret)
      else (record f { disk = d }, ret)

  -- The part of `file_write` under the lock.
  unfoldable pub write_within : Transfer D → File D → Inode → ℕ → File D × ℤ
  unfolding finish_write
  write_within op f inode count =
      finish_write f inode (op f.disk (if appends f.f_flags then inode.i_size else f.f_pos) count)

  unfoldable pub write_inode : Option (Transfer D) → File D → Option Inode → ℕ → File D × ℤ
  unfolding write_within
  write_inode op f none count = (f, fail enoent)
  write_inode none f (some inode) count =
      if access_mode f.f_flags == 0
      then (f, fail eacces)
      else if is_dir inode.i_mode
      then (f, fail eisdir)
      else (f, fail enosys)
  write_inode (some op) f (some inode) count =
      if access_mode f.f_flags == 0
      then (f, fail eacces)
      else if is_dir inode.i_mode
      then (f, fail eisdir)
      else write_within op f inode count

  -- `file_write`.
  unfoldable pub file_write : FileOps D → File D → Bool → ℕ → File D × ℤ
  unfolding pipe_transfer device_transfer write_inode
  file_write ops f buf count =
      if not buf || count == 0
      then (f, fail einval)
      else if f.f_mode == s_ififo
      then pipe_transfer ops.write f count
      else if f.f_mode == s_ifchr
      then device_transfer ops.write f count
      else write_inode ops.write f f.f_inode count

  -- The `switch` of `file_lseek`, for SEEK_SET, SEEK_CUR and SEEK_END.
  unfoldable pub target : File D → Inode → ℕ → ℕ → Option ℕ
  target f inode offset whence =
      if whence == 0
      then some offset
      else if whence == 1
      then some ((f.f_pos + offset) % 2 ^ 64)
      else if whence == 2
      then some ((inode.i_size + offset) % 2 ^ 64)
      else none

  -- The end of `file_lseek`: the operation of the file system may choose another position. The result
  -- is the 64-bit pattern of an `loff_t`.
  unfoldable pub set_position : Option (ℕ → ℕ → ℕ) → File D → ℕ → ℕ → ℕ → File D × ℕ
  set_position none f new_pos offset whence = (record f { f_pos = new_pos }, new_pos)
  set_position (some seek) f new_pos offset whence =
      let chosen = seek offset whence in
      if is_neg64 chosen then (f, chosen) else (record f { f_pos = chosen }, chosen)

  unfoldable pub seek_inode : FileOps D → File D → Option Inode → ℕ → ℕ → File D × ℕ
  unfolding target set_position
  seek_inode ops f none offset whence = (f, fail64 enoent)
  seek_inode ops f (some inode) offset whence =
      if is_dir inode.i_mode then (f, fail64 eisdir) else elim (target f inode offset whence) [
        | none ↦ (f, fail64 einval)
        | some p ↦
            if is_neg64 p then (f, fail64 einval) else set_position ops.llseek f p offset whence
      ]

  -- `file_lseek`.
  unfoldable pub file_lseek : FileOps D → File D → ℕ → ℕ → File D × ℕ
  unfolding seek_inode
  file_lseek ops f offset whence = seek_inode ops f f.f_inode offset whence

  unfoldable pub readdir_inode : Option (D → ℕ → D × ℤ) → File D → Option Inode → ℕ → File D × ℤ
  readdir_inode op f none count = (f, fail enoent)
  readdir_inode none f (some inode) count =
      if is_dir inode.i_mode then (f, fail enosys) else (f, fail enotdir)
  readdir_inode (some op) f (some inode) count =
      let (d, ret) = op f.disk count in
      if is_dir inode.i_mode then (record f { disk = d }, ret) else (f, fail enotdir)

  -- `file_getdents`.
  unfoldable pub file_getdents : FileOps D → File D → Bool → ℕ → File D × ℤ
  unfolding readdir_inode
  file_getdents ops f buf count =
      if not buf || count == 0
      then (f, fail einval)
      else readdir_inode ops.readdir f f.f_inode count
