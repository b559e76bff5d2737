-- ===== src/OpenFile/Read.antt =====
-- What a read leaves, of the file and of the position.
use yu_noob_kernel.Base.{
  ℕ, zero, suc, ◌+◌, ◌-◌, ◌%◌, ◌^◌, ◌≤◌, ◌<◌, ◌≡◌, ◌≢◌, inl, inr, refl, arith, Bool, false,
  Bool-cases, not, ltb, leb, ◌==◌, if◌then◌else◌, ◌||◌, Option, none, some, ℤ, pos, negsuc,
}
use yu_noob_kernel.Errno.{code}
use yu_noob_kernel.OpenFile.{
  Inode, Transfer, FileOps, File, s_ififo, s_ifchr, is_dir, access_mode, transfer, read_within,
  read_inode, file_read,
}

-- The size of the file, and 0 without an inode.
abbrev pub size_of : Option Inode → ℕ
size_of none = 0
size_of (some inode) = inode.i_size

not_zero : (n : ℕ) → (suc n == 0) ≡ false
not_zero n = ground arith

-- The count that `file_read` asks for.
clipped :
    (size p count : ℕ)
    → leb size p ≡ false
    → p + count < 2 ^ 64
    → let c = if ltb size ((p + count) % 2 ^ 64) then size - p else count in
      (c ≤ count) × (p + c ≤ size)
clipped size p count g h = ground arith

abbrev pub larger : ℕ → ℕ → ℕ
larger a b = if ltb a b then b else a

module _ {ℓ} {D : Type ℓ} where
  -- What is documented of a transfer: a result that is not negative is the number of bytes, at most
  -- as many as were asked for, and the position is that much further on.
  pub record Advances (op : Transfer D) : Type ℓ where
    pub count : (d : D) (p c n : ℕ) → (op d p c).1 ≡ pos n → n ≤ c
    pub behind : (d : D) (p c n : ℕ) → (op d p c).1 ≡ pos n → (op d p c).2 ≡ p + n

  -- What a read did, in success and in failure.
  pub record ReadOk (f : File D) (count : ℕ) (out : File D × ℤ) : Type ℓ where
    pub same_inode : out.0.f_inode ≡ f.f_inode
    pub moved : (n : ℕ) → out.1 ≡ pos n → (out.0.f_pos ≡ f.f_pos + n) × (n ≤ count)
    pub within : (n : ℕ) → out.1 ≡ pos (suc n) → out.0.f_pos ≤ size_of f.f_inode
    pub failed : (n : ℕ) → out.1 ≡ negsuc n → out.0.f_pos ≡ f.f_pos

  read_fails : (f : File D) (count k : ℕ) → ReadOk f count (f, negsuc k)
  read_fails f count k = record {
    same_inode = refl;
    moved = λ n h. absurd (ground (arith, h));
    within = λ n h. absurd (ground (arith, h));
    failed = λ n h. refl;
  }

  transfer-position :
      (op : Transfer D) (f : File D) (at c n : ℕ)
      → Advances op
      → (transfer op f at c).1 ≡ pos n
      → (n ≤ c) × ((transfer op f at c).0.f_pos ≡ (if n == 0 then f.f_pos else at + n))
  unfolding transfer
  transfer-position op f at c zero a h = (a.count f.disk at c 0 h, rw h refl)
  transfer-position op f at c (suc n) a h =
      (a.count f.disk at c (suc n) h, rw (h, not_zero n) (a.behind f.disk at c (suc n) h))

  transfer-failed :
      (op : Transfer D) (f : File D) (c n : ℕ)
      → (transfer op f f.f_pos c).1 ≡ negsuc n
      → (transfer op f f.f_pos c).0.f_pos ≡ f.f_pos
  unfolding transfer
  transfer-failed op f c n h = rw h refl

  transfer-ReadOk :
      (op : Transfer D) (f : File D) (c count : ℕ)
      → Advances op
      → c ≤ count
      → f.f_pos + c ≤ size_of f.f_inode
      → ReadOk f count (transfer op f f.f_pos c)
  transfer-ReadOk op f c count a l e = record {
    same_inode = unfold transfer in refl;
    moved = λ n h. let (m, p) = transfer-position op f f.f_pos c n a h in ground (arith, m, p);
    within =
        λ n h. let (m, p) = transfer-position op f f.f_pos c (suc n) a h in ground (arith, m, p);
    failed = transfer-failed op f c;
  }

  nothing_read : (f : File D) (count : ℕ) → ReadOk f count (f, pos 0)
  nothing_read f count = record {
    same_inode = refl;
    moved = λ n h. ground (arith, h);
    within = λ n h. absurd (ground (arith, h));
    failed = λ n h. absurd (ground (arith, h));
  }

  read_within-ReadOk :
      (op : Transfer D) (f : File D) (inode : Inode) (count : ℕ)
      → Advances op
      → f.f_inode ≡ some inode
      → f.f_pos + count < 2 ^ 64
      → ReadOk f count (read_within op f inode count)
  unfolding read_within
  read_within-ReadOk op f inode count a e h = elim (Bool-cases (leb inode.i_size f.f_pos)) [
    | inl g ↦ rw g (nothing_read f count)
    | inr g ↦
        let (le, end) = clipped inode.i_size f.f_pos count g h in
        rw g (transfer-ReadOk op f _ count a le (rw e end))
  ]

  read_inode-ReadOk :
      (o : Option (Transfer D)) (f : File D) (i : Option Inode) (count : ℕ)
      → ((op : Transfer D) → o ≡ some op → Advances op)
      → f.f_inode ≡ i
      → f.f_pos + count < 2 ^ 64
      → ReadOk f count (read_inode o f i count)
  unfolding read_inode code
  read_inode-ReadOk o f none count a e h = read_fails f count 1
  read_inode-ReadOk none f (some inode) count a e h =
      elim (Bool-cases (access_mode f.f_flags == 1)) [
        | inl g ↦ rw g (read_fails f count 12)
        | inr g ↦ elim (Bool-cases (is_dir inode.i_mode)) [
          | inl k ↦ rw (g, k) (read_fails f count 20)
          | inr k ↦ rw (g, k) (read_fails f count 37)
        ]
      ]
  read_inode-ReadOk (some op) f (some inode) count a e h =
      elim (Bool-cases (access_mode f.f_flags == 1)) [
        | inl g ↦ rw g (read_fails f count 12)
        | inr g ↦ elim (Bool-cases (is_dir inode.i_mode)) [
          | inl k ↦ rw (g, k) (read_fails f count 20)
          | inr k ↦ rw (g, k) (read_within-ReadOk op f inode count (a op refl) e h)
        ]
      ]

  -- For `file_read` of a file that is no pipe and no device, with an operation of the file system that
  -- answers how many bytes it read and leaves the position that much further on, where the position and
  -- the number of bytes asked for are together below 2^64: the position moves by the number of bytes
  -- returned, which is at most the number asked for; a read that returns bytes ends within the size of
  -- the file; a failure leaves the position; the inode is never changed.
  pub file_read-ReadOk :
      (ops : FileOps D) (f : File D) (buf : Bool) (count : ℕ)
      → ((op : Transfer D) → ops.read ≡ some op → Advances op)
      → f.f_mode ≢ s_ififo
      → f.f_mode ≢ s_ifchr
      → f.f_pos + count < 2 ^ 64
      → ReadOk f count (file_read ops f buf count)
  unfolding file_read code
  file_read-ReadOk ops f buf count a p c h =
      let np : (f.f_mode == s_ififo) ≡ false = ground arith in
      let nc : (f.f_mode == s_ifchr) ≡ false = ground arith in
      elim (Bool-cases (not buf || count == 0)) [
        | inl g ↦ rw g (read_fails f count 21)
        | inr g ↦ rw (g, np, nc) (read_inode-ReadOk ops.read f f.f_inode count a refl h)
      ]
