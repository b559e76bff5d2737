-- ===== src/OpenFile/Write.antt =====
-- What a write leaves, of the position and of the size.
use yu_noob_kernel.Base.{
  ℕ, zero, suc, ◌+◌, ◌≤◌, ◌≡◌, ◌≢◌, inl, inr, refl, sym, ap, ◌∙◌, arith, Bool, true, false,
  Bool-cases, not, ltb, ◌==◌, if◌then◌else◌, ◌||◌, Option, none, some, ℤ, pos, negsuc,
}
use yu_noob_kernel.Errno.{code}
use yu_noob_kernel.OpenFile.{
  Inode, Transfer, FileOps, File, s_ififo, s_ifchr, is_dir, access_mode, appends, is_positive,
  finish_write, write_within, write_inode, file_write,
}
use yu_noob_kernel.OpenFile.Read.{size_of, larger, Advances}

module _ {ℓ} {D : Type ℓ} where
  -- Where a write begins.
  abbrev pub start : File D → ℕ
  start f = if appends f.f_flags then size_of f.f_inode else f.f_pos

  -- What a write did, in success and in failure.
  pub record WriteOk (f : File D) (count : ℕ) (out : File D × ℤ) : Type ℓ where
    pub moved :
        (n : ℕ)
        → out.1 ≡ pos (suc n)
        → (suc n ≤ count)
          × (out.0.f_pos ≡ start f + suc n)
          × (size_of out.0.f_inode ≡ larger (size_of f.f_inode) (start f + suc n))
    pub unmoved : is_positive out.1 ≡ false → (out.0.f_pos ≡ f.f_pos) × (out.0.f_inode ≡ f.f_inode)

  write_fails : (f : File D) (count k : ℕ) → WriteOk f count (f, negsuc k)
  write_fails f count k = record {
    moved = λ n h. absurd (ground (arith, h));
    unmoved = λ h. (refl, refl);
  }

  write_ends :
      (f : File D) (inode : Inode) (count at : ℕ) (r : D × ℤ × ℕ)
      → ((n : ℕ) → r.1 ≡ pos n → (n ≤ count) × (r.2 ≡ at + n))
      → f.f_inode ≡ some inode
      → at ≡ start f
      → WriteOk f count (finish_write f inode r)
  unfolding finish_write
  write_ends f inode count at (d, pos zero, p) a e s = record {
    moved = λ n h. absurd (ground (arith, h));
    unmoved = λ h. (refl, refl);
  }
  write_ends f inode count at (d, negsuc k, p) a e s = record {
    moved = λ n h. absurd (ground (arith, h));
    unmoved = λ h. (refl, refl);
  }
  write_ends f inode count at (d, pos (suc m), p) a e s = record {
    moved = λ n h.
        let (l, q) = a (suc m) refl in
        let same : m ≡ n = ground (arith, h) in
        let end : p ≡ start f + suc n = omega arith in
        (
          omega arith,
          end,
          grown_size (ltb inode.i_size p)
              ∙ ap (λ z. larger inode.i_size z) end
              ∙ ap (λ i. larger (size_of i) (start f + suc n)) (sym e),
        );
    unmoved = λ h. absurd (ground (arith, h));
  }
    where
      grown_size :
          (b : Bool)
          → size_of (some (if b then record inode { i_size = p } else inode))
            ≡ (if b then p else inode.i_size)
      grown_size true = refl
      grown_size false = refl

  write_within-WriteOk :
      (op : Transfer D) (f : File D) (inode : Inode) (count : ℕ)
      → Advances op
      → f.f_inode ≡ some inode
      → WriteOk f count (write_within op f inode count)
  unfolding write_within
  write_within-WriteOk op f inode count a e =
      let at = if appends f.f_flags then inode.i_size else f.f_pos in
      write_ends f inode count at (op f.disk at count)
        (λ n h. (a.count f.disk at count n h, a.behind f.disk at count n h)) e (rw e refl)

  write_inode-WriteOk :
      (o : Option (Transfer D)) (f : File D) (i : Option Inode) (count : ℕ)
      → ((op : Transfer D) → o ≡ some op → Advances op)
      → f.f_inode ≡ i
      → WriteOk f count (write_inode o f i count)
  unfolding write_inode code
  write_inode-WriteOk o f none count a e = write_fails f count 1
  write_inode-WriteOk none f (some inode) count a e =
      elim (Bool-cases (access_mode f.f_flags == 0)) [
        | inl g ↦ rw g (write_fails f count 12)
        | inr g ↦ elim (Bool-cases (is_dir inode.i_mode)) [
          | inl k ↦ rw (g, k) (write_fails f count 20)
          | inr k ↦ rw (g, k) (write_fails f count 37)
        ]
      ]
  write_inode-WriteOk (some op) f (some inode) count a e =
      elim (Bool-cases (access_mode f.f_flags == 0)) [
        | inl g ↦ rw g (write_fails f count 12)
        | inr g ↦ elim (Bool-cases (is_dir inode.i_mode)) [
          | inl k ↦ rw (g, k) (write_fails f count 20)
          | inr k ↦ rw (g, k) (write_within-WriteOk op f inode count (a op refl) e)
        ]
      ]

  -- `file_write` to a file that is no pipe and no device, with an operation of the file system that
  -- answers how many bytes it wrote and leaves the position that much further on. A write of some
  -- bytes begins at the position, or at the end of the file if the file was opened to append; the
  -- position is behind those bytes afterwards, and the size is the larger of what it was and that
  -- position. Any other write leaves the position and the inode as they were.
  pub file_write-WriteOk :
      (ops : FileOps D) (f : File D) (buf : Bool) (count : ℕ)
      → ((op : Transfer D) → ops.write ≡ some op → Advances op)
      → f.f_mode ≢ s_ififo
      → f.f_mode ≢ s_ifchr
      → WriteOk f count (file_write ops f buf count)
  unfolding file_write code
  file_write-WriteOk ops f buf count a p c =
      let np : (f.f_mode == s_ififo) ≡ false = ground arith in
      let nc : (f.f_mode == s_ifchr) ≡ false = ground arith in
      elim (Bool-cases (not buf || count == 0)) [
        | inl g ↦ rw g (write_fails f count 21)
        | inr g ↦ rw (g, np, nc) (write_inode-WriteOk ops.write f f.f_inode count a refl)
      ]
