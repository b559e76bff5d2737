-- ===== src/OpenFile/Seek.antt =====
-- What a seek leaves.
use yu_noob_kernel.Base.{
  ℕ, ◌+◌, ◌%◌, ◌^◌, ◌≡◌, ◌⊎◌, inl, inr, refl, arith, true, false, Bool-cases, if◌then◌else◌, Option,
  none, some,
}
use yu_noob_kernel.Errno.{code, einval, enoent, eisdir}
use yu_noob_kernel.OpenFile.{
  fail64, Inode, FileOps, File, is_dir, is_neg64, target, set_position, seek_inode, file_lseek,
}

module _ {ℓ} {D : Type ℓ} where
  -- What a seek did: it failed and changed nothing, or its result is the position and nothing else
  -- of the file changed.
  abbrev pub SeekOk : File D → File D × ℕ → Type ℓ
  SeekOk f (f', p) =
      ((is_neg64 p ≡ true) × (f' ≡ f)) ⊎ ((is_neg64 p ≡ false) × (f' ≡ record f { f_pos = p }))

  seek_fails : (f : File D) (p : ℕ) → is_neg64 p ≡ true → SeekOk f (f, p)
  seek_fails f p h = inl (h, refl)

  set_position-SeekOk :
      (o : Option (ℕ → ℕ → ℕ)) (f : File D) (p offset whence : ℕ)
      → is_neg64 p ≡ false
      → SeekOk f (set_position o f p offset whence)
  unfolding set_position
  set_position-SeekOk none f p offset whence h = inr (h, refl)
  set_position-SeekOk (some seek) f p offset whence h =
      elim (Bool-cases (is_neg64 (seek offset whence))) [
        | inl g ↦ rw g (seek_fails f (seek offset whence) g)
        | inr g ↦ rw g (inr (g, refl))
      ]

  seek_to-SeekOk :
      (ops : FileOps D) (f : File D) (o : Option ℕ) (offset whence : ℕ)
      → SeekOk f (elim o [
        | none ↦ (f, fail64 einval)
        | some p ↦
            if is_neg64 p then (f, fail64 einval) else set_position ops.llseek f p offset whence
      ])
  unfolding code
  seek_to-SeekOk ops f none offset whence = seek_fails f (fail64 einval) refl
  seek_to-SeekOk ops f (some p) offset whence = elim (Bool-cases (is_neg64 p)) [
    | inl g ↦ rw g (seek_fails f (fail64 einval) refl)
    | inr g ↦ rw g (set_position-SeekOk ops.llseek f p offset whence g)
  ]

  seek_inode-SeekOk :
      (ops : FileOps D) (f : File D) (i : Option Inode) (offset whence : ℕ)
      → SeekOk f (seek_inode ops f i offset whence)
  unfolding seek_inode code
  seek_inode-SeekOk ops f none offset whence = seek_fails f (fail64 enoent) refl
  seek_inode-SeekOk ops f (some inode) offset whence = elim (Bool-cases (is_dir inode.i_mode)) [
    | inl g ↦ rw g (seek_fails f (fail64 eisdir) refl)
    | inr g ↦ rw g (seek_to-SeekOk ops f (target f inode offset whence) offset whence)
  ]

  -- `file_lseek` with any offset and base, whatever the operation of the file system chooses: a
  -- negative result leaves the file as it was, and any other result is the new position of the file,
  -- of which nothing else has changed.
  pub file_lseek-SeekOk :
      (ops : FileOps D) (f : File D) (offset whence : ℕ) → SeekOk f (file_lseek ops f offset whence)
  unfolding file_lseek
  file_lseek-SeekOk ops f offset whence = seek_inode-SeekOk ops f f.f_inode offset whence

  tell_at :
      (ops : FileOps D) (f : File D) (inode : Inode) (p : ℕ)
      → ops.llseek ≡ none
      → f.f_inode ≡ some inode
      → is_dir inode.i_mode ≡ false
      → is_neg64 p ≡ false
      → file_lseek ops (record f { f_pos = p }) 0 1 ≡ (record f { f_pos = p }, p)
  unfolding file_lseek seek_inode target set_position
  tell_at ops f inode p o e d s =
      let same : (p + 0) % 2 ^ 64 ≡ p = ground arith in rw (e, d, same, s, o) refl

  -- After a seek of a file that is no directory, where the file system has no operation of its own,
  -- a seek by 0 from the position answers the position that the first one answered, and changes
  -- nothing.
  pub file_lseek-tell :
      (ops : FileOps D) (f : File D) (inode : Inode) (offset whence : ℕ)
      → ops.llseek ≡ none
      → f.f_inode ≡ some inode
      → is_dir inode.i_mode ≡ false
      → is_neg64 (file_lseek ops f offset whence).1 ≡ false
      → file_lseek ops (file_lseek ops f offset whence).0 0 1 ≡ file_lseek ops f offset whence
  file_lseek-tell ops f inode offset whence o e d s =
      again (file_lseek ops f offset whence) s (file_lseek-SeekOk ops f offset whence)
    where
      again : (r : File D × ℕ) → is_neg64 r.1 ≡ false → SeekOk f r → file_lseek ops r.0 0 1 ≡ r
      again (f', p) s (inl (h, k)) = absurd (ground (arith, h, s))
      again (f', p) s (inr (h, k)) = rw k (tell_at ops f inode p o e d h)
