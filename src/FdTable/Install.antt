-- ===== src/FdTable/Install.antt =====
-- `fd_install`, `fd_get` and `fd_free` on one descriptor.
use yu_noob_kernel.Base.{
  ℕ, ◌+◌, ◌-◌, ◌%◌, ◌^◌, ◌<◌, ◌≡◌, ◌≢◌, ◌⊎◌, inl, inr, refl, sym, ap, arith, get_or, set, Option,
  none, some, false, Bool-cases, get_or-set_self, get_or-set_ne, ℤ, pos, pos_part,
}
use yu_noob_kernel.Errno.{ebadf, Result, ok, err}
use yu_noob_kernel.FdTable.{
  Slot, empty, reserved, file, FdTable, Files, slot_at, file_get, file_put, fd_install, fd_get,
  fd_free, out_of_range,
}
use yu_noob_kernel.FdTable.Inv.{
  IsValid, set-IsValid, count_files, count_files-le, count_files-set, one_if_file,
}

put_file-IsValid :
    (t : FdTable) (fd f : ℕ)
    → IsValid t
    → fd < t.max_fds
    → one_if_file (slot_at t fd) ≡ 0
    → IsValid (record t { fds = set t.fds fd (file f); open_fds = (t.open_fds + 1) % 2 ^ 32 })
put_file-IsValid t fd f v h e =
    set-IsValid t fd (file f) _ v h
      (rw e (ground (arith, v.size, v.counted, v.storage, count_files-le t.fds)))

-- `fd_install` keeps the table well formed.
pub fd_install-IsValid :
    (t : FdTable) (fd : ℤ) (f : Option ℕ) → IsValid t → IsValid (fd_install t fd f).0
unfolding fd_install
fd_install-IsValid t fd none v = v
fd_install-IsValid t fd (some f) v = elim (Bool-cases (out_of_range t fd)) [
  | inl e ↦ rw e v
  | inr e ↦ rw e (go (slot_at t (pos_part fd)) refl (ground arith))
]
  where
    go :
        (s : Slot)
        → slot_at t (pos_part fd) ≡ s
        → pos_part fd < t.max_fds
        → IsValid
            (elim (slot_at t (pos_part fd)) as (λ _. FdTable × Result (Unit {0})) [
              | file g ↦ (t, err ebadf)
              | _ ↦ (
                record t {
                  fds = set t.fds (pos_part fd) (file f);
                  open_fds = (t.open_fds + 1) % 2 ^ 32;
                },
                ok tt,
              )
            ]).0
    go (file g) e h = rw e v
    go empty e h = rw e (put_file-IsValid t (pos_part fd) f v h (rw e refl))
    go reserved e h = rw e (put_file-IsValid t (pos_part fd) f v h (rw e refl))

installed :
    (t : FdTable) (fd : ℤ) (f : ℕ) {t' : FdTable}
    → fd_install t fd (some f) ≡ (t', ok tt)
    → (out_of_range t fd ≡ false)
      × ((slot_at t (pos_part fd) ≡ empty) ⊎ (slot_at t (pos_part fd) ≡ reserved))
      × (t'.fds ≡ set t.fds (pos_part fd) (file f))
      × (t'.max_fds ≡ t.max_fds)
unfolding fd_install
installed t fd f h = ground arith

-- A file that `fd_install` put under a descriptor is what `fd_get` of it returns, with one more
-- reference; the slot was NULL or reserved before, and no other slot has changed.
pub install-get :
    (t : FdTable) (fs : Files) (fd : ℤ) (f : ℕ) {t' : FdTable}
    → IsValid t
    → fd_install t fd (some f) ≡ (t', ok tt)
    → (fd_get t' fs fd ≡ (some f, file_get fs f))
      × ((slot_at t (pos_part fd) ≡ empty) ⊎ (slot_at t (pos_part fd) ≡ reserved))
      × ((j : ℕ) → j ≢ pos_part fd → slot_at t' j ≡ slot_at t j)
unfolding fd_get
install-get t fs fd f {t'} v h = (found, was, others)
  where
    inside : out_of_range t fd ≡ false
    inside = (installed t fd f h).0

    was : (slot_at t (pos_part fd) ≡ empty) ⊎ (slot_at t (pos_part fd) ≡ reserved)
    was = (installed t fd f h).1

    slots : t'.fds ≡ set t.fds (pos_part fd) (file f)
    slots = (installed t fd f h).2

    inside' : out_of_range t' fd ≡ false
    inside' = rw (installed t fd f h).3 inside

    here : slot_at t' (pos_part fd) ≡ file f
    here =
        rw slots
          (get_or-set_self t.fds (pos_part fd) (file f) empty (ground (arith, inside, v.storage)))

    found : fd_get t' fs fd ≡ (some f, file_get fs f)
    found = rw (inside', here, fd_get)

    others : (j : ℕ) → j ≢ pos_part fd → slot_at t' j ≡ slot_at t j
    others j n = rw slots (get_or-set_ne t.fds (pos_part fd) j (file f) empty (λ e. n (sym e)))

free_slot-IsValid :
    (t : FdTable) (fd f : ℕ)
    → IsValid t
    → fd < t.max_fds
    → slot_at t fd ≡ file f
    → IsValid (record t { fds = set t.fds fd empty; open_fds = (t.open_fds + 2 ^ 32 - 1) % 2 ^ 32 })
free_slot-IsValid t fd f v h e =
    let c = count_files-set t.fds fd empty (omega (arith, v.storage)) in
    let c' : count_files (set t.fds fd empty) + 1 ≡ count_files t.fds + 0 =
      rw (← ap one_if_file e) c in
    set-IsValid t fd empty _ v h
      (rw e (ground (arith, c', v.size, v.counted, v.storage, count_files-le t.fds)))

-- What `fd_free` of a descriptor in the table does.
pub record Freed (t : FdTable) (fs : Files) (fd : ℕ) (out : FdTable × Files) : Type 0 where
  pub valid : IsValid out.0
  pub gone : slot_at out.0 fd ≡ empty
  pub others : (j : ℕ) → j ≢ fd → slot_at out.0 j ≡ slot_at t j
  pub put : (f : ℕ) → slot_at t fd ≡ file f → out.1 ≡ file_put fs f
  pub kept : ((f : ℕ) → slot_at t fd ≢ file f) → out.1 ≡ fs

-- `fd_free` of a descriptor in the table empties its slot and no other, puts the file that it held,
-- if any, touches no other count, and keeps the table well formed.
pub fd_free-Freed :
    (t : FdTable) (fs : Files) (fd : ℕ)
    → IsValid t
    → fd < t.max_fds
    → Freed t fs fd (fd_free t fs (pos fd))
unfolding fd_free
fd_free-Freed t fs fd v h = go (slot_at t fd) refl
  where
    in_range : out_of_range t (pos fd) ≡ false
    in_range = ground arith

    others : (j : ℕ) → j ≢ fd → get_or (set t.fds fd empty) j empty ≡ get_or t.fds j empty
    others j n = get_or-set_ne t.fds fd j empty empty (λ e. n (sym e))

    gone : get_or (set t.fds fd empty) fd empty ≡ empty
    gone = get_or-set_self t.fds fd empty empty (omega (arith, v.storage))

    go : (s : Slot) → slot_at t fd ≡ s → Freed t fs fd (fd_free t fs (pos fd))
    go (file f) e =
        rw (in_range, e, fd_free)
          (record {
            valid = free_slot-IsValid t fd f v h e;
            gone = gone;
            others = others;
            put = λ g e'. ap (file_put fs) (ground (arith, e, e'));
            kept = λ n. absurd (n f e);
          })
    go empty e =
        rw (in_range, e, fd_free)
          (record {
            valid = set-IsValid t fd empty t.open_fds v h (rw e refl);
            gone = gone;
            others = others;
            put = λ g e'. absurd (ground (arith, e, e'));
            kept = λ n. refl;
          })
    go reserved e =
        rw (in_range, e, fd_free)
          (record {
            valid = set-IsValid t fd empty t.open_fds v h (rw e refl);
            gone = gone;
            others = others;
            put = λ g e'. absurd (ground (arith, e, e'));
            kept = λ n. refl;
          })
