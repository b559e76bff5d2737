-- ===== src/FdTable/Dup.antt =====
-- What `fd_table_dup` copies, and that freeing the copy undoes it.
use mathlib.Core.Path.{subst}
use native.Mathlib.Decide.{ℕ_discrete}
use yu_noob_kernel.Base.{
  ℕ, zero, suc, ◌+◌, ◌%◌, ◌^◌, ◌≤◌, ◌<◌, ◌≡◌, ◌⊎◌, inl, inr, refl, sym, ap, ◌∙◌, arith, List, [],
  ◌∷◌, length, get_or, set, replicate, length-replicate, some, true, get_or-set_self, get_or-set_ne,
  take_all, get_or-replicate,
}
use yu_noob_kernel.FdTable.{
  Slot, empty, reserved, file, FdTable, Files, slot_at, file_get, dup_slots, fd_table_free,
  fd_table_dup, nr_open_default, least,
}
use yu_noob_kernel.FdTable.Inv.{IsValid, IsSize, set-IsValid, count_files-replicate, count_files-le}
use yu_noob_kernel.FdTable.Refs.{
  count_of, holds, times_closed, count_of-set, count_of-replicate, put_slots-Puts,
}

-- What a copy keeps of a slot.
abbrev pub kept : Slot → Slot
kept (file f) = file f
kept _ = empty

file_get_lem :
    (g f : ℕ) (fs : Files)
    → fs.refcnt g + 1 < 2 ^ 32
    → ((file_get fs f).refcnt g ≡ fs.refcnt g + holds g (file f))
      × ((file_get fs f).closed ≡ fs.closed)
unfolding file_get holds
file_get_lem g f fs h = ground arith

file_get_closed : (f : ℕ) (fs : Files) → (file_get fs f).closed ≡ fs.closed
unfolding file_get
file_get_closed f fs = refl

holds-le : (g : ℕ) (s : Slot) → holds g s ≤ 1
unfolding holds
holds-le g s = ground arith

none_held : (g : ℕ) {s : Slot} → s ≡ empty → holds g s ≡ 0
unfolding holds
none_held g e = rw e

-- What the loop does from index `i` on with `n` rounds left.
record Dups (n i : ℕ) (src : List Slot) (new : FdTable) (fs : Files) (out : FdTable × Files)
    : Type 0 where
  valid : IsValid out.0
  inside : (j : ℕ) → i ≤ j → j < i + n → slot_at out.0 j ≡ kept (get_or src j empty)
  outside : (j : ℕ) → (j < i) ⊎ (i + n ≤ j) → slot_at out.0 j ≡ slot_at new j
  size : out.0.max_fds ≡ new.max_fds
  refs :
      (g : ℕ)
      → fs.refcnt g + n < 2 ^ 32
      → out.1.refcnt g + count_of g new.fds ≡ fs.refcnt g + count_of g out.0.fds
  closed : out.1.closed ≡ fs.closed

-- The table after one round that copies the file `f`.
abbrev put_in : FdTable → ℕ → ℕ → FdTable
put_in new i f = record new { fds = set new.fds i (file f); open_fds = (new.open_fds + 1) % 2 ^ 32 }

put_in-IsValid :
    (new : FdTable) (i f : ℕ)
    → IsValid new
    → i < new.max_fds
    → slot_at new i ≡ empty
    → IsValid (put_in new i f)
put_in-IsValid new i f v h e =
    set-IsValid new i (file f) _ v h
      (rw e (ground (arith, v.size, v.counted, v.storage, count_files-le new.fds)))

skip_round :
    (n i : ℕ) (src : List Slot) (new : FdTable) (fs : Files) (out : FdTable × Files)
    → slot_at new i ≡ kept (get_or src i empty)
    → Dups n (i + 1) src new fs out
    → Dups (suc n) i src new fs out
skip_round n i src new fs out e d = record {
  valid = d.valid;
  inside = λ j a b. elim (ℕ_discrete i j) [
    | yes p ↦ rw (← p) (d.outside i (inl (omega arith)) ∙ e)
    | no p ↦ d.inside j (omega arith) (omega arith)
  ];
  outside = λ j h. d.outside j (grind arith);
  size = d.size;
  refs = λ g h. d.refs g (omega arith);
  closed = d.closed;
}

copy_round :
    (n i f : ℕ) (src : List Slot) (new : FdTable) (fs : Files) (out : FdTable × Files)
    → i < length new.fds
    → slot_at new i ≡ empty
    → get_or src i empty ≡ file f
    → Dups n (i + 1) src (put_in new i f) (file_get fs f) out
    → Dups (suc n) i src new fs out
copy_round n i f src new fs out l free e d = record {
  valid = d.valid;
  inside = λ j a b. elim (ℕ_discrete i j) [
    | yes p ↦ rw (← p) (
        d.outside i (inl (omega arith))
        ∙ (get_or-set_self new.fds i (file f) empty l ∙ sym (ap kept e)))
    | no p ↦ d.inside j (omega arith) (omega arith)
  ];
  outside = λ j h.
      d.outside j (grind arith) ∙ get_or-set_ne new.fds i j (file f) empty (ground (arith, h));
  size = d.size;
  refs = λ g h. omega (
    arith,
    d.refs g (omega (arith, (file_get_lem g f fs (omega arith)).0, holds-le g (file f))),
    (file_get_lem g f fs (omega arith)).0,
    count_of-set g new.fds i (file f) l,
    none_held g free,
  );
  closed = d.closed ∙ file_get_closed f fs;
}

dup_slots-Dups :
    (n i : ℕ) (src : List Slot) (new : FdTable) (fs : Files)
    → IsValid new
    → i + n ≤ new.max_fds
    → ((j : ℕ) → i ≤ j → slot_at new j ≡ empty)
    → Dups n i src new fs (dup_slots n i src new fs)
unfolding dup_slots
dup_slots-Dups zero i src new fs v h free = record {
  valid = v;
  inside = λ j a b. absurd (omega arith);
  outside = λ j k. refl;
  size = refl;
  refs = λ g k. refl;
  closed = refl;
}
dup_slots-Dups (suc n) i src new fs v h free =
    go (get_or src i empty) refl
      (dup_slots-Dups n (i + 1) src new fs v (omega arith) (λ j a. free j (omega arith)))
      (λ f.
        dup_slots-Dups n (i + 1) src (put_in new i f) (file_get fs f)
          (put_in-IsValid new i f v (omega arith) (free i (omega arith))) (omega arith)
          (λ j a. get_or-set_ne new.fds i j (file f) empty (omega arith) ∙ free j (omega arith)))
  where
    go :
        (s : Slot)
        → get_or src i empty ≡ s
        → Dups n (i + 1) src new fs (dup_slots n (i + 1) src new fs)
        → ((f : ℕ)
            → Dups n
                (i + 1)
                src
                (put_in new i f)
                (file_get fs f)
                (dup_slots n (i + 1) src (put_in new i f) (file_get fs f)))
        → Dups (suc n) i src new fs (dup_slots (suc n) i src new fs)
    go (file f) e same copied =
        rw (e, dup_slots)
          (copy_round n i f src new fs _ (omega (arith, v.storage)) (free i (omega arith)) e
            (copied f))
    go empty e same copied =
        rw (e, dup_slots)
          (skip_round n i src new fs _ (free i (omega arith) ∙ sym (ap kept e)) same)
    go reserved e same copied =
        rw (e, dup_slots)
          (skip_round n i src new fs _ (free i (omega arith) ∙ sym (ap kept e)) same)

-- A copy that was made: its slots below 32 hold the files of the original there, every other slot is
-- NULL, every file has one more reference for each slot of the copy that holds it, provided that its
-- count stays below 2 ^ 32, and nothing is closed.
pub record Copied (t : FdTable) (fs : Files) (t' : FdTable) (fs' : Files) : Type 0 where
  pub valid : IsValid t'
  pub size : t'.max_fds ≡ nr_open_default
  pub low : (fd : ℕ) → fd < nr_open_default → slot_at t' fd ≡ kept (slot_at t fd)
  pub high : (fd : ℕ) → nr_open_default ≤ fd → slot_at t' fd ≡ empty
  pub refs :
      (g : ℕ)
      → fs.refcnt g + nr_open_default < 2 ^ 32
      → fs'.refcnt g ≡ fs.refcnt g + count_of g t'.fds
  pub closed : fs'.closed ≡ fs.closed

fresh : FdTable
fresh = record { fds = replicate nr_open_default empty; max_fds = nr_open_default; open_fds = 0 }

fresh-IsValid : IsValid fresh
unfolding fresh
fresh-IsValid = record {
  storage = length-replicate nr_open_default empty;
  size = inl refl;
  counted = sym (count_files-replicate nr_open_default);
}

fresh-slot : (j : ℕ) → slot_at fresh j ≡ empty
unfolding fresh
fresh-slot j = get_or-replicate nr_open_default j empty

fresh-count : (g : ℕ) → count_of g fresh.fds ≡ 0
unfolding fresh
fresh-count g = count_of-replicate g nr_open_default

dup_slots-Copied :
    (t : FdTable) (fs : Files)
    → let (t', fs') = dup_slots nr_open_default 0 t.fds fresh fs in Copied t fs t' fs'
unfolding fresh
dup_slots-Copied t fs = record {
  valid = d.valid;
  size = d.size;
  low = λ fd h. d.inside fd (omega arith) (omega arith);
  high = λ fd h. d.outside fd (inr (omega arith)) ∙ fresh-slot fd;
  refs = λ g h. omega (arith, d.refs g h, fresh-count g);
  closed = d.closed;
}
  where
    d : Dups nr_open_default 0 t.fds fresh fs (dup_slots nr_open_default 0 t.fds fresh fs)
    d =
        dup_slots-Dups nr_open_default 0 t.fds fresh fs fresh-IsValid (unfold fresh in omega arith)
          (λ j h. fresh-slot j)

least_size : (n : ℕ) → IsSize n → least n nr_open_default ≡ nr_open_default
least_size n h = ground arith

-- With memory at hand `fd_table_dup` of a well-formed table copies the descriptors below 32, and
-- takes a reference for each; those from 32 on, which a table that has grown can hold, are left out.
pub fd_table_dup-Copied :
    (t : FdTable) (fs : Files)
    → IsValid t
    → (t' : FdTable) × (fs' : Files) × (fd_table_dup t fs true true ≡ some (t', fs'))
      × Copied t fs t' fs'
unfolding fd_table_dup fresh
fd_table_dup-Copied t fs v = (
  (dup_slots nr_open_default 0 t.fds fresh fs).0,
  (dup_slots nr_open_default 0 t.fds fresh fs).1,
  rw (least_size t.max_fds v.size),
  dup_slots-Copied t fs,
)

Copied-of :
    (t : FdTable) (fs : Files) {t' : FdTable} {fs' : Files}
    → IsValid t
    → fd_table_dup t fs true true ≡ some (t', fs')
    → Copied t fs t' fs'
Copied-of t fs {t' = t'} {fs' = fs'} v h =
    let (a, b, e, c) = fd_table_dup-Copied t fs v in
    let same : ◌≡◌ {A = FdTable × Files} (a, b) (t', fs') = cc in
    subst (λ x. Copied t fs x.0 x.1) same c

count_of-le : (g : ℕ) (ss : List Slot) → count_of g ss ≤ length ss
unfolding count_of
count_of-le g [] = omega arith
count_of-le g (s ∷ ss) = omega (arith, holds-le g s, count_of-le g ss)

-- Duplicating a well-formed table and freeing the copy leaves every reference count as it was and
-- closes no file, provided that each file of the table has a reference and that the counts stay below
-- 2 ^ 32.
pub dup-free :
    (t : FdTable) (fs : Files) {t' : FdTable} {fs' : Files}
    → IsValid t
    → fd_table_dup t fs true true ≡ some (t', fs')
    → (g : ℕ) → 0 < fs.refcnt g
    → fs.refcnt g + nr_open_default < 2 ^ 32
    → ((fd_table_free t' fs').refcnt g ≡ fs.refcnt g)
      × (times_closed g (fd_table_free t' fs').closed ≡ times_closed g fs.closed)
dup-free t fs {t'} {fs'} v h g pos small =
    let c = Copied-of t fs v h in
    let all = take_all t'.max_fds t'.fds (omega (arith, c.valid.storage)) in
    let few : count_of g t'.fds ≤ nr_open_default =
      omega (arith, count_of-le g t'.fds, c.valid.storage, c.size) in
    let puts =
      put_slots-Puts g t'.fds fs' (omega (arith, c.refs g small)) (omega (arith, c.refs g small)) in
    unfold fd_table_free in
    rw all (ground (arith, puts, c.refs g small, ap (times_closed g) c.closed))
