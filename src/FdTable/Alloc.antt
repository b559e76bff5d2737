-- ===== src/FdTable/Alloc.antt =====
-- What `fd_alloc` returns.
use yu_noob_kernel.Base.{
  ℕ, zero, suc, ◌+◌, ◌-◌, ◌*◌, ◌/◌, ◌≤◌, ◌<◌, ◌≡◌, ◌≢◌, ◌⊎◌, inl, inr, refl, sym, ◌∙◌, arith, List,
  [], ◌∷◌, ◌++◌, length, get_or, set, replicate, length-append, length-replicate, Option, none,
  some, Bool, true, false, Bool-cases, ltb, ◌&&◌, get_or-set_self, get_or-set_ne, take_all,
  get_or-replicate,
}
use yu_noob_kernel.Errno.{emfile, Result, ok, err}
use yu_noob_kernel.FdTable.{
  Slot, empty, reserved, file, FdTable, slot_at, find_empty, grow, doubled, fd_alloc, nr_open_max,
}
use yu_noob_kernel.FdTable.Inv.{
  IsValid, IsSize, set-IsValid, count_files-append, count_files-replicate,
}

-- What the search of `n` slots from index `i` on says.
abbrev Searched : ℕ → ℕ → List Slot → Option ℕ → Type 0
Searched n i ss none = (j : ℕ) → i ≤ j → j < i + n → get_or ss j empty ≢ empty
Searched n i ss (some k) =
    (i ≤ k)
    × (k < i + n)
    × (get_or ss k empty ≡ empty)
    × ((j : ℕ) → i ≤ j → j < k → get_or ss j empty ≢ empty)

first_or_later : (i j : ℕ) → i ≤ j → (i ≡ j) ⊎ (i + 1 ≤ j)
first_or_later i j h = grind arith

later_too :
    (ss : List Slot) (i j : ℕ)
    → get_or ss i empty ≢ empty
    → i ≤ j
    → (i + 1 ≤ j → get_or ss j empty ≢ empty)
    → get_or ss j empty ≢ empty
later_too ss i j h a k = elim (first_or_later i j a) [ inl e ↦ rw (← e) h | inr l ↦ k l ]

skip_first :
    (n i : ℕ) (ss : List Slot) (r : Option ℕ)
    → get_or ss i empty ≢ empty
    → Searched n (i + 1) ss r
    → Searched (suc n) i ss r
skip_first n i ss none h s = λ j a b. later_too ss i j h a (λ l. s j l (omega arith))
skip_first n i ss (some k) h s =
    (omega arith, omega arith, s.2, λ j a b. later_too ss i j h a (λ l. s.3 j l b))

find_empty-Searched : (n i : ℕ) (ss : List Slot) → Searched n i ss (find_empty n i ss)
unfolding find_empty
find_empty-Searched zero i ss = λ j a b. absurd (omega arith)
find_empty-Searched (suc n) i ss = go (get_or ss i empty) refl (find_empty-Searched n (i + 1) ss)
  where
    go :
        (s : Slot)
        → get_or ss i empty ≡ s
        → Searched n (i + 1) ss (find_empty n (i + 1) ss)
        → Searched (suc n) i ss (find_empty (suc n) i ss)
    go empty e ih = rw (e, find_empty) (omega arith, omega arith, e, λ j a b. absurd (omega arith))
    go reserved e ih = rw (e, find_empty) (skip_first n i ss _ (λ q. cc) ih)
    go (file f) e ih = rw (e, find_empty) (skip_first n i ss _ (λ q. cc) ih)

-- What `fd_alloc` did with the descriptor `fd` that it returned: the slot was free or is new, it is
-- the lowest such one, it is reserved now, and no other slot has changed.
pub record Allocated (t t' : FdTable) (fd : ℕ) : Type 0 where
  pub in_range : fd < t'.max_fds
  pub was_free : slot_at t fd ≡ empty
  pub lowest : (j : ℕ) → j < fd → slot_at t j ≢ empty
  pub now_reserved : slot_at t' fd ≡ reserved
  pub others : (j : ℕ) → j ≢ fd → slot_at t' j ≡ slot_at t j

abbrev pub AllocOk : FdTable → Bool → FdTable × Result ℕ → Type 0
AllocOk t mem (t', ok fd) = IsValid t' × Allocated t t' fd
AllocOk t mem (t', err e) =
    (t' ≡ t)
    × (e ≡ emfile)
    × ((j : ℕ) → j < t.max_fds → slot_at t j ≢ empty)
    × ((t.max_fds ≡ nr_open_max) ⊎ (mem ≡ false))

get_or-past : (ss : List Slot) (i : ℕ) → length ss ≤ i → get_or ss i empty ≡ empty
get_or-past [] i h = refl
get_or-past (s ∷ ss) zero h = absurd (omega arith)
get_or-past (s ∷ ss) (suc i) h = get_or-past ss i (omega arith)

get_or-append_empty :
    (ss : List Slot) (n i : ℕ) → get_or (ss ++ replicate n empty) i empty ≡ get_or ss i empty
get_or-append_empty [] n i = get_or-replicate n i empty
get_or-append_empty (s ∷ ss) n zero = refl
get_or-append_empty (s ∷ ss) n (suc i) = get_or-append_empty ss n i

reserve_found :
    (t : FdTable) (mem : Bool) (fd : ℕ)
    → IsValid t
    → Searched t.max_fds 0 t.fds (some fd)
    → AllocOk t mem (record t { fds = set t.fds fd reserved }, ok fd)
reserve_found t mem fd v s = (
  set-IsValid t fd reserved t.open_fds v (omega arith) (rw s.2 refl),
  record {
    in_range = omega arith;
    was_free = s.2;
    lowest = λ j h. s.3 j (omega arith) h;
    now_reserved = get_or-set_self t.fds fd reserved empty (omega arith);
    others = λ j h. get_or-set_ne t.fds fd j reserved empty (λ e. h (sym e));
  },
)

-- The sizes of a table that is doubled.
twice-IsSize :
    (n : ℕ)
    → IsSize n
    → n < nr_open_max
    → (ltb nr_open_max (n * 2) ≡ false) × (n * 2 / 2 ≡ n) × IsSize (n * 2) × (n * 2 - n ≡ n)
twice-IsSize n h k = ground arith

module _ (t : FdTable) (v : IsValid t) (h : t.max_fds < nr_open_max) where
  -- The table with its old slots copied and the new ones NULL.
  wide : FdTable
  wide = record t { fds = t.fds ++ replicate t.max_fds empty; max_fds = t.max_fds * 2 }

  wide-IsValid : IsValid wide
  unfolding wide
  wide-IsValid = record {
    storage =
        omega (
          arith,
          length-append t.fds (replicate t.max_fds empty),
          length-replicate t.max_fds empty,
        );
    size = (twice-IsSize t.max_fds v.size h).2;
    counted = omega (
      arith,
      count_files-append t.fds (replicate t.max_fds empty),
      count_files-replicate t.max_fds,
    );
  }

  doubled-eq : doubled t ≡ (record wide { fds = set wide.fds t.max_fds reserved }, ok t.max_fds)
  unfolding doubled wide
  doubled-eq =
      let (e₁, e₂, size', e₃) = twice-IsSize t.max_fds v.size h in
      rw (e₁, e₂, e₃, take_all t.max_fds t.fds (omega arith))

  wide-slot : (j : ℕ) → slot_at wide j ≡ slot_at t j
  unfolding wide
  wide-slot j = get_or-append_empty t.fds t.max_fds j

  length-wide : length wide.fds ≡ t.max_fds * 2
  unfolding wide
  length-wide = wide-IsValid.storage

  doubled-AllocOk : (mem : Bool) → Searched t.max_fds 0 t.fds none → AllocOk t mem (doubled t)
  doubled-AllocOk mem s = rw doubled-eq (
    valid,
    record {
      in_range = omega (arith, v.size, max_fds-wide);
      was_free = get_or-past t.fds t.max_fds (omega arith);
      lowest = λ j l. s j (omega arith) (omega arith);
      now_reserved =
          get_or-set_self wide.fds t.max_fds reserved empty (omega (arith, length-wide, v.size));
      others =
          λ j l. get_or-set_ne wide.fds t.max_fds j reserved empty (λ e. l (sym e)) ∙ wide-slot j;
    },
  )
    where
      max_fds-wide : wide.max_fds ≡ t.max_fds * 2
      max_fds-wide = unfold wide in refl

      valid : IsValid (record wide { fds = set wide.fds t.max_fds reserved })
      valid =
          set-IsValid wide t.max_fds reserved wide.open_fds wide-IsValid
            (omega (arith, v.size, max_fds-wide))
            (rw (wide-slot t.max_fds, get_or-past t.fds t.max_fds (omega arith)) refl)

no_more :
    (t : FdTable) (mem : Bool)
    → IsValid t
    → (ltb t.max_fds nr_open_max && mem) ≡ false
    → (t.max_fds ≡ nr_open_max) ⊎ (mem ≡ false)
no_more t true v e = inl (ground (arith, v.size))
no_more t false v e = inr refl

grow-AllocOk :
    (t : FdTable) (mem : Bool)
    → IsValid t
    → Searched t.max_fds 0 t.fds none
    → AllocOk t mem (grow t mem)
unfolding grow
grow-AllocOk t mem v s = elim (Bool-cases (ltb t.max_fds nr_open_max && mem)) [
  | inl e ↦ rw e (doubled-AllocOk t v (ground arith) mem s)
  | inr e ↦ rw e (refl, refl, (λ j h. s j (omega arith) (omega arith)), no_more t mem v e)
]

-- `fd_alloc` keeps the table well formed. If it returns a descriptor, that is the lowest one whose
-- slot was NULL or lay behind the table, its slot is reserved now, and no other slot has changed;
-- otherwise it returns EMFILE and has changed
-- nothing, every slot is in use, and the table has 1024 slots or there is no memory for more.
pub fd_alloc_lem : (t : FdTable) (mem : Bool) → IsValid t → AllocOk t mem (fd_alloc t mem)
unfolding fd_alloc
fd_alloc_lem t mem v =
    go (find_empty t.max_fds 0 t.fds) refl (find_empty-Searched t.max_fds 0 t.fds)
  where
    go :
        (r : Option ℕ)
        → find_empty t.max_fds 0 t.fds ≡ r
        → Searched t.max_fds 0 t.fds (find_empty t.max_fds 0 t.fds)
        → AllocOk t mem (fd_alloc t mem)
    go (some fd) e s = rw (e, fd_alloc) (reserve_found t mem fd v (rw e at s))
    go none e s = rw (e, fd_alloc) (grow-AllocOk t mem v (rw e at s))

-- Two calls of `fd_alloc` in a row that succeed return different descriptors, although nothing was
-- installed in between.
pub fd_alloc_twice :
    {t t₁ t₂ : FdTable} {a b : ℕ} (mem₁ mem₂ : Bool)
    → IsValid t
    → fd_alloc t mem₁ ≡ (t₁, ok a)
    → fd_alloc t₁ mem₂ ≡ (t₂, ok b)
    → a ≢ b
fd_alloc_twice {t} {t₁} {t₂} {a} {b} mem₁ mem₂ v h k =
    let (valid, first) = rw h at (fd_alloc_lem t mem₁ v) in
    let (_, second) = rw k at (fd_alloc_lem t₁ mem₂ valid) in
    λ e. taken_or_free first.now_reserved (rw (← e) at second.was_free)
  where
    taken_or_free : slot_at t₁ a ≡ reserved → slot_at t₁ a ≡ empty → ⊥
    taken_or_free p q = cc
