-- ===== src/Vma/Remove.antt =====
-- What `vma_remove` does to an ordered list.
use yu_noob_kernel.Base.{
  ℕ, ◌+◌, ◌/◌, ◌≤◌, ◌<◌, ◌≡◌, ◌≢◌, ◌⊎◌, refl, arith, true, false, not, Bool-cases, inl, inr, ltb,
  leb, ◌==◌, if◌then◌else◌, ◌&&◌, ◌||◌, List, [], ◌∷◌, Option, none, some, sym, ◌∙◌,
}
use yu_noob_kernel.Errno.{enoent, ok, err}
use yu_noob_kernel.Vma.{
  Vma, end_of, overlaps, vma_find, vma_insert, insert_before, unlink_found, Removal, vma_remove,
  page_size,
}
use yu_noob_kernel.Vma.Find.{
  IsProper, AllFrom, IsOrdered, contains, AllFrom-mono, find_first, find_first_below,
  vma_find-eq-find_first,
}
use yu_noob_kernel.Vma.Insert.{overlaps-eq-clash, clash-false}

unlink_found-AllFrom :
    (a : ℕ) (vs : List Vma) (va : ℕ) → IsOrdered vs → AllFrom a vs → AllFrom a (unlink_found vs va)
unfolding unlink_found
unlink_found-AllFrom a [] va o h = tt
unlink_found-AllFrom a (v ∷ vs) va o h = elim (Bool-cases (ltb va v.start)) [
  | inl e ↦ rw e h
  | inr e ↦ rw e (elim (Bool-cases (ltb va (end_of v))) [
    | inl d ↦ rw d h.1
    | inr d ↦ rw d (h.0, unlink_found-AllFrom a vs va o.2 h.1)
  ])
]

unlink_found-IsOrdered : (vs : List Vma) (va : ℕ) → IsOrdered vs → IsOrdered (unlink_found vs va)
unfolding unlink_found
unlink_found-IsOrdered [] va o = tt
unlink_found-IsOrdered (v ∷ vs) va o = elim (Bool-cases (ltb va v.start)) [
  | inl e ↦ rw e o
  | inr e ↦ rw e (elim (Bool-cases (ltb va (end_of v))) [
    | inl d ↦ rw d o.2
    | inr d ↦ rw d (
      o.0,
      unlink_found-AllFrom (v.start + v.length) vs va o.2 o.1,
      unlink_found-IsOrdered vs va o.2,
    )
  ])
]

found-from :
    (a : ℕ) (vs : List Vma) (va : ℕ) (found : Vma)
    → AllFrom a vs
    → vma_find vs va ≡ some found
    → a ≤ found.start
unfolding vma_find
found-from a [] va found k h = ground arith
found-from a (v ∷ vs) va found k h = ground (arith, found-from a vs va found k.1)

-- With the area that was found taken out, no area contains its addresses, and all others are found
-- as before.
find_first-unlink_found :
    (vs : List Vma) (va : ℕ) (found : Vma) (x : ℕ)
    → IsOrdered vs
    → vma_find vs va ≡ some found
    → find_first (unlink_found vs va) x ≡ (if contains found x then none else find_first vs x)
unfolding unlink_found vma_find find_first
find_first-unlink_found [] va found x o h = ground arith
find_first-unlink_found (v ∷ vs) va found x o h = ground (
  arith,
  o.0.no_wrap,
  find_first-unlink_found vs va found x o.2,
  found-from (v.start + v.length) vs va found o.1,
  λ (p : x < v.start + v.length).
      find_first_below vs x (AllFrom-mono (x + 1) (v.start + v.length) vs (omega arith) o.1),
)

-- An area that was found contains the address.
found-contains :
    (vs : List Vma) (va : ℕ) (found : Vma)
    → IsOrdered vs
    → vma_find vs va ≡ some found
    → contains found va ≡ true
unfolding vma_find
found-contains [] va found o h = ground arith
found-contains (v ∷ vs) va found o h = ground (arith, o.0.no_wrap, found-contains vs va found o.2)

-- What a removal that succeeded has done.
pub record Removed (vs : List Vma) (start length : ℕ) (r : Removal) : Type 0 where
  pub result : r.result ≡ ok tt
  pub ordered : IsOrdered r.left
  pub found :
      (va : ℕ)
      → vma_find r.left va
        ≡ (if leb start va && ltb va (start + length) then none else vma_find vs va)
  pub unmapped : r.unmap ≡ some (record { at = start; npages = length / page_size })

same_area :
    (v : Vma) (start length : ℕ) (r : Option Vma) (va : ℕ)
    → v.start ≡ start
    → v.length ≡ length
    → (if contains v va then none else r)
      ≡ (if leb start va && ltb va (start + length) then none else r)
same_area v start length r va a b = rw (a, b)

-- `vma_remove` on an ordered list succeeds exactly if an area of the list has this start and this
-- length: the list stays ordered, no area is found any more for the addresses of that area, those for
-- all others are found as before, and its pages are unmapped. Otherwise it returns ENOENT, leaves the
-- list and unmaps nothing.
pub vma_remove_lem :
    (vs : List Vma) (start length : ℕ)
    → IsOrdered vs
    → ((v : Vma) × (vma_find vs start ≡ some v)
        × (v.start ≡ start)
        × (v.length ≡ length)
        × Removed vs start length (vma_remove vs start length))
      ⊎ (((v : Vma) → vma_find vs start ≡ some v → v.start ≡ start → v.length ≢ length)
          × (vma_remove vs start length ≡ record { left = vs; result = err enoent; unmap = none }))
unfolding vma_remove
vma_remove_lem vs start length o = go (vma_find vs start) refl
  where
    go :
        (r : Option Vma)
        → vma_find vs start ≡ r
        → ((v : Vma) × (vma_find vs start ≡ some v)
            × (v.start ≡ start)
            × (v.length ≡ length)
            × Removed vs start length (vma_remove vs start length))
          ⊎ (((v : Vma) → vma_find vs start ≡ some v → v.start ≡ start → v.length ≢ length)
              × (vma_remove vs start length
                  ≡ record { left = vs; result = err enoent; unmap = none }))
    go none e = inr ((λ v h. ground (arith, e, h)), rw (e, vma_remove))
    go (some v) e = elim (Bool-cases (not (v.start == start) || not (v.length == length))) [
      | inl other ↦ inr ((λ w h a b. ground (arith, e, h, a, b, other)), rw (e, other, vma_remove))
      | inr same ↦ inl (
        v,
        e,
        ground (arith, same),
        ground (arith, same),
        rw (e, same, vma_remove)
            (record {
              result = refl;
              ordered = unlink_found-IsOrdered vs start o;
              found = λ va.
                  rw
                    (
                      vma_find-eq-find_first _ va (unlink_found-IsOrdered vs start o),
                      vma_find-eq-find_first vs va o,
                    )
                    (find_first-unlink_found vs start v va o e
                      ∙ same_area v start length _ va (ground (arith, same))
                          (ground (arith, same)));
              unmapped = refl;
            }),
      )
    ]

-- The new area is found at its start, and unlinking it there gives the old list back.
abbrev UndoneBy : Vma → List Vma → Option (List Vma) → Type 0
UndoneBy new vs none = Unit {0}
UndoneBy new vs (some ws) = (vma_find ws new.start ≡ some new) × (unlink_found ws new.start ≡ vs)

undo_first : (new : Vma) (vs : List Vma) → IsProper new → UndoneBy new vs (some (new ∷ vs))
unfolding vma_find unlink_found
undo_first new vs p = ground (arith, p.nonempty, p.no_wrap)

undo_later :
    (new v : Vma) (vs : List Vma) (r : Option (List Vma))
    → IsOrdered (v ∷ vs)
    → IsProper new
    → overlaps new v ≡ false
    → v.start ≤ new.start
    → UndoneBy new vs r
    → UndoneBy new (v ∷ vs) (elim r [ none ↦ none | some ws ↦ some (v ∷ ws) ])
unfolding vma_find unlink_found
undo_later new v vs none o p c l u = tt
undo_later new v vs (some ws) o p c l u = ground (
  arith,
  p.nonempty,
  o.0.nonempty,
  o.0.no_wrap,
  clash-false new v (sym (overlaps-eq-clash new v p o.0) ∙ c),
)

insert_before-UndoneBy :
    (new : Vma) (vs : List Vma)
    → IsOrdered vs
    → IsProper new
    → UndoneBy new vs (insert_before new vs)
unfolding insert_before
insert_before-UndoneBy new [] o p = undo_first new [] p
insert_before-UndoneBy new (v ∷ vs) o p = elim (Bool-cases (overlaps new v)) [
  | inl e ↦ rw (e, insert_before) tt
  | inr e ↦ elim (Bool-cases (ltb new.start v.start)) [
    | inl l ↦ rw (e, l, insert_before) (undo_first new (v ∷ vs) p)
    | inr l ↦
        rw (e, l, insert_before)
          (undo_later new v vs (insert_before new vs) o p e (ground arith)
            (insert_before-UndoneBy new vs o.2 p))
  ]
]

-- Inserting a proper area into an ordered list and removing it by its start and length gives the list
-- back, and unmaps the pages of the area.
pub insert-remove :
    (vs : List Vma) (new : Vma) {ws : List Vma}
    → IsOrdered vs
    → IsProper new
    → vma_insert vs new ≡ (ws, ok tt)
    → vma_remove ws new.start new.length ≡ record {
      left = vs;
      result = ok tt;
      unmap = some (record { at = new.start; npages = new.length / page_size });
    }
unfolding vma_insert vma_remove
insert-remove vs new {ws} o p h = go (insert_before new vs) refl (insert_before-UndoneBy new vs o p)
  where
    go :
        (r : Option (List Vma))
        → insert_before new vs ≡ r
        → UndoneBy new vs (insert_before new vs)
        → vma_remove ws new.start new.length ≡ record {
          left = vs;
          result = ok tt;
          unmap = some (record { at = new.start; npages = new.length / page_size });
        }
    go none e u = ground (arith, e, h)
    go (some ws') e u =
        let same : ws' ≡ ws = ground (arith, e, h) in
        let (found, left) = rw e at u in
        let found' : vma_find ws new.start ≡ some new = rw (← same) found in
        let left' : unlink_found ws new.start ≡ vs = rw (← same) left in
        ground (arith, found', left')
