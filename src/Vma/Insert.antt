-- ===== src/Vma/Insert.antt =====
-- What `vma_insert` does to an ordered list.
use yu_noob_kernel.Base.{
  ℕ, ◌+◌, ◌≤◌, ◌<◌, ◌≡◌, ◌⊎◌, refl, arith, Bool, true, false, Bool-cases, inl, inr, ltb,
  if◌then◌else◌, ◌&&◌, ◌||◌, List, [], ◌∷◌, Option, none, some, sym, ◌∙◌,
}
use yu_noob_kernel.Errno.{eexist, ok, err}
use yu_noob_kernel.Vma.{Vma, overlaps, insert_before, vma_insert, vma_find}
use yu_noob_kernel.Vma.Find.{
  IsProper, AllFrom, IsOrdered, contains, AllFrom-mono, find_first, vma_find-eq-find_first,
}

-- Two areas share an address, in exact arithmetic.
abbrev pub clash : Vma → Vma → Bool
clash a b = ltb a.start (b.start + b.length) && ltb b.start (a.start + a.length)

pub any_clash : Vma → List Vma → Bool
any_clash new [] = false
any_clash new (v ∷ vs) = clash new v || any_clash new vs

pub overlaps-eq-clash : (a b : Vma) → IsProper a → IsProper b → overlaps a b ≡ clash a b
overlaps-eq-clash a b p q = ground arith

pub clash-false :
    (a b : Vma)
    → clash a b ≡ false
    → (b.start + b.length ≤ a.start) ⊎ (a.start + a.length ≤ b.start)
clash-false a b h = ground arith

no_clash_above :
    (new : Vma) (vs : List Vma) → AllFrom (new.start + new.length) vs → any_clash new vs ≡ false
unfolding any_clash
no_clash_above new [] h = refl
no_clash_above new (v ∷ vs) h = ground (arith, no_clash_above new vs h.1)

-- What the loop makes of a list without an overlap.
record Inserted (new : Vma) (vs ws : List Vma) : Type 0 where
  ordered : IsOrdered ws
  bound : (a : ℕ) → a ≤ new.start → AllFrom a vs → AllFrom a ws
  found : (va : ℕ) → find_first ws va ≡ (if contains new va then some new else find_first vs va)

abbrev InsertOk : Vma → List Vma → Option (List Vma) → Type 0
InsertOk new vs none = any_clash new vs ≡ true
InsertOk new vs (some ws) = (any_clash new vs ≡ false) × Inserted new vs ws

go_on :
    (new v : Vma) (vs : List Vma) (r : Option (List Vma))
    → IsOrdered (v ∷ vs)
    → IsProper new
    → clash new v ≡ false
    → v.start ≤ new.start
    → InsertOk new vs r
    → InsertOk new (v ∷ vs) (elim r [ none ↦ none | some ws ↦ some (v ∷ ws) ])
unfolding any_clash find_first
go_on new v vs none h p c l i = ground arith
go_on new v vs (some ws) h p c l i = (
  ground arith,
  record {
    ordered = (
      h.0,
      i.1.bound (v.start + v.length) (omega (arith, p.nonempty, h.0.nonempty, clash-false new v c))
          h.1,
      i.1.ordered,
    );
    bound = λ a b k. (k.0, i.1.bound a b k.1);
    found = λ va. ground (arith, i.1.found va);
  },
)

put_first :
    (new v : Vma) (vs : List Vma)
    → IsOrdered (v ∷ vs)
    → IsProper new
    → clash new v ≡ false
    → new.start < v.start
    → InsertOk new (v ∷ vs) (some (new ∷ v ∷ vs))
unfolding any_clash find_first
put_first new v vs h p c l = (
  ground (arith, no_clash_above new vs above),
  record { ordered = (p, (below, above), h); bound = λ a b k. (b, k); found = λ va. refl },
)
  where
    below : new.start + new.length ≤ v.start
    below = omega (arith, p.nonempty, h.0.nonempty, clash-false new v c)

    above : AllFrom (new.start + new.length) vs
    above = AllFrom-mono _ (v.start + v.length) vs (omega (arith, below)) h.1

insert_before-InsertOk :
    (new : Vma) (vs : List Vma)
    → IsOrdered vs
    → IsProper new
    → InsertOk new vs (insert_before new vs)
unfolding insert_before
insert_before-InsertOk new [] h p =
    unfold any_clash find_first in
    (refl, record { ordered = (p, tt, tt); bound = λ a b k. (b, tt); found = λ va. refl })
insert_before-InsertOk new (v ∷ vs) h p = elim (Bool-cases (overlaps new v)) [
  | inl e ↦
      rw (e, insert_before) (unfold any_clash in ground (arith, overlaps-eq-clash new v p h.0))
  | inr e ↦
      let apart : clash new v ≡ false = sym (overlaps-eq-clash new v p h.0) ∙ e in
      elim (Bool-cases (ltb new.start v.start)) [
        | inl l ↦ rw (e, l, insert_before) (put_first new v vs h p apart (ground arith))
        | inr l ↦
            rw (e, l, insert_before)
              (go_on new v vs (insert_before new vs) h p apart (ground arith)
                (insert_before-InsertOk new vs h.2 p))
      ]
]

-- `vma_insert` of a proper area into an ordered list refuses it with EEXIST, leaving the list, exactly
-- if it shares an address with an area of the list; otherwise the list stays ordered, and from then on
-- `vma_find` returns the new area for its addresses and what it returned before for all others.
pub vma_insert_lem :
    (vs : List Vma) (new : Vma)
    → IsOrdered vs
    → IsProper new
    → ((any_clash new vs ≡ true) × (vma_insert vs new ≡ (vs, err eexist)))
      ⊎ ((any_clash new vs ≡ false)
          × ((vma_insert vs new).1 ≡ ok tt)
          × IsOrdered (vma_insert vs new).0
          × ((va : ℕ)
              → vma_find (vma_insert vs new).0 va
                ≡ (if contains new va then some new else vma_find vs va)))
unfolding vma_insert
vma_insert_lem vs new h p = go (insert_before new vs) refl (insert_before-InsertOk new vs h p)
  where
    go :
        (r : Option (List Vma))
        → insert_before new vs ≡ r
        → InsertOk new vs (insert_before new vs)
        → ((any_clash new vs ≡ true) × (vma_insert vs new ≡ (vs, err eexist)))
          ⊎ ((any_clash new vs ≡ false)
              × ((vma_insert vs new).1 ≡ ok tt)
              × IsOrdered (vma_insert vs new).0
              × ((va : ℕ)
                  → vma_find (vma_insert vs new).0 va
                    ≡ (if contains new va then some new else vma_find vs va)))
    go none e i = inl (rw e at i, rw (e, vma_insert))
    go (some ws) e i =
        let (none_shared, done) = rw e at i in
        inr (
          none_shared,
          rw (e, vma_insert),
          rw (e, vma_insert) done.ordered,
          λ va.
              rw
                (
                  e,
                  vma_insert,
                  vma_find-eq-find_first vs va h,
                  vma_find-eq-find_first ws va done.ordered,
                )
                (done.found va),
        )
