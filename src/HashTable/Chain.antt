-- ===== src/HashTable/Chain.antt =====
-- The walks along one bucket.
use yu_noob_kernel.Base.{
  ℕ, ◌+◌, ◌≤◌, ◌≡◌, ◌≢◌, refl, arith, false, Bool-cases, inl, inr, ◌==◌, if◌then◌else◌, List, [],
  ◌∷◌, Option, none, some, length,
}
use yu_noob_kernel.HashTable.{find_node, replace_value, delete_node}

module _ {ℓ} {V : Type ℓ} where
  -- How many nodes of a bucket have the key.
  unfoldable pub nodes_of : ℕ → List (ℕ × V) → ℕ
  nodes_of key [] = 0
  nodes_of key ((k, v) ∷ nodes) = (if k == key then 1 else 0) + nodes_of key nodes

  some≢none : (v : V) → ◌≢◌ {A = Option V} (some v) none
  some≢none v = λ h. cc

  pub find_node_absent : (key : ℕ) (c : List (ℕ × V)) → nodes_of key c ≡ 0 → find_node key c ≡ none
  unfolding find_node nodes_of
  find_node_absent key [] h = refl
  find_node_absent key ((k, v) ∷ c) h = ground (arith, find_node_absent key c)

  pub nodes_of_absent : (key : ℕ) (c : List (ℕ × V)) → find_node key c ≡ none → nodes_of key c ≡ 0
  unfolding find_node nodes_of
  nodes_of_absent key [] h = refl
  nodes_of_absent key ((k, v) ∷ c) h = ground (arith, nodes_of_absent key c)

  pub find_node-delete_node :
      (key j : ℕ) (c : List (ℕ × V))
      → nodes_of key c ≤ 1
      → find_node j (delete_node key c) ≡ (if key == j then none else find_node j c)
  unfolding find_node delete_node nodes_of
  find_node-delete_node key j [] h = ground arith
  find_node-delete_node key j ((k, v) ∷ c) h =
      ground (arith, find_node-delete_node key j c, find_node_absent key c)

  pub nodes_of-delete_node :
      (key j : ℕ) (c : List (ℕ × V)) → nodes_of j (delete_node key c) ≤ nodes_of j c
  unfolding delete_node nodes_of
  nodes_of-delete_node key j [] = omega arith
  nodes_of-delete_node key j ((k, v) ∷ c) = ground (arith, nodes_of-delete_node key j c)

  pub length-delete_node :
      (key : ℕ) (c : List (ℕ × V)) (w : V)
      → find_node key c ≡ some w
      → length (delete_node key c) + 1 ≡ length c
  unfolding find_node delete_node
  length-delete_node key [] w h = ground arith
  length-delete_node key ((k, v) ∷ c) w h = elim (Bool-cases (k == key)) [
    | inl e ↦ rw e (omega arith)
    | inr e ↦ rw e (omega (arith, length-delete_node key c w (rw e at h)))
  ]

  -- What the walk of an insertion says of its bucket.
  abbrev pub Replaced : ℕ → V → List (ℕ × V) → Option (List (ℕ × V)) → Type ℓ
  Replaced key value c none = find_node key c ≡ none
  Replaced key value c (some c') =
      (find_node key c ≢ none)
      × ((j : ℕ) → find_node j c' ≡ (if key == j then some value else find_node j c))
      × ((j : ℕ) → nodes_of j c' ≡ nodes_of j c)
      × (length c' ≡ length c)

  Replaced-later :
      (key k : ℕ) (value v : V) (c : List (ℕ × V)) (r : Option (List (ℕ × V)))
      → (k == key) ≡ false
      → Replaced key value c r
      → Replaced key value ((k, v) ∷ c) (elim r [ none ↦ none | some ns ↦ some ((k, v) ∷ ns) ])
  unfolding find_node nodes_of
  Replaced-later key k value v c none e h = rw (e, h)
  Replaced-later key k value v c (some c') e h =
      (rw e h.0, (λ j. ground (arith, h.1 j)), (λ j. ground (arith, h.2 j)), omega (arith, h.3))

  pub replace_value-Replaced :
      (key : ℕ) (value : V) (c : List (ℕ × V)) → Replaced key value c (replace_value key value c)
  unfolding replace_value find_node nodes_of
  replace_value-Replaced key value [] = refl
  replace_value-Replaced key value ((k, v) ∷ c) = elim (Bool-cases (k == key)) [
    | inl e ↦ rw e (rw e (some≢none v), (λ j. ground (arith, e)), (λ j. refl), refl)
    | inr e ↦ rw e (Replaced-later key k value v c _ e (replace_value-Replaced key value c))
  ]
