-- ===== src/HashTable/Map.antt =====
-- The table as a map from keys to values.
use yu_noob_kernel.Base.{
  ℕ, zero, suc, ◌+◌, ◌-◌, ◌^◌, ◌≤◌, ◌<◌, ◌≡◌, refl, ap, ◌∙◌, arith, false, Bool-cases, inl, inr,
  ◌==◌, if◌then◌else◌, List, [], ◌∷◌, Option, length, get_or, set, replicate, length-set,
  get_or-set_self, get_or-set_ne, bit_and-le,
}
use yu_noob_kernel.HashTable.{HashTable, hash_ptr, hashtable_lookup, bucket_of, find_node}
use yu_noob_kernel.HashTable.Chain.{nodes_of}

-- The masked hash is a bucket.
pub hash_ptr-lt : (key size : ℕ) → 0 < size → hash_ptr key size < size
unfolding hash_ptr
hash_ptr-lt key size h = omega (arith, bit_and-le _ (size - 1))

module _ {ℓ} {V : Type ℓ} where
  -- How many nodes all buckets have.
  pub total : List (List (ℕ × V)) → ℕ
  total [] = 0
  total (c ∷ cs) = length c + total cs

  total-set :
      (bs : List (List (ℕ × V))) (i : ℕ) (c : List (ℕ × V))
      → i < length bs
      → total (set bs i c) + length (get_or bs i []) ≡ total bs + length c
  unfolding total
  total-set [] i c h = absurd (omega arith)
  total-set (b ∷ bs) zero c h = omega arith
  total-set (b ∷ bs) (suc i) c h = omega (arith, total-set bs i c (omega arith))

  -- There is a bucket, the array has `size` buckets, `count` counts the nodes, and no bucket has two
  -- nodes of one key.
  pub record IsValid (ht : HashTable V) : Type ℓ where
    pub nonempty : 0 < ht.size
    pub storage : length ht.buckets ≡ ht.size
    pub counted : ht.count ≡ total ht.buckets
    pub small : ht.count + 1 < 2 ^ 64
    pub unique : (key i : ℕ) → nodes_of key (get_or ht.buckets i []) ≤ 1

  module _ (ht : HashTable V) (valid : IsValid ht) (key : ℕ) where
    -- The table with the bucket of the key replaced.
    unfoldable pub with_bucket : List (ℕ × V) → ℕ → HashTable V
    with_bucket c n = record ht { buckets = set ht.buckets (hash_ptr key ht.size) c; count = n }

    in_array : hash_ptr key ht.size < length ht.buckets
    in_array = omega (arith, hash_ptr-lt key ht.size valid.nonempty, valid.storage)

    bucket-with_bucket :
        (c : List (ℕ × V)) (n i : ℕ)
        → get_or (with_bucket c n).buckets i []
          ≡ (if hash_ptr key ht.size == i then c else get_or ht.buckets i [])
    unfolding with_bucket
    bucket-with_bucket c n i = elim (Bool-cases (hash_ptr key ht.size == i)) [
      | inl e ↦
          let same : hash_ptr key ht.size ≡ i = ground arith in
          rw (e, same) (get_or-set_self ht.buckets i c [] (omega (arith, in_array)))
      | inr e ↦ rw e (get_or-set_ne ht.buckets (hash_ptr key ht.size) i c [] (ground arith))
    ]

    pub with_bucket-IsValid :
        (c : List (ℕ × V)) (n : ℕ)
        → n + length (bucket_of ht key) ≡ ht.count + length c
        → n + 1 < 2 ^ 64
        → ((j : ℕ) → nodes_of j c ≤ 1)
        → IsValid (with_bucket c n)
    unfolding with_bucket
    with_bucket-IsValid c n e h u = record {
      nonempty = valid.nonempty;
      storage = length-set ht.buckets _ c ∙ valid.storage;
      counted =
          omega (arith, total-set ht.buckets (hash_ptr key ht.size) c in_array, valid.counted);
      small = h;
      unique = λ j i. rw (bucket-with_bucket c n i) (ground (arith, u j, valid.unique j i));
    }

    -- A bucket that differs from the old one at the key alone gives a table that does.
    pub lookup-with_bucket :
        (c : List (ℕ × V)) (n : ℕ) (r : Option V)
        → ((j : ℕ) → find_node j c ≡ (if key == j then r else find_node j (bucket_of ht key)))
        → (j : ℕ)
        → hashtable_lookup (with_bucket c n) j ≡ (if key == j then r else hashtable_lookup ht j)
    unfolding hashtable_lookup with_bucket
    lookup-with_bucket c n r h j = elim (Bool-cases (hash_ptr key ht.size == hash_ptr j ht.size)) [
      | inl e ↦
          let same : hash_ptr key ht.size ≡ hash_ptr j ht.size = ground arith in
          ap (find_node j) (bucket-with_bucket c n (hash_ptr j ht.size)) ∙ rw (e, ← same) (h j)
      | inr e ↦
          let other : (key == j) ≡ false = other_key j e in
          ap (find_node j) (bucket-with_bucket c n (hash_ptr j ht.size)) ∙ rw (e, other)
    ]
      where
        other_key :
            (j : ℕ) → (hash_ptr key ht.size == hash_ptr j ht.size) ≡ false → (key == j) ≡ false
        other_key j e = elim (Bool-cases (key == j)) [
          | inl p ↦
              let q : key ≡ j = ground arith in
              let r : hash_ptr key ht.size ≡ hash_ptr j ht.size = ap (λ k. hash_ptr k ht.size) q in
              absurd (ground (arith, e, r))
          | inr p ↦ p
        ]

  length-get_or-le : (bs : List (List (ℕ × V))) (i : ℕ) → length (get_or bs i []) ≤ total bs
  unfolding total
  length-get_or-le [] i = omega arith
  length-get_or-le (b ∷ bs) zero = omega arith
  length-get_or-le (b ∷ bs) (suc i) = omega (arith, length-get_or-le bs i)

  -- No bucket has more nodes than are counted.
  pub length-bucket :
      (ht : HashTable V) (key : ℕ) → IsValid ht → length (bucket_of ht key) ≤ ht.count
  length-bucket ht key v =
      omega (arith, v.counted, length-get_or-le ht.buckets (hash_ptr key ht.size))

pub total-replicate {ℓ} : (V : Type ℓ) (n : ℕ) → total (replicate {A = List (ℕ × V)} n []) ≡ 0
unfolding total replicate
total-replicate V zero = refl
total-replicate V (suc n) = omega (arith, total-replicate V n)
