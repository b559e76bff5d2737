-- ===== src/HashTable/Laws.antt =====
-- The operations against the map that a table stands for.
use yu_noob_kernel.Base.{
  ℕ, ◌+◌, ◌-◌, ◌%◌, ◌^◌, ◌≤◌, ◌<◌, ◌≡◌, ◌≢◌, refl, sym, arith, Bool, true, false, Bool-cases, inl,
  inr, ◌==◌, if◌then◌else◌, List, [], ◌∷◌, Option, none, some, length, replicate, length-replicate,
  get_or-replicate,
}
use yu_noob_kernel.Errno.{enomem, Result, ok, err}
use yu_noob_kernel.HashTable.{
  HashTable, hash_ptr, hashtable_init, hashtable_insert, hashtable_lookup, hashtable_delete,
  bucket_of, find_node, replace_value, delete_node,
}
use yu_noob_kernel.HashTable.Chain.{
  nodes_of, nodes_of_absent, find_node-delete_node, nodes_of-delete_node, length-delete_node,
  Replaced, replace_value-Replaced,
}
use yu_noob_kernel.HashTable.Map.{
  IsValid, with_bucket, with_bucket-IsValid, length-bucket, total-replicate, lookup-with_bucket,
}

module _ {ℓ} {V : Type ℓ} where
  -- 1 for a key that was not there.
  abbrev pub one_if_new : Option V → ℕ
  one_if_new none = 1
  one_if_new (some v) = 0

  -- An insertion that was done: the table is well formed, and it maps the key to the value and every
  -- other key to what it had.
  pub record InsertDone (ht : HashTable V) (key : ℕ) (value : V) (ht' : HashTable V) : Type ℓ where
    pub valid : IsValid ht'
    pub maps :
        (j : ℕ) → hashtable_lookup ht' j ≡ (if key == j then some value else hashtable_lookup ht j)

  abbrev pub InsertOk : HashTable V → ℕ → V → Bool → HashTable V × Result (Unit {0}) → Type ℓ
  InsertOk ht key value mem (ht', ok u) =
      InsertDone ht key value ht' × (ht'.count ≡ ht.count + one_if_new (hashtable_lookup ht key))
  InsertOk ht key value mem (ht', err e) =
      (ht' ≡ ht) × (e ≡ enomem) × (mem ≡ false) × (hashtable_lookup ht key ≡ none)

  not_new : (o : Option V) (n : ℕ) → o ≢ none → n ≡ n + one_if_new o
  not_new none n h = absurd (h refl)
  not_new (some v) n h = omega arith

  -- The bucket with a new node at its head.
  grown : HashTable V → ℕ → V → List (ℕ × V)
  grown ht key value = (key, value) ∷ bucket_of ht key

  grown-find :
      (ht : HashTable V) (key j : ℕ) (value : V)
      → find_node j (grown ht key value)
        ≡ (if key == j then some value else find_node j (bucket_of ht key))
  unfolding find_node grown
  grown-find ht key j value = refl

  grown_unique :
      (ht : HashTable V) (key j : ℕ) (value : V)
      → IsValid ht
      → find_node key (bucket_of ht key) ≡ none
      → nodes_of j (grown ht key value) ≤ 1
  unfolding nodes_of grown
  grown_unique ht key j value v e =
      ground (arith, nodes_of_absent key (bucket_of ht key) e, v.unique j (hash_ptr key ht.size))

  -- A table whose bucket of the key was replaced by one that maps the key to the value.
  bucket-InsertDone :
      (ht : HashTable V) (key : ℕ) (value : V) (v : IsValid ht) (c : List (ℕ × V)) (n : ℕ)
      → n + length (bucket_of ht key) ≡ ht.count + length c
      → n + 1 < 2 ^ 64
      → ((j : ℕ) → nodes_of j c ≤ 1)
      → ((j : ℕ)
          → find_node j c ≡ (if key == j then some value else find_node j (bucket_of ht key)))
      → InsertDone ht key value (with_bucket ht v key c n)
  bucket-InsertDone ht key value v c n e h u f = record {
    valid = with_bucket-IsValid ht v key c n e h u;
    maps = lookup-with_bucket ht v key c n (some value) f;
  }

  inserted :
      (ht : HashTable V) (key : ℕ) (value : V) (mem : Bool)
      → IsValid ht
      → ht.count + 2 < 2 ^ 64
      → (r : Option (List (ℕ × V))) → replace_value key value (bucket_of ht key) ≡ r
      → Replaced key value (bucket_of ht key) (replace_value key value (bucket_of ht key))
      → InsertOk ht key value mem (hashtable_insert ht key value mem)
  unfolding hashtable_insert hashtable_lookup with_bucket grown
  inserted ht key value true v h none e s =
      let absent = rw e at s in
      let next : (ht.count + 1) % 2 ^ 64 ≡ ht.count + 1 = omega arith in
      rw (e, hashtable_insert, next)
        (
          bucket-InsertDone ht key value v (grown ht key value) (ht.count + 1) (omega arith)
              (omega arith) (λ j. grown_unique ht key j value v absent)
              (λ j. grown-find ht key j value),
          rw absent refl,
        )
  inserted ht key value false v h none e s = rw (e, hashtable_insert) (refl, refl, refl, rw e at s)
  inserted ht key value mem v h (some c) e s =
      let (present, maps, same, len) = rw e at s in
      rw (e, hashtable_insert)
        (
          bucket-InsertDone ht key value v c ht.count (omega (arith, len)) (omega arith)
              (λ j. rw (same j) (v.unique j (hash_ptr key ht.size))) maps,
          not_new _ ht.count present,
        )

  -- `hashtable_insert` into a well-formed table whose count is not at the end of its range keeps it
  -- well formed, maps the key to the value and leaves every other key as it was, and counts one entry
  -- more exactly if the key was new. It fails only for a new key with no memory, with ENOMEM, and
  -- then changes nothing.
  pub hashtable_insert_lem :
      (ht : HashTable V) (key : ℕ) (value : V) (mem : Bool)
      → IsValid ht
      → ht.count + 2 < 2 ^ 64
      → InsertOk ht key value mem (hashtable_insert ht key value mem)
  hashtable_insert_lem ht key value mem v h =
      inserted ht key value mem v h (replace_value key value (bucket_of ht key)) refl
        (replace_value-Replaced key value (bucket_of ht key))

  -- What a deletion did: it returned the value of the key, the key has none now, every other key has
  -- what it had, the table is well formed, and it counts one entry less if the key was there.
  pub record Deleted (ht : HashTable V) (key : ℕ) (out : HashTable V × Option V) : Type ℓ where
    pub valid : IsValid out.0
    pub result : out.1 ≡ hashtable_lookup ht key
    pub maps :
        (j : ℕ) → hashtable_lookup out.0 j ≡ (if key == j then none else hashtable_lookup ht j)
    pub counted : out.0.count + 1 ≡ ht.count + one_if_new (hashtable_lookup ht key)

  absent_key :
      (ht : HashTable V) (key : ℕ)
      → hashtable_lookup ht key ≡ none
      → (j : ℕ) → hashtable_lookup ht j ≡ (if key == j then none else hashtable_lookup ht j)
  absent_key ht key h j = elim (Bool-cases (key == j)) [
    | inl e ↦ let same : key ≡ j = ground arith in rw e (rw (← same) h)
    | inr e ↦ rw e
  ]

  deleted :
      (ht : HashTable V) (key : ℕ)
      → IsValid ht
      → (r : Option V) → find_node key (bucket_of ht key) ≡ r
      → Deleted ht key (hashtable_delete ht key)
  unfolding hashtable_delete hashtable_lookup with_bucket
  deleted ht key v none e =
      rw (e, hashtable_delete)
        (record { valid = v; result = sym e; maps = absent_key ht key e; counted = rw e refl })
  deleted ht key v (some w) e =
      let c = bucket_of ht key in
      let shorter = length-delete_node key c w e in
      let fits = length-bucket ht key v in
      let next : (ht.count + 2 ^ 64 - 1) % 2 ^ 64 ≡ ht.count - 1 = omega (arith, v.small) in
      rw (e, hashtable_delete, next)
        (record {
          valid =
              with_bucket-IsValid ht v key (delete_node key c) (ht.count - 1) (omega arith)
                (omega (arith, v.small))
                (λ j.
                  omega (arith, nodes_of-delete_node key j c, v.unique j (hash_ptr key ht.size)));
          result = sym e;
          maps =
              lookup-with_bucket ht v key (delete_node key c) (ht.count - 1) none
                (λ j. find_node-delete_node key j c (v.unique key (hash_ptr key ht.size)));
          counted = rw e (omega arith);
        })

  -- `hashtable_delete` on a well-formed table returns what the key was mapped to, removes the key and
  -- leaves every other key as it was, keeps the table well formed, and counts one entry less exactly if
  -- the key was there.
  pub hashtable_delete_lem :
      (ht : HashTable V) (key : ℕ) → IsValid ht → Deleted ht key (hashtable_delete ht key)
  hashtable_delete_lem ht key v = deleted ht key v (find_node key (bucket_of ht key)) refl

  empty_table : ℕ → HashTable V
  empty_table size = record { buckets = replicate size []; size = size; count = 0 }

  init_inv :
      (size : ℕ) (mem : Bool) {ht : HashTable V}
      → hashtable_init size mem ≡ ok ht
      → (0 < size) × (ht ≡ empty_table size)
  unfolding hashtable_init empty_table
  init_inv size mem h = ground arith

  empty_table_lem :
      (size : ℕ)
      → 0 < size
      → IsValid (empty_table size)
        × ((empty_table size).size ≡ size)
        × ((j : ℕ) → hashtable_lookup (empty_table size) j ≡ none)
  unfolding hashtable_lookup find_node empty_table nodes_of
  empty_table_lem size h = (
    record {
      nonempty = h;
      storage = length-replicate size [];
      counted = sym (total-replicate V size);
      small = omega arith;
      unique = λ j i. rw (get_or-replicate size i (nil_bucket)) (omega arith);
    },
    refl,
    (λ j. rw (get_or-replicate size (hash_ptr j size) nil_bucket)),
  )
    where
      nil_bucket : List (ℕ × V)
      nil_bucket = []

  -- A table that `hashtable_init` made is well formed and empty.
  pub hashtable_init_lem :
      (size : ℕ) (mem : Bool) {ht : HashTable V}
      → hashtable_init size mem ≡ ok ht
      → IsValid ht × (ht.size ≡ size) × ((j : ℕ) → hashtable_lookup ht j ≡ none)
  hashtable_init_lem size mem {ht} h =
      let (pos, e) = init_inv size mem h in rw e (empty_table_lem size pos)
