-- ===== src/HashTable.antt =====
-- include/misc/hashtable.h and src/misc/hashtable.c. A key is a pointer, that is, a 64-bit number; a
-- value is not NULL, and NULL is `none`. The nodes of a bucket are its list in order, head first.
pub mod Chain
pub mod Map
pub mod Laws
mod Tests
use Prim.Native.Nat.{bit_and, bit_xor}
use yu_noob_kernel.Base.{
  ℕ, zero, suc, ◌+◌, ◌-◌, ◌*◌, ◌/◌, ◌%◌, ◌^◌, Bool, true, false, not, ◌==◌, if◌then◌else◌, ◌||◌,
  List, [], ◌∷◌, Option, none, some, get_or, set, replicate,
}
use yu_noob_kernel.Errno.{Errno, einval, enomem, Result, ok, err}

pub record HashTable {ℓ} (V : Type ℓ) : Type ℓ where
  pub buckets : List (List (ℕ × V))
  pub size : ℕ
  pub count : ℕ

-- The loop of `hash_ptr`, with `n` bytes of the key left.
unfoldable pub hash_bytes : ℕ → ℕ → ℕ → ℕ
hash_bytes zero hash k = hash
hash_bytes (suc n) hash k =
    hash_bytes n (bit_xor hash (bit_and k 0xff) * 0x01000193 % 2 ^ 32) (k / 2 ^ 8)

-- `hash_ptr`: FNV-1a of the eight bytes of the key, masked to the number of buckets.
unfoldable pub hash_ptr : ℕ → ℕ → ℕ
unfolding hash_bytes
hash_ptr key size = bit_and (hash_bytes 8 0x811c9dc5 key) (size - 1)

module _ {ℓ} {V : Type ℓ} where
  -- `hashtable_init`, where the flag says whether `kcalloc` found memory. `size - 1` is computed only
  -- for a size that is not 0.
  unfoldable pub hashtable_init : ℕ → Bool → Result (HashTable V)
  hashtable_init size mem =
      if size == 0 || not (bit_and size (size - 1) == 0)
      then err einval
      else if mem
      then ok (record { buckets = replicate size []; size = size; count = 0 })
      else err enomem

  abbrev pub bucket_of : HashTable V → ℕ → List (ℕ × V)
  bucket_of ht key = get_or ht.buckets (hash_ptr key ht.size) []

  -- The walk of `hashtable_lookup` along one bucket.
  unfoldable pub find_node : ℕ → List (ℕ × V) → Option V
  find_node key [] = none
  find_node key ((k, v) ∷ nodes) = if k == key then some v else find_node key nodes

  -- The walk of `hashtable_insert`: the bucket with the value of the key's node replaced, if there is
  -- such a node.
  unfoldable pub replace_value : ℕ → V → List (ℕ × V) → Option (List (ℕ × V))
  replace_value key value [] = none
  replace_value key value ((k, v) ∷ nodes) =
      let rest : Option (List (ℕ × V)) = elim (replace_value key value nodes) [
        | none ↦ none
        | some ns ↦ some ((k, v) ∷ ns)
      ] in
      if k == key then some ((k, value) ∷ nodes) else rest

  -- The walk of `hashtable_delete`: the bucket without the first node of the key.
  unfoldable pub delete_node : ℕ → List (ℕ × V) → List (ℕ × V)
  delete_node key [] = []
  delete_node key ((k, v) ∷ nodes) = if k == key then nodes else (k, v) ∷ delete_node key nodes

  -- `hashtable_insert`, where the flag says whether `kmalloc` found memory. `count` is a `size_t`.
  unfoldable pub hashtable_insert : HashTable V → ℕ → V → Bool → HashTable V × Result (Unit {0})
  hashtable_insert ht key value mem =
      let idx = hash_ptr key ht.size in
      elim (replace_value key value (bucket_of ht key)) [
        | some nodes ↦ (record ht { buckets = set ht.buckets idx nodes }, ok tt)
        | none ↦
            if mem
            then (
              record ht {
                buckets = set ht.buckets idx ((key, value) ∷ bucket_of ht key);
                count = (ht.count + 1) % 2 ^ 64;
              },
              ok tt,
            )
            else (ht, err enomem)
      ]

  unfoldable pub hashtable_lookup : HashTable V → ℕ → Option V
  hashtable_lookup ht key = find_node key (bucket_of ht key)

  unfoldable pub hashtable_delete : HashTable V → ℕ → HashTable V × Option V
  hashtable_delete ht key = elim (find_node key (bucket_of ht key)) [
    | none ↦ (ht, none)
    | some v ↦ (
      record ht {
        buckets = set ht.buckets (hash_ptr key ht.size) (delete_node key (bucket_of ht key));
        count = (ht.count + 2 ^ 64 - 1) % 2 ^ 64;
      },
      some v,
    )
  ]

  -- `hashtable_destroy`: the table afterwards; every node and the array are freed.
  unfoldable pub hashtable_destroy : HashTable V → HashTable V
  hashtable_destroy ht = record { buckets = []; size = 0; count = 0 }
