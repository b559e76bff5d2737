-- ===== src/HashTable/Tests.antt =====
-- The theorems about src/misc/hashtable.c at a concrete table.
use yu_noob_kernel.Base.{ℕ, ◌≡◌, refl, arith, true, [], none, some, replicate}
use yu_noob_kernel.Errno.{ok}
use yu_noob_kernel.HashTable.{
  HashTable, hashtable_init, hashtable_insert, hashtable_lookup, hashtable_delete, find_node,
  replace_value, hash_ptr, hash_bytes,
}
use yu_noob_kernel.HashTable.Map.{IsValid}
use yu_noob_kernel.HashTable.Laws.{
  InsertOk, Deleted, hashtable_insert_lem, hashtable_delete_lem, hashtable_init_lem,
}

abbrev four : HashTable ℕ
four = record { buckets = replicate 4 []; size = 4; count = 0 }

four_made : hashtable_init 4 true ≡ ok four
unfolding hashtable_init
four_made = refl

four_is_empty : IsValid four × (four.size ≡ 4) × ((j : ℕ) → hashtable_lookup four j ≡ none)
four_is_empty = hashtable_init_lem 4 true four_made

abbrev filled : HashTable ℕ
filled = (hashtable_insert four 0x1000 5 true).0

hashtable_insert_lem_example : InsertOk four 0x1000 5 true (hashtable_insert four 0x1000 5 true)
hashtable_insert_lem_example =
    hashtable_insert_lem four 0x1000 5 true (hashtable_init_lem 4 true four_made).0 (omega arith)

filled-IsValid : IsValid filled
unfolding hashtable_insert replace_value replicate hash_ptr
filled-IsValid =
    let h : InsertOk four 0x1000 5 true (filled, ok tt) = hashtable_insert_lem_example in h.0.valid

hashtable_delete_lem_example : Deleted filled 0x1000 (hashtable_delete filled 0x1000)
hashtable_delete_lem_example = hashtable_delete_lem filled 0x1000 filled-IsValid

lookup_filled : hashtable_lookup filled 0x1000 ≡ some 5
unfolding hashtable_lookup hashtable_insert find_node hash_ptr hash_bytes replace_value replicate
lookup_filled = refl
