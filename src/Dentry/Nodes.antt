-- ===== src/Dentry/Nodes.antt =====
-- What holds of every node of a hash table, and the operations of the table.
use yu_noob_kernel.Base.{
  ℕ, zero, suc, ◌≡◌, ◌⊎◌, inl, inr, refl, ap, sym, subst, arith, Bool, true, false, Bool-cases,
  ◌==◌, List, [], ◌∷◌, Option, none, some, get_or, set,
}
use yu_noob_kernel.HashTable.{
  HashTable, hash_ptr, bucket_of, find_node, replace_value, delete_node, hashtable_insert,
  hashtable_delete,
}

abbrev pub AllNodes : (ℕ → ℕ → Type 0) → List (ℕ × ℕ) → Type 0
AllNodes P [] = Unit {0}
AllNodes P ((k, v) ∷ nodes) = P k v × AllNodes P nodes

pub all_map :
    (P Q : ℕ → ℕ → Type 0) (c : List (ℕ × ℕ))
    → ((k v : ℕ) → P k v → Q k v)
    → AllNodes P c
    → AllNodes Q c
all_map P Q [] f a = tt
all_map P Q ((k, v) ∷ c) f (p, a) = (f k v p, all_map P Q c f a)

pub all_zip :
    (P Q R : ℕ → ℕ → Type 0) (c : List (ℕ × ℕ))
    → ((k v : ℕ) → P k v → Q k v → R k v)
    → AllNodes P c
    → AllNodes Q c
    → AllNodes R c
all_zip P Q R [] f a b = tt
all_zip P Q R ((k, v) ∷ c) f (p, a) (q, b) = (f k v p q, all_zip P Q R c f a b)

abbrev AllSome : (ℕ → ℕ → Type 0) → Option (List (ℕ × ℕ)) → Type 0
AllSome P none = Unit {0}
AllSome P (some c) = AllNodes P c

all-replace_value :
    (P : ℕ → ℕ → Type 0) (key value : ℕ) (c : List (ℕ × ℕ))
    → P key value
    → AllNodes P c
    → AllSome P (replace_value key value c)
unfolding replace_value
all-replace_value P key value [] p a = tt
all-replace_value P key value ((k, v) ∷ c) p (q, a) = elim (Bool-cases (k == key)) [
  | inl e ↦ let same : k ≡ key = ground arith in rw e (subst (λ x. P x value) (sym same) p, a)
  | inr e ↦ rw e (behind (replace_value key value c) (all-replace_value P key value c p a))
]
  where
    behind :
        (o : Option (List (ℕ × ℕ)))
        → AllSome P o
        → AllSome P (elim o [ none ↦ none | some ns ↦ some ((k, v) ∷ ns) ])
    behind none b = tt
    behind (some ns) b = (q, b)

all-delete_node :
    (P : ℕ → ℕ → Type 0) (key : ℕ) (c : List (ℕ × ℕ))
    → AllNodes P c
    → AllNodes P (delete_node key c)
unfolding delete_node
all-delete_node P key [] a = tt
all-delete_node P key ((k, v) ∷ c) (q, a) = elim (Bool-cases (k == key)) [
  | inl e ↦ rw e a
  | inr e ↦ rw e (q, all-delete_node P key c a)
]

set_cases :
    (bs : List (List (ℕ × ℕ))) (i j : ℕ) (c : List (ℕ × ℕ))
    → ((i ≡ j) × (get_or (set bs i c) j [] ≡ c)) ⊎ (get_or (set bs i c) j [] ≡ get_or bs j [])
set_cases [] i j c = inr refl
set_cases (b ∷ bs) zero zero c = inl (refl, refl)
set_cases (b ∷ bs) zero (suc j) c = inr refl
set_cases (b ∷ bs) (suc i) zero c = inr refl
set_cases (b ∷ bs) (suc i) (suc j) c = elim (set_cases bs i j c) [
  | inl s ↦ inl (ap suc s.0, s.1)
  | inr s ↦ inr s
]

-- Of every node in every bucket, with the number of the bucket.
abbrev pub Everywhere : (ℕ → ℕ → ℕ → Type 0) → List (List (ℕ × ℕ)) → Type 0
Everywhere P bs = (i : ℕ) → AllNodes (P i) (get_or bs i [])

Everywhere-set :
    (P : ℕ → ℕ → ℕ → Type 0) (bs : List (List (ℕ × ℕ))) (i : ℕ) (c : List (ℕ × ℕ))
    → AllNodes (P i) c
    → Everywhere P bs
    → Everywhere P (set bs i c)
Everywhere-set P bs i c a e j = elim (set_cases bs i j c) [
  | inl s ↦ rw (s.1, ← s.0) a
  | inr s ↦ rw s (e j)
]

pub hashtable_insert-Everywhere :
    (P : ℕ → ℕ → ℕ → Type 0) (ht : HashTable ℕ) (key value : ℕ) (mem : Bool)
    → P (hash_ptr key ht.size) key value
    → Everywhere P ht.buckets
    → Everywhere P (hashtable_insert ht key value mem).0.buckets
unfolding hashtable_insert
hashtable_insert-Everywhere P ht key value mem p e =
    cases mem (replace_value key value (bucket_of ht key)) refl
      (all-replace_value (P i) key value (bucket_of ht key) p (e i))
  where
    i : ℕ
    i = hash_ptr key ht.size

    cases :
        (mem : Bool) (o : Option (List (ℕ × ℕ)))
        → replace_value key value (bucket_of ht key) ≡ o
        → AllSome (P i) (replace_value key value (bucket_of ht key))
        → Everywhere P (hashtable_insert ht key value mem).0.buckets
    cases mem (some c) h a =
        rw (h, hashtable_insert) (Everywhere-set P ht.buckets i c (rw h at a) e)
    cases true none h a =
        rw (h, hashtable_insert)
          (Everywhere-set P ht.buckets i ((key, value) ∷ bucket_of ht key) (p, e i) e)
    cases false none h a = rw (h, hashtable_insert) e

pub hashtable_delete-Everywhere :
    (P : ℕ → ℕ → ℕ → Type 0) (ht : HashTable ℕ) (key : ℕ)
    → Everywhere P ht.buckets
    → Everywhere P (hashtable_delete ht key).0.buckets
unfolding hashtable_delete
hashtable_delete-Everywhere P ht key e = cases (find_node key (bucket_of ht key)) refl
  where
    i : ℕ
    i = hash_ptr key ht.size

    cases :
        (o : Option ℕ)
        → find_node key (bucket_of ht key) ≡ o
        → Everywhere P (hashtable_delete ht key).0.buckets
    cases none h = rw (h, hashtable_delete) e
    cases (some v) h =
        rw (h, hashtable_delete)
          (Everywhere-set P ht.buckets i (delete_node key (bucket_of ht key))
            (all-delete_node (P i) key (bucket_of ht key) (e i)) e)

pub hashtable_insert-size :
    (ht : HashTable ℕ) (key value : ℕ) (mem : Bool)
    → (hashtable_insert ht key value mem).0.size ≡ ht.size
unfolding hashtable_insert
hashtable_insert-size ht key value mem = cases mem (replace_value key value (bucket_of ht key)) refl
  where
    cases :
        (mem : Bool) (o : Option (List (ℕ × ℕ)))
        → replace_value key value (bucket_of ht key) ≡ o
        → (hashtable_insert ht key value mem).0.size ≡ ht.size
    cases mem (some c) h = rw (h, hashtable_insert) refl
    cases true none h = rw (h, hashtable_insert) refl
    cases false none h = rw (h, hashtable_insert) refl

pub hashtable_delete-size :
    (ht : HashTable ℕ) (key : ℕ) → (hashtable_delete ht key).0.size ≡ ht.size
unfolding hashtable_delete
hashtable_delete-size ht key = cases (find_node key (bucket_of ht key)) refl
  where
    cases :
        (o : Option ℕ)
        → find_node key (bucket_of ht key) ≡ o
        → (hashtable_delete ht key).0.size ≡ ht.size
    cases none h = rw (h, hashtable_delete) refl
    cases (some v) h = rw (h, hashtable_delete) refl
