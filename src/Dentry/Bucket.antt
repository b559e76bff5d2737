-- ===== src/Dentry/Bucket.antt =====
-- In which bucket the node of a dentry stands, and in which one `dentry_lookup` looks for it.
use yu_noob_kernel.Base.{
  ℕ, zero, suc, ◌<◌, ◌≡◌, ◌≢◌, inl, inr, refl, sym, ap, ap₂, ◌∙◌, arith, Bool, true, false,
  Bool-cases, not, ◌==◌, ==_refl, here_or_else, ◌&&◌, List, [], ◌∷◌, none, get_or,
}
use yu_noob_kernel.HashTable.{hash_ptr, hash_bytes}
use yu_noob_kernel.HashTable.Map.{hash_ptr-lt}
use yu_noob_kernel.Dentry.{
  Qstr, Dentry, DentryState, hash_string, dentry_hash_key, key_of, set_dentry, same_name, matches,
  find_in, dentry_lookup,
}
use yu_noob_kernel.Dentry.Nodes.{AllNodes, Everywhere, all_map}

-- None of the numbers below `n` is the bucket of its own address.
none_own : ℕ → Bool
none_own zero = true
none_own (suc n) = not (hash_ptr n 128 == n) && none_own n

none_own-below : (n : ℕ) → none_own n ≡ true → (k : ℕ) → k < n → (hash_ptr k 128 == k) ≡ false
unfolding none_own
none_own-below zero h k l = absurd (omega arith)
none_own-below (suc n) h k l = elim (Bool-cases (n == k)) [
  | inl e ↦
      let same : n ≡ k = ground arith in
      let own : (hash_ptr n 128 == n) ≡ false = ground (arith, h) in rw same at own
  | inr e ↦ none_own-below n (ground (arith, h)) k (ground (arith, l, e))
]

none_own_of_all : none_own 128 ≡ true
unfolding none_own hash_ptr hash_bytes
none_own_of_all = refl

-- With 128 buckets, no bucket is the one of its own number.
pub hash_ptr-moves : (k : ℕ) → k < 128 → hash_ptr k 128 ≢ k
hash_ptr-moves k l h = absurd (ground (arith, none_own-below 128 none_own_of_all k l, h))

pub same_name-eq : (a b : List ℕ) → same_name a b ≡ true → a ≡ b
unfolding same_name
same_name-eq [] [] h = refl
same_name-eq [] (b ∷ bs) h = absurd (ground (arith, h))
same_name-eq (a ∷ xs) [] h = absurd (ground (arith, h))
same_name-eq (a ∷ xs) (b ∷ bs) h =
    let head : a ≡ b = ground (arith, h) in
    ap₂ (λ x y. x ∷ y) head (same_name-eq xs bs (ground (arith, h)))

-- A node in a bucket: it is in the bucket of its key, its key is the one of its dentry, and the hash of
-- the dentry's name is the one of its bytes.
abbrev pub PlacedNode : DentryState → ℕ → ℕ → ℕ → Type 0
PlacedNode st i k d =
    (hash_ptr k 128 ≡ i)
    × (k ≡ key_of st d)
    × ((st.dentries d).d_name.hash ≡ hash_string (st.dentries d).d_name.name)

pub record IsPlaced (st : DentryState) : Type 0 where
  pub sized : st.ht.size ≡ 128
  pub placed : Everywhere (PlacedNode st) st.ht.buckets

-- A change of one dentry that keeps its name, its super block and its parent.
pub set_dentry-IsPlaced :
    (st : DentryState) (d : ℕ) (x : Dentry)
    → x.d_name ≡ (st.dentries d).d_name
    → x.d_sb ≡ (st.dentries d).d_sb
    → x.d_parent ≡ (st.dentries d).d_parent
    → IsPlaced st
    → IsPlaced (set_dentry st d x)
set_dentry-IsPlaced st d x n s p i = record {
  sized = i.sized;
  placed = λ j.
      all_map (PlacedNode st j) (PlacedNode (set_dentry st d x) j) _
        (λ k. here_or_else d (λ h. rw (==_refl d, n, s, p) h) (λ v o h. rw o h)) (i.placed j);
}

-- A dentry that the comparison accepts has the key that was looked for.
matches-key :
    (st : DentryState) (sb parent : ℕ) (name : Qstr) (d : ℕ)
    → name.hash ≡ hash_string name.name
    → (st.dentries d).d_name.hash ≡ hash_string (st.dentries d).d_name.name
    → matches st sb parent name d ≡ true
    → key_of st d ≡ dentry_hash_key sb parent name.hash st.ht.size
matches-key st sb parent name d h k m =
    let same_sb : (st.dentries d).d_sb ≡ sb = ground (arith, m) in
    let same_parent : (st.dentries d).d_parent ≡ parent = ground (arith, m) in
    let bytes : (st.dentries d).d_name.name ≡ name.name =
      same_name-eq (st.dentries d).d_name.name name.name (ground (arith, m)) in
    rw (same_sb, same_parent, k, bytes, h) refl

find_in-none :
    (st : DentryState) (sb parent : ℕ) (name : Qstr) (c : List (ℕ × ℕ))
    → AllNodes (λ k d. matches st sb parent name d ≡ false) c
    → find_in st sb parent name c ≡ none
unfolding find_in
find_in-none st sb parent name [] a = refl
find_in-none st sb parent name ((k, d) ∷ c) (h, a) = rw h (find_in-none st sb parent name c a)

key-lt :
    (st : DentryState) (sb parent hash : ℕ)
    → IsPlaced st
    → dentry_hash_key sb parent hash st.ht.size < 128
unfolding dentry_hash_key
key-lt st sb parent hash i = rw i.sized (hash_ptr-lt _ 128 (omega arith))

-- A node in the bucket of that number is not of a dentry that the comparison accepts.
not_accepted :
    (st : DentryState) (sb parent : ℕ) (name : Qstr)
    → IsPlaced st
    → name.hash ≡ hash_string name.name
    → (k d : ℕ) → PlacedNode st (dentry_hash_key sb parent name.hash st.ht.size) k d
    → matches st sb parent name d ≡ false
not_accepted st sb parent name i h k d (home, key, hash) =
    elim (Bool-cases (matches st sb parent name d)) [
      | inl m ↦
          let same : k ≡ dentry_hash_key sb parent name.hash st.ht.size =
            key ∙ matches-key st sb parent name d h hash m in
          absurd (
            hash_ptr-moves (dentry_hash_key sb parent name.hash st.ht.size)
              (key-lt st sb parent name.hash i) (ap (λ j. hash_ptr j 128) (sym same) ∙ home))
      | inr m ↦ m
    ]

-- `dentry_lookup` finds nothing where every node is in its place.
pub lookup-none :
    (st : DentryState) (sb parent : ℕ) (name : Qstr)
    → IsPlaced st
    → name.hash ≡ hash_string name.name
    → dentry_lookup st sb parent name ≡ (st, none)
unfolding dentry_lookup
lookup-none st sb parent name i h =
    let bucket = dentry_hash_key sb parent name.hash st.ht.size in
    let absent : find_in st sb parent name (get_or st.ht.buckets bucket []) ≡ none =
      find_in-none st sb parent name (get_or st.ht.buckets bucket []) (
        all_map (PlacedNode st bucket) (λ k d. matches st sb parent name d ≡ false)
          (get_or st.ht.buckets bucket []) (not_accepted st sb parent name i h)
          (i.placed bucket)) in
    rw (absent, dentry_lookup) refl
