-- ===== src/Dentry/Insert.antt =====
-- A second `dentry_insert` under the same parent and name.
use yu_noob_kernel.Base.{
  ℕ, ◌+◌, ◌^◌, ◌%◌, ◌<◌, ◌≡◌, ◌⊎◌, inl, inr, refl, sym, subst, ◌∙◌, arith, Bool, true, false,
  Bool-cases, ◌==◌, ==_refl, ◌||◌, List, [], ◌∷◌, Option, none, some, length, get_or,
  get_or-set_self,
}
use yu_noob_kernel.Errno.{eexist, ok, err}
use yu_noob_kernel.HashTable.{HashTable, hash_ptr, bucket_of, replace_value, hashtable_insert}
use yu_noob_kernel.HashTable.Map.{IsValid, hash_ptr-lt}
use yu_noob_kernel.Dentry.{Qstr, DentryState, key_of, same_name, matches, find_in, dentry_insert}
use yu_noob_kernel.Dentry.Nodes.{hashtable_insert-size}

-- A value stands in a bucket.
Has : ℕ → List (ℕ × ℕ) → Type 0
Has d [] = ⊥
Has d ((k, v) ∷ c) = (v ≡ d) ⊎ Has d c

replace_value-Has : (key d : ℕ) (c c' : List (ℕ × ℕ)) → replace_value key d c ≡ some c' → Has d c'
unfolding Has replace_value
replace_value-Has key d [] c' h = absurd (cc h)
replace_value-Has key d ((k, v) ∷ c) c' h = elim (Bool-cases (k == key)) [
  | inl e ↦ let made : (k, d) ∷ c ≡ c' = cc (rw e at h) in subst (Has d) made (inl refl)
  | inr e ↦ behind (replace_value-Has key d c) (replace_value key d c) refl (rw e at h)
]
  where
    behind :
        ((ns : List (ℕ × ℕ)) → replace_value key d c ≡ some ns → Has d ns)
        → (o : Option (List (ℕ × ℕ))) → replace_value key d c ≡ o
        → elim o [ none ↦ none | some ns ↦ some ((k, v) ∷ ns) ] ≡ some c'
        → Has d c'
    behind f none e g = absurd (cc g)
    behind f (some ns) e g = let made : (k, v) ∷ ns ≡ c' = cc g in subst (Has d) made (inr (f ns e))

find_in-some :
    (st : DentryState) (sb parent : ℕ) (name : Qstr) (d : ℕ) (c : List (ℕ × ℕ))
    → matches st sb parent name d ≡ true
    → Has d c
    → (x : ℕ) × (find_in st sb parent name c ≡ some x)
unfolding Has find_in
find_in-some st sb parent name d [] m h = absurd h
find_in-some st sb parent name d ((k, v) ∷ c) m h =
    elim (Bool-cases (matches st sb parent name v)) [
      | inl e ↦ (v, rw e refl)
      | inr e ↦ elim h [
        | inl s ↦
            let accepted : matches st sb parent name v ≡ true = rw s m in
            absurd (ground (arith, e, accepted))
        | inr t ↦ let (x, f) = find_in-some st sb parent name d c m t in (x, rw e f)
      ]
    ]

-- The bucket of the key behind `hashtable_insert`, which has found memory.
inserted-Has :
    (ht : HashTable ℕ) (key d : ℕ)
    → IsValid ht
    → Has d (get_or (hashtable_insert ht key d true).0.buckets (hash_ptr key ht.size) [])
unfolding hashtable_insert Has
inserted-Has ht key d v = cases (replace_value key d (bucket_of ht key)) refl
  where
    bound : hash_ptr key ht.size < length ht.buckets
    bound = omega (arith, hash_ptr-lt key ht.size v.nonempty, v.storage)

    cases :
        (o : Option (List (ℕ × ℕ)))
        → replace_value key d (bucket_of ht key) ≡ o
        → Has d (get_or (hashtable_insert ht key d true).0.buckets (hash_ptr key ht.size) [])
    cases none h =
        rw (h, hashtable_insert)
          (subst (Has d)
            (sym (
              get_or-set_self ht.buckets (hash_ptr key ht.size) ((key, d) ∷ bucket_of ht key) []
                bound))
            (inl refl))
    cases (some c) h =
        rw (h, hashtable_insert)
          (subst (Has d) (sym (get_or-set_self ht.buckets (hash_ptr key ht.size) c [] bound))
            (replace_value-Has key d (bucket_of ht key) c h))

same_name_refl : (a : List ℕ) → same_name a a ≡ true
unfolding same_name
same_name_refl [] = refl
same_name_refl (b ∷ bs) = rw (==_refl b, same_name_refl bs) refl

matches_self :
    (st : DentryState) (d : ℕ)
    → (d == 0) ≡ false
    → matches st (st.dentries d).d_sb (st.dentries d).d_parent (st.dentries d).d_name d ≡ true
matches_self st d h =
    rw
      (
        h,
        ==_refl (st.dentries d).d_sb,
        ==_refl (st.dentries d).d_parent,
        ==_refl (st.dentries d).d_name.len,
        same_name_refl (st.dentries d).d_name.name,
      )
      refl

-- The pointers that `dentry_insert` asks for.
abbrev pub IsComplete : DentryState → ℕ → Type 0
IsComplete st d = (d == 0 || (st.dentries d).d_sb == 0 || (st.dentries d).d_parent == 0) ≡ false

-- The walk of `dentry_insert` for a dentry.
abbrev walk : DentryState → ℕ → Option ℕ
walk st d =
    let x = st.dentries d in
    find_in st x.d_sb x.d_parent x.d_name
      (get_or st.ht.buckets (hash_ptr (key_of st d) st.ht.size) [])

insert-exists :
    (st : DentryState) (d x : ℕ) (mem : Bool)
    → IsComplete st d
    → walk st d ≡ some x
    → dentry_insert st d mem ≡ (st, err eexist)
unfolding dentry_insert
insert-exists st d x mem c h = rw (c, h, dentry_insert) refl

-- The state with a dentry in the table.
abbrev entered : DentryState → ℕ → DentryState
entered st d = record st {
  ht = (hashtable_insert st.ht (key_of st d) d true).0;
  dentry_list = d ∷ st.dentry_list;
  count = (st.count + 1) % 2 ^ 32;
}

insert-enters :
    (st : DentryState) (d : ℕ)
    → IsComplete st d
    → walk st d ≡ none
    → dentry_insert st d true ≡ (entered st d, ok tt)
unfolding dentry_insert
insert-enters st d c h = rw (c, h, dentry_insert) refl

walk-entered :
    (st : DentryState) (d : ℕ)
    → IsValid st.ht
    → (d == 0) ≡ false
    → (x : ℕ) × (walk (entered st d) d ≡ some x)
walk-entered st d v z =
    let size = hashtable_insert-size st.ht (key_of st d) d true in
    let (x, f) =
      find_in-some (entered st d) (st.dentries d).d_sb (st.dentries d).d_parent
        (st.dentries d).d_name d
        (get_or (entered st d).ht.buckets (hash_ptr (key_of st d) st.ht.size) [])
        (matches_self st d z) (inserted-Has st.ht (key_of st d) d v) in
    (x, rw size f)

-- Behind a `dentry_insert` that found memory, a dentry of the same super block, parent and name is not
-- inserted: the answer is EEXIST, and nothing changes. All pointers are there, and the table is well
-- formed.
pub dentry_insert-again :
    (st : DentryState) (d e : ℕ) (mem : Bool)
    → IsValid st.ht
    → IsComplete st d
    → IsComplete st e
    → (st.dentries e).d_sb ≡ (st.dentries d).d_sb
    → (st.dentries e).d_parent ≡ (st.dentries d).d_parent
    → (st.dentries e).d_name ≡ (st.dentries d).d_name
    → dentry_insert (dentry_insert st d true).0 e mem ≡ ((dentry_insert st d true).0, err eexist)
dentry_insert-again st d e mem v cd ce b p n = cases (walk st d) refl
  where
    twin : (s : DentryState) → s.dentries ≡ st.dentries → walk s e ≡ walk s d
    twin s h = rw (h, b, p, n) refl

    cases :
        (o : Option ℕ)
        → walk st d ≡ o
        → dentry_insert (dentry_insert st d true).0 e mem
          ≡ ((dentry_insert st d true).0, err eexist)
    cases (some x) h =
        rw (insert-exists st d x true cd h) (insert-exists st e x mem ce (twin st refl ∙ h))
    cases none h =
        let (x, f) = walk-entered st d v (ground (arith, cd)) in
        rw (insert-enters st d cd h)
          (insert-exists (entered st d) e x mem ce (twin (entered st d) refl ∙ f))
