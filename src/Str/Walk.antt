-- ===== src/Str/Walk.antt =====
-- The functions of src/misc/string.c that append and that walk along a string by a set of characters.
-- `fuel` bounds the rounds of each loop.
use yu_noob_kernel.Base.{
  ℕ, zero, suc, ◌+◌, ◌-◌, Bool, true, false, ltb, ◌==◌, if◌then◌else◌, Option, none, some, ℤ, pos,
}
use yu_noob_kernel.Str.{Memory, store, memcmp, strlen, strcpy_from, strchr}

-- `strcat`, whose loop is the one of `strcpy` behind the end of `dest`.
unfoldable pub strcat : ℕ → ℕ → ℕ → Memory → Option Memory
strcat fuel dest src m = elim (strlen fuel dest m) [
  | none ↦ none
  | some dest_len ↦ strcpy_from fuel 0 (dest + dest_len) src m
]

-- The loop of `strncat` from index `i` on with `n` rounds left, and the store of the zero behind it.
unfoldable pub strncat_from : ℕ → ℕ → ℕ → ℕ → Memory → Memory
strncat_from zero i dest src m = store m (dest + i) 0
strncat_from (suc n) i dest src m =
    let rest = strncat_from n (i + 1) dest src (store m (dest + i) (m (src + i))) in
    if m (src + i) == 0 then store m (dest + i) 0 else rest

unfoldable pub strncat : ℕ → ℕ → ℕ → ℕ → Memory → Option Memory
unfolding strncat_from
strncat fuel dest src n m = elim (strlen fuel dest m) [
  | none ↦ none
  | some dest_len ↦ some (strncat_from n 0 (dest + dest_len) src m)
]

is_zero : ℤ → Bool
is_zero (pos zero) = true
is_zero _ = false

-- The loop of `strstr` from index `i` on with `n` rounds left.
unfoldable pub strstr_from : ℕ → ℕ → ℕ → ℕ → ℕ → Memory → Option ℕ
unfolding is_zero
strstr_from zero i haystack needle needle_len m = none
strstr_from (suc n) i haystack needle needle_len m =
    let rest = strstr_from n (i + 1) haystack needle needle_len m in
    if is_zero (memcmp (haystack + i) needle needle_len m) then some (haystack + i) else rest

unfoldable pub strstr : ℕ → ℕ → ℕ → Memory → Option (Option ℕ)
unfolding strstr_from
strstr fuel haystack needle m =
    let found : Option (Option ℕ) = elim (strlen fuel needle m) [
      | none ↦ none
      | some needle_len ↦ elim (strlen fuel haystack m) [
        | none ↦ none
        | some haystack_len ↦
            if ltb haystack_len needle_len
            then some none
            else some (strstr_from (haystack_len - needle_len + 1) 0 haystack needle needle_len m)
      ]
    ] in
    if m needle == 0 then some (some haystack) else found

-- Whether `strchr` found the character.
unfoldable pub is_in : ℕ → ℕ → ℕ → Memory → Option Bool
is_in fuel set c m = elim (strchr fuel set c m) [
  | none ↦ none
  | some r ↦ some (elim r [ none ↦ false | some a ↦ true ])
]

unfoldable pub same_bool : Bool → Bool → Bool
same_bool true b = b
same_bool false true = false
same_bool false false = true

-- `while (*s && strchr(set, *s))`, or with `!strchr`, as the flag says: where the loop stops.
unfoldable pub walk : ℕ → ℕ → Bool → ℕ → ℕ → Memory → Option ℕ
unfolding is_in same_bool
walk zero fuel wanted set s m = none
walk (suc k) fuel wanted set s m =
    let rest = walk k fuel wanted set (s + 1) m in
    let tested : Option ℕ = elim (is_in fuel set (m s) m) [
      | none ↦ none
      | some b ↦ if same_bool wanted b then rest else some s
    ] in
    if m s == 0 then some s else tested

unfoldable pub strspn : ℕ → ℕ → ℕ → Memory → Option ℕ
unfolding walk
strspn fuel s accept m = elim (walk fuel fuel true accept s m) [
  | none ↦ none
  | some e ↦ some (e - s)
]

unfoldable pub strcspn : ℕ → ℕ → ℕ → Memory → Option ℕ
unfolding walk
strcspn fuel s reject m = elim (walk fuel fuel false reject s m) [
  | none ↦ none
  | some e ↦ some (e - s)
]

-- `strpbrk`.
unfoldable pub strpbrk : ℕ → ℕ → ℕ → Memory → Option (Option ℕ)
unfolding walk
strpbrk fuel s accept m = elim (walk fuel fuel false accept s m) [
  | none ↦ none
  | some e ↦ some (if m e == 0 then none else some e)
]

-- What `strtok` leaves and returns.
pub record Token : Type 0 where
  pub memory : Memory
  pub last : Option ℕ
  pub token : Option ℕ

-- The end of `strtok`, with the token that begins at `token` and ends before `e`.
unfoldable pub end_token : ℕ → ℕ → Memory → Token
end_token token e m =
    if m e == 0
    then record { memory = m; last = none; token = some token }
    else record { memory = store m e 0; last = some (e + 1); token = some token }

-- `strtok` from the address where it begins to look.
unfoldable pub strtok_at : ℕ → ℕ → ℕ → Memory → Option Token
unfolding walk end_token
strtok_at fuel from delim m = elim (walk fuel fuel true delim from m) [
  | none ↦ none
  | some b ↦
      let ended : Option Token = elim (walk fuel fuel false delim b m) [
        | none ↦ none
        | some e ↦ some (end_token b e m)
      ] in
      if m b == 0 then some (record { memory = m; last = none; token = none }) else ended
]

-- `strtok`: `str` is none for NULL, and `last` is the static variable.
unfoldable pub strtok : ℕ → Option ℕ → ℕ → Option ℕ → Memory → Option Token
unfolding strtok_at
strtok fuel (some str) delim last m = strtok_at fuel str delim m
strtok fuel none delim (some from) m = strtok_at fuel from delim m
strtok fuel none delim none m = some (record { memory = m; last = none; token = none })
