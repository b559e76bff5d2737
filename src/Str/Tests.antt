-- ===== src/Str/Tests.antt =====
-- The theorems about src/misc/string.c at a memory with two short strings.
use yu_noob_kernel.Base.{
  ℕ, ◌+◌, ◌<◌, ◌≡◌, ◌≢◌, inl, inr, refl, arith, ◌==◌, if◌then◌else◌, some, none, pos, negsuc,
}
use yu_noob_kernel.Str.{
  strchr, strchr_from, Memory, memcpy, memmove, memset, strlen, strnlen, strcpy, strcmp, strncmp,
  memcmp, byte_diff,
}
use yu_noob_kernel.Str.Copy.{moved, memmove-eq-moved, memcpy-eq-moved, memset_lem}
use yu_noob_kernel.Str.Length.{IsStringAt, strlen_lem, strnlen_lem, strcpy_lem}
use yu_noob_kernel.Str.Walk.{strcat, strtok, strtok_at, walk, is_in, end_token, Token, same_bool}
use yu_noob_kernel.Str.Concat.{strcat_lem}
use yu_noob_kernel.Str.Compare.{SamePrefix, StopsAt, strcmp_lem, strncmp_lem, memcmp_lem}

-- "ab" at 100 and "ac" at 200.
abbrev two_strings : Memory
two_strings x =
    if x == 100
    then 97
    else if x == 101
    then 98
    else if x == 200
    then 97
    else if x == 201
    then 99
    else 0

ab : IsStringAt two_strings 100 2
ab = record { chars = λ i h. ground arith; ending = refl }

one_same : SamePrefix two_strings 100 200 1
one_same i h = ground arith

then_differ : StopsAt two_strings 100 200 1
then_differ = inl (omega arith)

memmove-eq-moved_example : memmove 101 100 2 two_strings ≡ moved 101 100 2 two_strings
memmove-eq-moved_example = memmove-eq-moved 101 100 2 two_strings

memcpy-two_strings : memcpy 300 100 3 two_strings ≡ moved 300 100 3 two_strings
memcpy-two_strings = memcpy-eq-moved 300 100 3 two_strings (inr (omega arith))

memset_fills : memset 100 321 2 two_strings 101 ≡ 65
memset_fills = memset_lem 100 321 2 101 two_strings

strlen_ab : strlen 3 100 two_strings ≡ some 2
strlen_ab = strlen_lem 3 100 2 two_strings ab (omega arith)

strnlen_ab : strnlen 100 1 two_strings ≡ 1
strnlen_ab = strnlen_lem 100 2 1 two_strings ab

strcpy-two_strings : strcpy 3 300 100 two_strings ≡ some (moved 300 100 3 two_strings)
strcpy-two_strings = strcpy_lem 3 300 100 2 two_strings ab (omega arith) (inr (omega arith))

strcmp-two_strings : strcmp 2 100 200 two_strings ≡ some (negsuc 0)
strcmp-two_strings = strcmp_lem 1 2 100 200 two_strings one_same then_differ (omega arith)

strncmp-two_strings : strncmp 100 200 2 two_strings ≡ negsuc 0
strncmp-two_strings = strncmp_lem 1 2 100 200 two_strings one_same (inl then_differ) (omega arith)

memcmp-two_strings :
    (((j : ℕ) → j < 1 → two_strings (100 + j) ≡ two_strings (200 + j))
      → memcmp 100 200 1 two_strings ≡ pos 0)
    × ((k : ℕ)
        → k < 1
        → ((j : ℕ) → j < k → two_strings (100 + j) ≡ two_strings (200 + j))
        → two_strings (100 + k) ≢ two_strings (200 + k)
        → memcmp 100 200 1 two_strings ≡ byte_diff (two_strings (100 + k)) (two_strings (200 + k)))
memcmp-two_strings = memcmp_lem 100 200 1 two_strings

ac : IsStringAt two_strings 200 2
ac = record { chars = λ i h. ground arith; ending = refl }

strcat-two_strings :
    (strcat 3 100 200 two_strings ≡ some (moved 102 200 3 two_strings))
    × IsStringAt (moved 102 200 3 two_strings) 100 4
strcat-two_strings =
    strcat_lem 3 100 200 2 2 two_strings ab ac (omega arith) (omega arith) (inl (omega arith))

-- The token of "ab" with "c" as the delimiter is the whole string.
first_token :
    (e : Token) × (strtok 4 (some 100) 201 none two_strings ≡ some e)
    × (e.token ≡ some 100)
    × (e.last ≡ none)
unfolding strtok strtok_at walk is_in end_token strchr strchr_from same_bool
first_token = (_, refl, refl, refl)
