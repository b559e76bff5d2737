-- ===== src/Str.antt =====
-- src/misc/string.c over a byte memory. An address is a number below which and above which there is
-- always more memory: pointers that would wrap at 2 ^ 64 are outside the model. `char` is unsigned, as
-- on RISC-V. A loop that looks for a terminating zero takes fuel; `none` means that the fuel ran out.
pub mod Copy
pub mod Compare
pub mod Length
pub mod Walk
pub mod Concat
mod Tests
use yu_noob_kernel.Base.{
  ℕ, zero, suc, ◌+◌, ◌-◌, ◌%◌, Bool, true, false, not, leb, ltb, ◌==◌, if◌then◌else◌, ◌&&◌, ◌||◌,
  Option, none, some, ℤ, pos, negsuc,
}

abbrev pub Memory : Type 0
Memory = ℕ → ℕ

abbrev pub store : Memory → ℕ → ℕ → Memory
store m a v x = if a == x then v else m x

-- `d[i] = s[i]` for `i`, `i + 1`, … with `n` rounds left.
unfoldable pub copy_up : ℕ → ℕ → ℕ → ℕ → Memory → Memory
copy_up zero i d s m = m
copy_up (suc n) i d s m = copy_up n (i + 1) d s (store m (d + i) (m (s + i)))

-- `d[i - 1] = s[i - 1]` for `i = n` down to 1.
unfoldable pub copy_down : ℕ → ℕ → ℕ → Memory → Memory
copy_down zero d s m = m
copy_down (suc n) d s m = copy_down n d s (store m (d + n) (m (s + n)))

unfoldable pub memcpy : ℕ → ℕ → ℕ → Memory → Memory
unfolding copy_up
memcpy dest src n m = copy_up n 0 dest src m

unfoldable pub memmove : ℕ → ℕ → ℕ → Memory → Memory
unfolding copy_up copy_down
memmove dest src n m =
    if ltb dest src
    then copy_up n 0 dest src m
    else if ltb src dest
    then copy_down n dest src m
    else m

unfoldable pub set_up : ℕ → ℕ → ℕ → ℕ → Memory → Memory
set_up zero i p ch m = m
set_up (suc n) i p ch m = set_up n (i + 1) p ch (store m (p + i) ch)

-- `(unsigned char)c`.
unfoldable pub memset : ℕ → ℕ → ℕ → Memory → Memory
unfolding set_up
memset s c n m = set_up n 0 s (c % 256) m

-- The difference of two bytes as an `int`.
abbrev pub byte_diff : ℕ → ℕ → ℤ
byte_diff a b = if leb b a then pos (a - b) else negsuc (b - a - 1)

unfoldable pub cmp_up : ℕ → ℕ → ℕ → ℕ → Memory → ℤ
cmp_up zero i p q m = pos 0
cmp_up (suc n) i p q m =
    let rest = cmp_up n (i + 1) p q m in
    if m (p + i) == m (q + i) then rest else byte_diff (m (p + i)) (m (q + i))

unfoldable pub memcmp : ℕ → ℕ → ℕ → Memory → ℤ
unfolding cmp_up
memcmp s1 s2 n m = cmp_up n 0 s1 s2 m

-- `memchr`: the address found.
unfoldable pub chr_up : ℕ → ℕ → ℕ → ℕ → Memory → Option ℕ
chr_up zero i p ch m = none
chr_up (suc n) i p ch m =
    let rest = chr_up n (i + 1) p ch m in if m (p + i) == ch then some (p + i) else rest

unfoldable pub memchr : ℕ → ℕ → ℕ → Memory → Option ℕ
unfolding chr_up
memchr s c n m = chr_up n 0 s (c % 256) m

unfoldable pub strlen_from : ℕ → ℕ → ℕ → Memory → Option ℕ
strlen_from zero len s m = none
strlen_from (suc fuel) len s m =
    let rest = strlen_from fuel (len + 1) s m in if m (s + len) == 0 then some len else rest

unfoldable pub strlen : ℕ → ℕ → Memory → Option ℕ
unfolding strlen_from
strlen fuel s m = strlen_from fuel 0 s m

-- The rounds left are `maxlen - len`.
unfoldable pub strnlen_from : ℕ → ℕ → ℕ → Memory → ℕ
strnlen_from zero len s m = len
strnlen_from (suc n) len s m =
    let rest = strnlen_from n (len + 1) s m in if m (s + len) == 0 then len else rest

unfoldable pub strnlen : ℕ → ℕ → Memory → ℕ
unfolding strnlen_from
strnlen s maxlen m = strnlen_from maxlen 0 s m

-- The loop of `strcpy` from index `i` on, and the store of the zero behind it.
unfoldable pub strcpy_from : ℕ → ℕ → ℕ → ℕ → Memory → Option Memory
strcpy_from zero i dest src m = none
strcpy_from (suc fuel) i dest src m =
    let rest = strcpy_from fuel (i + 1) dest src (store m (dest + i) (m (src + i))) in
    if m (src + i) == 0 then some (store m (dest + i) 0) else rest

unfoldable pub strcpy : ℕ → ℕ → ℕ → Memory → Option Memory
unfolding strcpy_from
strcpy fuel dest src m = strcpy_from fuel 0 dest src m

-- The two loops of `strncpy`, with `n` rounds left: the copy stops at a zero, and zeros fill the rest.
unfoldable pub strncpy_from : ℕ → ℕ → ℕ → ℕ → Memory → Memory
unfolding set_up
strncpy_from zero i dest src m = m
strncpy_from (suc n) i dest src m =
    let rest = strncpy_from n (i + 1) dest src (store m (dest + i) (m (src + i))) in
    if m (src + i) == 0 then set_up (suc n) i dest 0 m else rest

unfoldable pub strncpy : ℕ → ℕ → ℕ → Memory → Memory
unfolding strncpy_from
strncpy dest src n m = strncpy_from n 0 dest src m

unfoldable pub strcmp : ℕ → ℕ → ℕ → Memory → Option ℤ
strcmp zero s1 s2 m = none
strcmp (suc fuel) s1 s2 m =
    let rest = strcmp fuel (s1 + 1) (s2 + 1) m in
    if not (m s1 == 0) && m s1 == m s2 then rest else some (byte_diff (m s1) (m s2))

-- The loop of `strncmp`, whose `n` is positive: `k` is `n - 1`.
unfoldable pub strncmp_from : ℕ → ℕ → ℕ → Memory → ℤ
strncmp_from zero s1 s2 m = byte_diff (m s1) (m s2)
strncmp_from (suc k) s1 s2 m =
    let rest = strncmp_from k (s1 + 1) (s2 + 1) m in
    if not (m s1 == 0) && m s1 == m s2 then rest else byte_diff (m s1) (m s2)

unfoldable pub strncmp : ℕ → ℕ → ℕ → Memory → ℤ
unfolding strncmp_from
strncmp s1 s2 zero m = pos 0
strncmp s1 s2 (suc k) m = strncmp_from k s1 s2 m

-- `strchr`.
unfoldable pub strchr_from : ℕ → ℕ → ℕ → Memory → Option (Option ℕ)
strchr_from zero s c m = none
strchr_from (suc fuel) s c m =
    let rest = strchr_from fuel (s + 1) c m in
    if m s == c then some (some s) else if m s == 0 then some none else rest

unfoldable pub strchr : ℕ → ℕ → ℕ → Memory → Option (Option ℕ)
unfolding strchr_from
strchr fuel s c m = strchr_from fuel s (c % 256) m

-- The loop of `strrchr` with the last position found.
unfoldable pub strrchr_from : ℕ → ℕ → ℕ → Option ℕ → Memory → Option (Option ℕ)
strrchr_from zero s c last m = none
strrchr_from (suc fuel) s c last m =
    let last' = if m s == c then some s else last in
    let rest = strrchr_from fuel (s + 1) c last' m in if m s == 0 then some last' else rest

unfoldable pub strrchr : ℕ → ℕ → ℕ → Memory → Option (Option ℕ)
unfolding strrchr_from
strrchr fuel s c m = strrchr_from fuel s (c % 256) none m
