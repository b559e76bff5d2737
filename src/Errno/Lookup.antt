-- ===== src/Errno/Lookup.antt =====
-- `strerror` and `get_error_name` of src/misc/errno.c.
use Prim.Native.String.{String}
use yu_noob_kernel.Base.{◌≡◌, arith, ℤ, nat_abs, neg}
use yu_noob_kernel.Errno.{error_table, find_entry}

-- `errnum = -errnum` for a negative number is the absolute value.
pub strerror : ℤ → String
unfolding find_entry error_table
strerror errnum = find_entry error_table (nat_abs errnum) (λ e. e.err_desc) "Unknown error"

pub get_error_name : ℤ → String
unfolding find_entry error_table
get_error_name errnum = find_entry error_table (nat_abs errnum) (λ e. e.err_name) "ERR_UNKNOWN"

nat_abs-neg : (z : ℤ) → nat_abs (neg z) ≡ nat_abs z
nat_abs-neg z = ground arith
