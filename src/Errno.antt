-- ===== src/Errno.antt =====
-- include/misc/errno.h and src/misc/errno.c: the error numbers and the table of their texts.
pub mod Lookup
use Prim.Native.String.{String}
use yu_noob_kernel.Base.{ℕ, Bool, ◌==◌, if◌then◌else◌, List, [], ◌∷◌}

-- The error numbers that the table describes, and EADDRINUSE; `success` is OK.
pub data Errno : Type 0 where
  success eperm enoent esrch eintr eio enxio e2big : Errno
  enoexec ebadf echild eagain enomem eacces efault enotblk : Errno
  ebusy eexist exdev enodev enotdir eisdir einval enfile : Errno
  emfile enotty etxtbsy efbig enospc espipe erofs emlink : Errno
  epipe edom erange edeadlk enametoolong enolck enosys enotempty : Errno
  eloop enomsg eidrm eaddrinuse : Errno

unfoldable pub code : Errno → ℕ
code success = 0
code eperm = 1
code enoent = 2
code esrch = 3
code eintr = 4
code eio = 5
code enxio = 6
code e2big = 7
code enoexec = 8
code ebadf = 9
code echild = 10
code eagain = 11
code enomem = 12
code eacces = 13
code efault = 14
code enotblk = 15
code ebusy = 16
code eexist = 17
code exdev = 18
code enodev = 19
code enotdir = 20
code eisdir = 21
code einval = 22
code enfile = 23
code emfile = 24
code enotty = 25
code etxtbsy = 26
code efbig = 27
code enospc = 28
code espipe = 29
code erofs = 30
code emlink = 31
code epipe = 32
code edom = 33
code erange = 34
code edeadlk = 35
code enametoolong = 36
code enolck = 37
code enosys = 38
code enotempty = 39
code eloop = 40
code enomsg = 42
code eidrm = 43
code eaddrinuse = 98

-- `struct error_info`.
pub record ErrorInfo : Type 0 where
  pub err_code : ℕ
  pub err_name : String
  pub err_desc : String

abbrev entry : Errno → String → String → ErrorInfo
unfolding code
entry e name desc = record { err_code = code e; err_name = name; err_desc = desc }

unfoldable pub error_table : List ErrorInfo
unfolding entry
error_table =
    entry success "ERR_OK" "Success"
    ∷ entry eperm "ERR_EPERM" "Operation not permitted"
    ∷ entry enoent "ERR_ENOENT" "No such file or directory"
    ∷ entry esrch "ERR_ESRCH" "No such process"
    ∷ entry eintr "ERR_EINTR" "Interrupted system call"
    ∷ entry eio "ERR_EIO" "Input/output error"
    ∷ entry enxio "ERR_ENXIO" "No such device or address"
    ∷ entry e2big "ERR_E2BIG" "Argument list too long"
    ∷ entry enoexec "ERR_ENOEXEC" "Exec format error"
    ∷ entry ebadf "ERR_EBADF" "Bad file descriptor"
    ∷ entry echild "ERR_ECHILD" "No child processes"
    ∷ entry eagain "ERR_EAGAIN" "Resource temporarily unavailable"
    ∷ entry enomem "ERR_ENOMEM" "Cannot allocate memory"
    ∷ entry eacces "ERR_EACCES" "Permission denied"
    ∷ entry efault "ERR_EFAULT" "Bad address"
    ∷ entry enotblk "ERR_ENOTBLK" "Block device required"
    ∷ entry ebusy "ERR_EBUSY" "Device or resource busy"
    ∷ entry eexist "ERR_EEXIST" "File exists"
    ∷ entry exdev "ERR_EXDEV" "Invalid cross-device link"
    ∷ entry enodev "ERR_ENODEV" "No such device"
    ∷ entry enotdir "ERR_ENOTDIR" "Not a directory"
    ∷ entry eisdir "ERR_EISDIR" "Is a directory"
    ∷ entry einval "ERR_EINVAL" "Invalid argument"
    ∷ entry enfile "ERR_ENFILE" "Too many open files in system"
    ∷ entry emfile "ERR_EMFILE" "Too many open files"
    ∷ entry enotty "ERR_ENOTTY" "Inappropriate ioctl for device"
    ∷ entry etxtbsy "ERR_ETXTBSY" "Text file busy"
    ∷ entry efbig "ERR_EFBIG" "File too large"
    ∷ entry enospc "ERR_ENOSPC" "No space left on device"
    ∷ entry espipe "ERR_ESPIPE" "Illegal seek"
    ∷ entry erofs "ERR_EROFS" "Read-only file system"
    ∷ entry emlink "ERR_EMLINK" "Too many links"
    ∷ entry epipe "ERR_EPIPE" "Broken pipe"
    ∷ entry edom "ERR_EDOM" "Numerical argument out of domain"
    ∷ entry erange "ERR_ERANGE" "Numerical result out of range"
    ∷ entry edeadlk "ERR_EDEADLK" "Resource deadlock avoided"
    ∷ entry enametoolong "ERR_ENAMETOOLONG" "File name too long"
    ∷ entry enolck "ERR_ENOLCK" "No locks available"
    ∷ entry enosys "ERR_ENOSYS" "Function not implemented"
    ∷ entry enotempty "ERR_ENOTEMPTY" "Directory not empty"
    ∷ entry eloop "ERR_ELOOP" "Too many levels of symbolic links"
    ∷ entry enomsg "ERR_ENOMSG" "No message of desired type"
    ∷ entry eidrm "ERR_EIDRM" "Identifier removed"
    ∷ []

-- The loop that `strerror` and `get_error_name` share: the first entry with this number.
unfoldable pub find_entry : List ErrorInfo → ℕ → (ErrorInfo → String) → String → String
find_entry [] n field missing = missing
find_entry (e ∷ es) n field missing =
    if e.err_code == n then field e else find_entry es n field missing

-- The result of a call that returns a value or a negative error number.
pub data Result {ℓ} (A : Type ℓ) : Type ℓ where
  ok : A → Result A
  err : Errno → Result A
