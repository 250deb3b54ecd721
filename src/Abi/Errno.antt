-- ===== src/Abi/Errno.antt =====
-- kernel/abi/src/errno.rs: the error numbers that the modelled code returns.
use muffin.Base.{ℕ}

-- `Errno(c_int)`. Every constant is positive.
abbrev pub Errno : Type 0
Errno = ℕ

abbrev pub ebadf : Errno
ebadf = 8

abbrev pub einval : Errno
einval = 27

abbrev pub enomem : Errno
enomem = 47

abbrev pub eoverflow : Errno
eoverflow = 61

abbrev pub eperm : Errno
eperm = 63

abbrev pub erange : Errno
erange = 68

abbrev pub esrch : Errno
esrch = 72
