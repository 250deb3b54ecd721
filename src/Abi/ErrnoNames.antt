-- ===== src/Abi/ErrnoNames.antt =====
-- kernel/abi/src/errno.rs: the constants that the macro `n!` declares, and `errno_name`.
use muffin.Base.{◌≡◌, Option, none, some, List, [], ◌∷◌, ◌==◌, if◌then◌else◌, arith}
use muffin.Abi.Errno.{Errno}

-- The names that the macro `n!` declares.
pub data ErrnoName : Type 0 where
  e2big eacces eaddrinuse eaddrnotavail eafnosupport eagain ealready ebadf ebadmsg ebusy ecanceled
        echild econnaborted econnrefused edeadlk edestaddrreq edom edquot eexist efault efbig
        ehostunreach eidrm eilseq einprogress eintr einval eio eisconn eisdir eloop emfile emlink
        emsgsize emultihop enametoolong enetdown enetreset enetunreach enfile enobufs enodev enoent
        enoexec enolck enolink enomem enomsg enoprotoopt enospc enosys enotconn enotdir enotempty
        enotrecoverable enotsock enotsup enotty enxio eopnotsupp eoverflow eownerdead eperm epipe
        eproto eprotonosupport eprototype erange erofs esocktnosupport espipe esrch estale
        etimedeout etxtbsy ewouldblock exdev :
      ErrnoName

-- The constant of each name.
abbrev pub constant : ErrnoName → Errno
constant e2big = 1
constant eacces = 2
constant eaddrinuse = 3
constant eaddrnotavail = 4
constant eafnosupport = 5
constant eagain = 6
constant ealready = 7
constant ebadf = 8
constant ebadmsg = 9
constant ebusy = 10
constant ecanceled = 11
constant echild = 12
constant econnaborted = 13
constant econnrefused = 14
constant edeadlk = 15
constant edestaddrreq = 16
constant edom = 17
constant edquot = 18
constant eexist = 19
constant efault = 20
constant efbig = 21
constant ehostunreach = 22
constant eidrm = 23
constant eilseq = 24
constant einprogress = 25
constant eintr = 26
constant einval = 27
constant eio = 28
constant eisconn = 29
constant eisdir = 30
constant eloop = 31
constant emfile = 32
constant emlink = 33
constant emsgsize = 34
constant emultihop = 35
constant enametoolong = 36
constant enetdown = 37
constant enetreset = 38
constant enetunreach = 39
constant enfile = 40
constant enobufs = 41
constant enodev = 42
constant enoent = 43
constant enoexec = 44
constant enolck = 45
constant enolink = 46
constant enomem = 47
constant enomsg = 48
constant enoprotoopt = 49
constant enospc = 50
constant enosys = 51
constant enotconn = 52
constant enotdir = 53
constant enotempty = 54
constant enotrecoverable = 55
constant enotsock = 56
constant enotsup = 57
constant enotty = 58
constant enxio = 59
constant eopnotsupp = 60
constant eoverflow = 61
constant eownerdead = 62
constant eperm = 63
constant epipe = 64
constant eproto = 65
constant eprotonosupport = 66
constant eprototype = 67
constant erange = 68
constant erofs = 69
constant esocktnosupport = 70
constant espipe = 71
constant esrch = 72
constant estale = 73
constant etimedeout = 74
constant etxtbsy = 75
constant ewouldblock = 76
constant exdev = 77

-- The arms of `errno_name`, in the order of the macro's list.
abbrev pub arms : List ErrnoName
arms =
    e2big ∷ eacces ∷ eaddrinuse ∷ eaddrnotavail ∷ eafnosupport ∷ eagain ∷ ealready ∷ ebadf ∷ ebadmsg
    ∷ ebusy ∷ ecanceled ∷ echild ∷ econnaborted ∷ econnrefused ∷ edeadlk ∷ edestaddrreq ∷ edom
    ∷ edquot ∷ eexist ∷ efault ∷ efbig ∷ ehostunreach ∷ eidrm ∷ eilseq ∷ einprogress ∷ eintr
    ∷ einval ∷ eio ∷ eisconn ∷ eisdir ∷ eloop ∷ emfile ∷ emlink ∷ emsgsize ∷ emultihop
    ∷ enametoolong ∷ enetdown ∷ enetreset ∷ enetunreach ∷ enfile ∷ enobufs ∷ enodev ∷ enoent
    ∷ enoexec ∷ enolck ∷ enolink ∷ enomem ∷ enomsg ∷ enoprotoopt ∷ enospc ∷ enosys ∷ enotconn
    ∷ enotdir ∷ enotempty ∷ enotrecoverable ∷ enotsock ∷ enotsup ∷ enotty ∷ enxio ∷ eopnotsupp
    ∷ eoverflow ∷ eownerdead ∷ eperm ∷ epipe ∷ eproto ∷ eprotonosupport ∷ eprototype ∷ erange
    ∷ erofs ∷ esocktnosupport ∷ espipe ∷ esrch ∷ estale ∷ etimedeout ∷ etxtbsy ∷ ewouldblock ∷ exdev
    ∷ []

unfoldable first_arm : List ErrnoName → Errno → Option ErrnoName
first_arm [] n = none
first_arm (x ∷ xs) n = let rest = first_arm xs n in if constant x == n then some x else rest

-- `errno_name`; `none` is its last arm, `"<unknown>"`.
unfoldable pub errno_name : Errno → Option ErrnoName
unfolding first_arm
errno_name n = first_arm arms n

-- Each constant is printed by its own name, so no two names share a number.
errno_name-constant : (x : ErrnoName) → errno_name (constant x) ≡ some x
unfolding errno_name first_arm
errno_name-constant x = ground arith
