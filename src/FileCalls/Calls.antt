-- ===== src/FileCalls/Calls.antt =====
-- kernel/syscall/src/unistd.rs, access/file.rs, access/cwd.rs: `sys_lseek`, `sys_getcwd` and the calls that
-- forward to the access of a process. `usize` has 64 bits, so that each offset fits.
use muffin.Base.{
  ℕ, zero, suc, ◌+◌, ◌-◌, ◌^◌, Option, none, some, List, [], ◌∷◌, length, set, leb, ltb, ◌==◌,
  if◌then◌else◌, Result, ok, err, ok_or, ℤ, pos, negsuc,
}
use muffin.Abi.Errno.{Errno, einval, eoverflow, erange}

pub data Whence : Type 0 where
  seek_set seek_cur seek_end : Whence

-- `Whence::try_from`.
unfoldable pub whence_from : ℕ → Result Whence Errno
whence_from zero = ok seek_set
whence_from (suc zero) = ok seek_cur
whence_from (suc (suc zero)) = ok seek_end
whence_from _ = err einval

-- The trait `FileAccess` as these calls use it, for a process whose files are in `X`. Only the size of a
-- `Stat` is read.
pub record FileAccess (X : Type 0) : Type 0 where
  pub read_fd : ℕ → List ℕ → X → X × (List ℕ × Option ℕ)
  pub write_fd : ℕ → List ℕ → X → X × Option ℕ
  pub fsync_fd : ℕ → X → X × Result (Unit {0}) Errno
  pub fstat : ℕ → X → X × Result ℕ Errno
  pub position : ℕ → X → X × Result ℕ Errno
  pub set_position : ℕ → ℕ → X → X × Result (Unit {0}) Errno

-- `checked_add_signed` on 64 bits.
unfoldable pub checked_add_signed : ℕ → ℤ → Option ℕ
checked_add_signed base (pos n) = if ltb (base + n) (2 ^ 64) then some (base + n) else none
checked_add_signed base (negsuc n) = if leb (n + 1) base then some (base - (n + 1)) else none

-- The error of an offset that does not fit.
unfoldable pub seek_error : ℤ → Errno
seek_error (pos n) = eoverflow
seek_error (negsuc n) = einval

module _ {X : Type 0} (cx : FileAccess X) where
  unfoldable pub seek_base : ℕ → Whence → X → X × Result ℕ Errno
  seek_base fildes seek_set x = (x, ok 0)
  seek_base fildes seek_cur x = cx.position fildes x
  seek_base fildes seek_end x = cx.fstat fildes x

  -- `set_position(fildes, target)?`, and the answer.
  unfoldable pub seek_to : ℕ → ℕ → X → X × Result ℕ Errno
  seek_to fildes target x =
      let (x', r) = cx.set_position fildes target x in
      elim r [ err e ↦ (x', err e) | ok u ↦ (x', ok target) ]

  -- `sys_lseek` from its base on.
  unfoldable pub seek_from : ℕ → ℤ → X × Result ℕ Errno → X × Result ℕ Errno
  unfolding checked_add_signed seek_error seek_to
  seek_from fildes offset (x, err e) = (x, err e)
  seek_from fildes offset (x, ok base) = elim (checked_add_signed base offset) [
    | none ↦ (x, err (seek_error offset))
    | some target ↦ seek_to fildes target x
  ]

  unfoldable pub sys_lseek : ℕ → ℤ → Whence → X → X × Result ℕ Errno
  unfolding seek_base seek_from
  sys_lseek fildes offset whence x = seek_from fildes offset (seek_base fildes whence x)

  -- `sys_read`, `sys_write` and `sys_fsync`.
  unfoldable pub sys_read : ℕ → List ℕ → X → X × (List ℕ × Result ℕ Errno)
  sys_read fildes buf x =
      let (x', (buf', r)) = cx.read_fd fildes buf x in (x', (buf', ok_or r einval))

  unfoldable pub sys_write : ℕ → List ℕ → X → X × Result ℕ Errno
  sys_write fildes buf x = let (x', r) = cx.write_fd fildes buf x in (x', ok_or r einval)

  unfoldable pub sys_fsync : ℕ → X → X × Result ℕ Errno
  sys_fsync fildes x =
      let (x', r) = cx.fsync_fd fildes x in elim r [ ok u ↦ (x', ok 0) | err e ↦ (x', err e) ]

-- The bytes of a path over those of a buffer, as far as both go.
unfoldable pub zip_bytes : List ℕ → List ℕ → List ℕ
zip_bytes [] bytes = []
zip_bytes (s ∷ slice) [] = s ∷ slice
zip_bytes (s ∷ slice) (b ∷ bytes) = b ∷ zip_bytes slice bytes

-- `sys_getcwd` of a buffer at an address, with its bytes; the buffer after it, and the answer.
unfoldable pub sys_getcwd : List ℕ → ℕ → List ℕ → List ℕ × Result ℕ Errno
unfolding zip_bytes
sys_getcwd cwd addr slice =
    if addr == 0
    then (slice, err einval)
    else (if length slice == 0
        then (slice, err einval)
        else (if leb (length slice) (length cwd)
            then (slice, err erange)
            else (set (zip_bytes slice cwd) (length cwd) 0, ok addr)))
