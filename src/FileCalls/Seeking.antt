-- ===== src/FileCalls/Seeking.antt =====
-- kernel/syscall/src/unistd.rs: where `sys_lseek` moves the offset of a file.
use muffin.Base.{
  ℕ, suc, ◌+◌, ◌-◌, ◌^◌, ◌≤◌, ◌<◌, ◌≡◌, ◌⊎◌, ◌∙◌, refl, ap, none, some, ltb, leb, Result, ok, err,
  ℤ, pos, negsuc, arith, Bool-cases, inl, inr,
}
use muffin.Abi.Errno.{Errno, einval, eoverflow}
use muffin.FileCalls.Calls.{
  Whence, seek_set, seek_cur, seek_end, FileAccess, checked_add_signed, seek_error, seek_base,
  seek_to, seek_from, sys_lseek,
}

-- `p` is the sum of `base` and the offset.
abbrev pub IsSum : ℕ → ℤ → ℕ → Type 0
IsSum base (pos n) p = p ≡ base + n
IsSum base (negsuc n) p = p + suc n ≡ base

-- Where the sum does not fit 64 bits, and its error.
abbrev pub DoesNotFit : ℕ → ℤ → Errno → Type 0
DoesNotFit base (pos n) e = (2 ^ 64 ≤ base + n) × (e ≡ eoverflow)
DoesNotFit base (negsuc n) e = (base < suc n) × (e ≡ einval)

checked_add_signed_lem :
    (base : ℕ) (offset : ℤ)
    → base < 2 ^ 64
    → ((p : ℕ) × IsSum base offset p × (p < 2 ^ 64) × (checked_add_signed base offset ≡ some p))
      ⊎ (DoesNotFit base offset (seek_error offset) × (checked_add_signed base offset ≡ none))
unfolding checked_add_signed seek_error
checked_add_signed_lem base (pos n) small = elim (Bool-cases (ltb (base + n) (2 ^ 64))) [
  | inl fits ↦ inl (base + n, refl, ground arith, rw fits refl)
  | inr over ↦ inr ((ground arith, refl), rw over refl)
]
checked_add_signed_lem base (negsuc n) small = elim (Bool-cases (leb (n + 1) base)) [
  | inl fits ↦ inl (base - (n + 1), ground arith, ground arith, rw fits refl)
  | inr under ↦ inr ((ground arith, refl), rw under refl)
]

module _ {X : Type 0} (cx : FileAccess X) where
  -- The base of each `whence`, with the state after it was asked for: 0, the position of the file, or its size.
  abbrev pub IsBase : ℕ → Whence → X → X → ℕ → Type 0
  IsBase fildes seek_set x x' base = (x' ≡ x) × (base ≡ 0)
  IsBase fildes seek_cur x x' base = cx.position fildes x ≡ (x', ok base)
  IsBase fildes seek_end x x' base = cx.fstat fildes x ≡ (x', ok base)

  seek_base-IsBase :
      (fildes base : ℕ) (whence : Whence) (x x' : X)
      → IsBase fildes whence x x' base
      → seek_base cx fildes whence x ≡ (x', ok base)
  unfolding seek_base
  seek_base-IsBase fildes base seek_set x x' (same, none_asked) = cc
  seek_base-IsBase fildes base seek_cur x x' e = e
  seek_base-IsBase fildes base seek_end x x' e = e

  seek_to_result :
      (fildes p : ℕ) (x : X) (out : X × Result (Unit {0}) Errno)
      → cx.set_position fildes p x ≡ out
      → seek_to cx fildes p x ≡ (out.0, elim out.1 [ err e ↦ err e | ok u ↦ ok p ])
  unfolding seek_to
  seek_to_result fildes p x (x', err e) h = rw (seek_to, h) (ap (λ o. (o.0, err e)) h)
  seek_to_result fildes p x (x', ok u) h = rw (seek_to, h) (ap (λ o. (o.0, ok p)) h)

  -- Where `base` of 64 bits is 0 for `Set`, the position that the file gives for `Cur` or the size that it
  -- gives for `End`, with the state `x'` after it was asked for: if the sum of base and offset fits 64
  -- bits, `sys_lseek` sets the position of the file to it in `x'`, and answers the error of that or the sum.
  -- If not, it sets no position and answers `EINVAL` for a sum below zero, `EOVERFLOW` for one too large.
  pub sys_lseek-IsSum :
      (fildes base : ℕ) (offset : ℤ) (whence : Whence) (x x' : X)
      → base < 2 ^ 64
      → IsBase fildes whence x x' base
      → ((p : ℕ) × IsSum base offset p
          × (p < 2 ^ 64)
          × (sys_lseek cx fildes offset whence x ≡ (
            (cx.set_position fildes p x').0,
            elim (cx.set_position fildes p x').1 [ err e ↦ err e | ok u ↦ ok p ],
          )))
        ⊎ ((e : Errno) × DoesNotFit base offset e
            × (sys_lseek cx fildes offset whence x ≡ (x', err e)))
  unfolding sys_lseek seek_from
  sys_lseek-IsSum fildes base offset whence x x' small is_base =
      let start = seek_base-IsBase fildes base whence x x' is_base in
      elim (checked_add_signed_lem base offset small) [
        | inl (p, sum, fits, run) ↦ inl (
          p,
          sum,
          fits,
          ap (seek_from cx fildes offset) start
              ∙ rw (seek_from, run) (seek_to_result fildes p x' (cx.set_position fildes p x') refl),
        )
        | inr (over, run) ↦ inr (
          seek_error offset,
          over,
          ap (seek_from cx fildes offset) start ∙ rw (seek_from, run) refl,
        )
      ]
