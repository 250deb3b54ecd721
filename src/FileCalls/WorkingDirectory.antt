-- ===== src/FileCalls/WorkingDirectory.antt =====
-- kernel/syscall/src/unistd.rs: what `sys_getcwd` leaves in the buffer of its caller.
use muffin.Base.{
  ℕ, suc, ◌≤◌, ◌<◌, ◌≡◌, ◌≢◌, ◌⊎◌, refl, ap, List, [], ◌∷◌, ◌++◌, length, set, drop, leb, ◌==◌, ok,
  err, arith, Bool-cases, inl, inr,
}
use muffin.Abi.Errno.{einval, erange}
use muffin.FileCalls.Calls.{zip_bytes, sys_getcwd}

-- The buffer with the path and the byte behind it.
written :
    (cwd slice : List ℕ)
    → length cwd < length slice
    → set (zip_bytes slice cwd) (length cwd) 0 ≡ (cwd ++ (0 ∷ [])) ++ drop (suc (length cwd)) slice
unfolding zip_bytes
written [] [] h = absurd (omega (arith, h))
written [] (s ∷ slice) h = refl
written (b ∷ cwd) [] h = absurd (omega (arith, h))
written (b ∷ cwd) (s ∷ slice) h = ap (λ l. b ∷ l) (written cwd slice (omega (arith, h)))

-- `sys_getcwd` refuses a null buffer or one of no bytes with `EINVAL`, and one that cannot hold the path and a
-- byte behind it with `ERANGE`; each time the buffer is as before. Otherwise it answers the address, and the
-- buffer holds the path, a zero byte, and behind it what it held before.
pub sys_getcwd_lem :
    (cwd : List ℕ) (addr : ℕ) (slice : List ℕ)
    → (((addr ≡ 0) ⊎ (length slice ≡ 0)) × (sys_getcwd cwd addr slice ≡ (slice, err einval)))
      ⊎ (((addr ≢ 0)
            × (1 ≤ length slice)
            × (length slice ≤ length cwd)
            × (sys_getcwd cwd addr slice ≡ (slice, err erange)))
          ⊎ ((addr ≢ 0)
              × (length cwd < length slice)
              × (sys_getcwd cwd addr slice
                  ≡ ((cwd ++ (0 ∷ [])) ++ drop (suc (length cwd)) slice, ok addr))))
unfolding sys_getcwd
sys_getcwd_lem cwd addr slice = elim (Bool-cases (addr == 0)) [
  | inl null ↦ inl (inl (ground arith), rw (sys_getcwd, null) refl)
  | inr there ↦ elim (Bool-cases (length slice == 0)) [
    | inl bare ↦ inl (inr (ground arith), rw (sys_getcwd, there, bare) refl)
    | inr full ↦ elim (Bool-cases (leb (length slice) (length cwd))) [
      | inl short ↦
          inr (
            inl
              (ground arith, ground arith, ground arith, rw (sys_getcwd, there, full, short) refl))
      | inr room ↦
          let below : length cwd < length slice = ground arith in
          inr (
            inr (
              ground arith,
              below,
              rw (sys_getcwd, there, full, room) (ap (λ l. (l, ok addr)) (written cwd slice below)),
            ))
    ]
  ]
]
