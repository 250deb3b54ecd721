-- ===== src/FileCalls/Tests.antt =====
-- Runs of the system calls on a file of five bytes and on the working directory `/tmp`.
use muffin.Base.{
  ℕ, suc, ◌^◌, ◌≡◌, ◌≢◌, ◌≤◌, ◌<◌, ◌⊎◌, refl, none, List, [], ◌∷◌, ◌++◌, length, drop, ok, err,
  negsuc, arith,
}
use muffin.Abi.Errno.{Errno, einval, erange}
use muffin.FileCalls.Calls.{seek_end, seek_cur, FileAccess, sys_lseek, sys_getcwd}
use muffin.FileCalls.Seeking.{IsSum, DoesNotFit, sys_lseek-IsSum}
use muffin.FileCalls.WorkingDirectory.{sys_getcwd_lem}

-- Its state is the position.
abbrev five : FileAccess ℕ
five = record {
  read_fd = λ fildes buf x. (x, (buf, none));
  write_fd = λ fildes buf x. (x, none);
  fsync_fd = λ fildes x. (x, ok tt);
  fstat = λ fildes x. (x, ok 5);
  position = λ fildes x. (x, ok x);
  set_position = λ fildes p x. (p, ok tt);
}

seek_runs :
    (sys_lseek five 3 (negsuc 1) seek_end 0 ≡ (3, ok 3))
    × (sys_lseek five 3 (negsuc 1) seek_cur 1 ≡ (1, err einval))
unfolding sys_lseek
seek_runs = (refl, refl)

sys_lseek-IsSum_example :
    ((p : ℕ) × IsSum 5 (negsuc 1) p
      × (p < 2 ^ 64)
      × (sys_lseek five 3 (negsuc 1) seek_end 0 ≡ (p, ok p)))
    ⊎ ((e : Errno) × DoesNotFit 5 (negsuc 1) e
        × (sys_lseek five 3 (negsuc 1) seek_end 0 ≡ (0, err e)))
sys_lseek-IsSum_example = sys_lseek-IsSum five 3 5 (negsuc 1) seek_end 0 0 (omega arith) refl

abbrev tmp : List ℕ
tmp = 47 ∷ 116 ∷ 109 ∷ 112 ∷ []

abbrev buffer : List ℕ
buffer = 9 ∷ 9 ∷ 9 ∷ 9 ∷ 9 ∷ 9 ∷ []

getcwd_runs : sys_getcwd tmp 4096 buffer ≡ (47 ∷ 116 ∷ 109 ∷ 112 ∷ 0 ∷ 9 ∷ [], ok 4096)
unfolding sys_getcwd
getcwd_runs = refl

abbrev address : ℕ
address = 4096

sys_getcwd_lem_example :
    (((address ≡ 0) ⊎ (length buffer ≡ 0)) × (sys_getcwd tmp address buffer ≡ (buffer, err einval)))
    ⊎ (((address ≢ 0)
          × (1 ≤ length buffer)
          × (length buffer ≤ length tmp)
          × (sys_getcwd tmp address buffer ≡ (buffer, err erange)))
        ⊎ ((address ≢ 0)
            × (length tmp < length buffer)
            × (sys_getcwd tmp address buffer
                ≡ ((tmp ++ (0 ∷ [])) ++ drop (suc (length tmp)) buffer, ok address))))
sys_getcwd_lem_example = sys_getcwd_lem tmp address buffer
