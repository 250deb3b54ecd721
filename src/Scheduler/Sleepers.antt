-- ===== src/Scheduler/Sleepers.antt =====
-- kernel/boot/src/mcore/mtask/wait.rs: the tasks that sleep until a deadline. A waker is a number; the woken
-- ones are listed in order.
use muffin.Base.{
  Bool, true, false, ℕ, zero, suc, ◌+◌, Option, none, some, List, [], ◌∷◌, ◌++◌, length, get_elem?,
  set, leb, if◌then◌else◌,
}

pub record Sleeper : Type 0 where
  pub deadline_ns : ℕ
  pub waker : ℕ

-- `sleep_until`: `Vec::push`.
unfoldable pub sleep_until : ℕ → ℕ → List Sleeper → List Sleeper
sleep_until deadline waker ss = ss ++ (record { deadline_ns = deadline; waker = waker } ∷ [])

-- The last entry of a list that starts with `s`, and the list without it.
unfoldable pub last_of : Sleeper → List Sleeper → Sleeper
last_of s [] = s
last_of s (x ∷ xs) = last_of x xs

unfoldable pub without_last : Sleeper → List Sleeper → List Sleeper
without_last s [] = []
without_last s (x ∷ xs) = s ∷ without_last x xs

abbrev pub pop : List Sleeper → List Sleeper
pop [] = []
pop (s ∷ ss) = without_last s ss

-- `Vec::swap_remove`: the last entry takes the place of entry `i`; a panic out of range.
unfoldable pub swap_remove : List Sleeper → ℕ → Option (Sleeper × List Sleeper)
unfolding last_of without_last
swap_remove [] i = none
swap_remove (s ∷ ss) i = elim (get_elem? (s ∷ ss) i) [
  | none ↦ none
  | some x ↦ some (x, pop (set (s ∷ ss) i (last_of s ss)))
]

-- The loop of `wake_expired_sleepers` from index `i` on: who is woken, in order, and who sleeps on. `none`
-- is a panic, or the end of the fuel.
unfoldable pub wake_from : ℕ → ℕ → ℕ → List Sleeper → Option (List ℕ × List Sleeper)
unfolding swap_remove
wake_from zero now i ss = none
wake_from (suc f) now i ss = elim (get_elem? ss i) [
  | none ↦ some ([], ss)
  | some s ↦
      let later = wake_from f now (i + 1) ss in
      if leb s.deadline_ns now
      then (elim (swap_remove ss i) [
        | none ↦ none
        | some (x, ss') ↦ elim (wake_from f now i ss') [
          | none ↦ none
          | some (woken, left) ↦ some (x.waker ∷ woken, left)
        ]
      ])
      else later
]

-- `wake_expired_sleepers`: whether `SLEEPERS` could be locked, and what the clock shows, if there is one.
unfoldable pub wake_expired_sleepers :
    Bool → Option ℕ → List Sleeper → Option (List ℕ × List Sleeper)
unfolding wake_from
wake_expired_sleepers false clock ss = some ([], ss)
wake_expired_sleepers true none ss = some ([], ss)
wake_expired_sleepers true (some now) ss = wake_from (suc (length ss)) now 0 ss
