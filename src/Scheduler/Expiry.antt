-- ===== src/Scheduler/Expiry.antt =====
-- kernel/boot/src/mcore/mtask/wait.rs: `wake_expired_sleepers` wakes those whose deadline has passed.
use muffin.Base.{
  ℕ, zero, suc, ◌+◌, ◌≤◌, ◌<◌, ◌≡◌, refl, ap, sym, ◌∙◌, Bool, true, false, Option, none, some, List,
  [], ◌∷◌, length, get_elem?, set, leb, ◌==◌, if◌then◌else◌, arith, Bool-cases, Option-cases, inl,
  inr, length-set, get_elem?-set_ne,
}
use muffin.Scheduler.Sleepers.{
  Sleeper, last_of, without_last, pop, swap_remove, wake_from, wake_expired_sleepers,
}

-- How often waker `w` stands in a list, and among the sleepers that have, or have not, a deadline passed.
unfoldable pub count_waker : ℕ → List ℕ → ℕ
count_waker w [] = 0
count_waker w (x ∷ xs) = (if x == w then 1 else 0) + count_waker w xs

abbrev pub counts : ℕ → ℕ → Bool → Sleeper → ℕ
counts now w passed s =
    if s.waker == w
    then (if passed
        then (if leb s.deadline_ns now then 1 else 0)
        else (if leb s.deadline_ns now then 0 else 1))
    else 0

unfoldable pub count_sleepers : ℕ → ℕ → Bool → List Sleeper → ℕ
count_sleepers now w b [] = 0
count_sleepers now w b (s ∷ ss) = counts now w b s + count_sleepers now w b ss

-- The last entry of a list is still its last when it is also written to another place.
last_of_self : (s : Sleeper) (ss : List Sleeper) → last_of (last_of s ss) ss ≡ last_of s ss
unfolding last_of
last_of_self s [] = refl
last_of_self s (x ∷ xs) = refl

last_of-set :
    (s : Sleeper) (ss : List Sleeper) (i : ℕ) → last_of s (set ss i (last_of s ss)) ≡ last_of s ss
unfolding last_of
last_of-set s [] i = refl
last_of-set s (x ∷ xs) zero = last_of_self x xs
last_of-set s (x ∷ xs) (suc i) = last_of-set x xs i

length-without_last : (s : Sleeper) (ss : List Sleeper) → length (without_last s ss) ≡ length ss
unfolding without_last
length-without_last s [] = refl
length-without_last s (x ∷ xs) = ap suc (length-without_last x xs)

get-without_last :
    (s : Sleeper) (ss : List Sleeper) (j : ℕ) (y : Sleeper)
    → get_elem? (without_last s ss) j ≡ some y
    → get_elem? (s ∷ ss) j ≡ some y
unfolding without_last
get-without_last s [] j y e = ground arith
get-without_last s (x ∷ xs) zero y e = e
get-without_last s (x ∷ xs) (suc j) y e = get-without_last x xs j y e

module _ (now w : ℕ) (b : Bool) where
  count-set :
      (i : ℕ) (ss : List Sleeper) (x v : Sleeper)
      → get_elem? ss i ≡ some x
      → count_sleepers now w b (set ss i v) + counts now w b x
        ≡ count_sleepers now w b ss + counts now w b v
  unfolding count_sleepers
  count-set i [] x v e = ground arith
  count-set zero (s ∷ ss) x v e = let same : s ≡ x = ground arith in rw same (omega arith)
  count-set (suc i) (s ∷ ss) x v e = omega (arith, count-set i ss x v e)

  count-without_last :
      (s : Sleeper) (ss : List Sleeper)
      → count_sleepers now w b (without_last s ss) + counts now w b (last_of s ss)
        ≡ counts now w b s + count_sleepers now w b ss
  unfolding count_sleepers without_last last_of
  count-without_last s [] = omega arith
  count-without_last s (x ∷ xs) = omega (arith, count-without_last x xs)

  count-removed :
      (s : Sleeper) (ss : List Sleeper) (i : ℕ) (x : Sleeper)
      → get_elem? (s ∷ ss) i ≡ some x
      → count_sleepers now w b (pop (set (s ∷ ss) i (last_of s ss))) + counts now w b x
        ≡ count_sleepers now w b (s ∷ ss)
  unfolding count_sleepers
  count-removed s ss zero x e =
      let v = last_of s ss in
      let last = ap (counts now w b) (last_of_self s ss) in
      let same : s ≡ x = ground arith in
      omega (arith, count-without_last v ss, last, ap (counts now w b) same)
  count-removed s ss (suc i) x e =
      let v = last_of s ss in
      let last = ap (counts now w b) (last_of-set s ss i) in
      omega (arith, count-without_last s (set ss i v), last, count-set i ss x v e)

length-removed :
    (s : Sleeper) (ss : List Sleeper) (i : ℕ) (v : Sleeper)
    → length (pop (set (s ∷ ss) i v)) ≡ length ss
length-removed s ss zero v = length-without_last v ss
length-removed s ss (suc i) v = length-without_last s (set ss i v) ∙ length-set ss i v

get-pop :
    (xs : List Sleeper) (j : ℕ) (y : Sleeper)
    → get_elem? (pop xs) j ≡ some y
    → get_elem? xs j ≡ some y
get-pop [] j y e = e
get-pop (x ∷ xs) j y e = get-without_last x xs j y e

-- The first `i` sleepers sleep on.
unfoldable SleepOn : ℕ → ℕ → List Sleeper → Type 0
SleepOn now i ss =
    (j : ℕ) (s : Sleeper) → j < i → get_elem? ss j ≡ some s → leb s.deadline_ns now ≡ false

SleepOn-removed :
    (now i : ℕ) (xs : List Sleeper) (v : Sleeper)
    → SleepOn now i xs
    → SleepOn now i (pop (set xs i v))
unfolding SleepOn
SleepOn-removed now i xs v h j s lt e =
    h j s lt
      (sym (get_elem?-set_ne xs i j v (λ q. absurd (omega arith))) ∙ get-pop (set xs i v) j s e)

SleepOn-suc :
    (now i : ℕ) (xs : List Sleeper) (s : Sleeper)
    → get_elem? xs i ≡ some s
    → leb s.deadline_ns now ≡ false
    → SleepOn now i xs
    → SleepOn now (i + 1) xs
unfolding SleepOn
SleepOn-suc now i xs s here late h j y lt e = elim (Bool-cases (j == i)) [
  | inl at ↦ let q : j ≡ i = ground arith in ground (arith, rw q at e)
  | inr before ↦ h j y (ground arith) e
]

none_passed :
    (now w : ℕ) (ss : List Sleeper) → SleepOn now (length ss) ss → count_sleepers now w true ss ≡ 0
unfolding count_sleepers SleepOn
none_passed now w [] h = refl
none_passed now w (s ∷ ss) h =
    let first : leb s.deadline_ns now ≡ false = h 0 s (omega arith) refl in
    ground (arith, first, none_passed now w ss (λ j y lt e. h (suc j) y (omega arith) e))

-- Each sleeper whose deadline has passed was woken, as often as it slept, and all others sleep on.
unfoldable pub Wakes : ℕ → List Sleeper → Option (List ℕ × List Sleeper) → Type 0
Wakes now ss none = ⊥
Wakes now ss (some (woken, left)) =
    (w : ℕ)
    → (count_waker w woken ≡ count_sleepers now w true ss)
      × (count_sleepers now w true left ≡ 0)
      × (count_sleepers now w false left ≡ count_sleepers now w false ss)

woken-Wakes :
    (now : ℕ) (s : Sleeper) (ss : List Sleeper) (i : ℕ) (x : Sleeper)
    (out : Option (List ℕ × List Sleeper))
    → get_elem? (s ∷ ss) i ≡ some x
    → leb x.deadline_ns now ≡ true
    → Wakes now (pop (set (s ∷ ss) i (last_of s ss))) out
    → Wakes now
        (s ∷ ss)
        (elim out [ none ↦ none | some (woken, left) ↦ some (x.waker ∷ woken, left) ])
unfolding Wakes count_waker
woken-Wakes now s ss i x none e late h = h
woken-Wakes now s ss i x (some (woken, left)) e late h = λ w.
    ground
      (arith, late, h w, count-removed now w true s ss i x e, count-removed now w false s ss i x e)

get-below : (ss : List Sleeper) (i : ℕ) (x : Sleeper) → get_elem? ss i ≡ some x → i < length ss
get-below [] i x e = ground arith
get-below (s ∷ ss) zero x e = omega arith
get-below (s ∷ ss) (suc i) x e = omega (arith, get-below ss i x e)

get-length : (ss : List Sleeper) (i : ℕ) → get_elem? ss i ≡ none → length ss ≤ i
get-length [] i e = omega arith
get-length (s ∷ ss) zero e = ground arith
get-length (s ∷ ss) (suc i) e = omega (arith, get-length ss i e)

ended-Wakes :
    (now i : ℕ) (ss : List Sleeper)
    → i ≤ length ss
    → get_elem? ss i ≡ none
    → SleepOn now i ss
    → Wakes now ss (some ([], ss))
unfolding Wakes count_waker
ended-Wakes now i ss le e h =
    let at : i ≡ length ss = omega (arith, get-length ss i e) in
    λ w. let none_left = none_passed now w ss (rw at at h) in (sym none_left, none_left, refl)

wake_from-Wakes :
    (f now i : ℕ) (ss : List Sleeper)
    → i ≤ length ss
    → length ss < f + i
    → SleepOn now i ss
    → Wakes now ss (wake_from f now i ss)
unfolding wake_from Wakes
wake_from-Wakes zero now i ss le fuel h = absurd (omega arith)
wake_from-Wakes (suc f) now i [] le fuel h = ended-Wakes now i [] le refl h
wake_from-Wakes (suc f) now i (s ∷ ss) le fuel h = elim (Option-cases (get_elem? (s ∷ ss) i)) [
  | inl end ↦ rw (wake_from, end) (ended-Wakes now i (s ∷ ss) le end h)
  | inr (x, here) ↦ elim (Bool-cases (leb x.deadline_ns now)) [
    | inl late ↦
        let rest = pop (set (s ∷ ss) i (last_of s ss)) in
        let size = length-removed s ss i (last_of s ss) in
        rw (wake_from, here, late, swap_remove, here)
          (woken-Wakes now s ss i x (wake_from f now i rest) here late (
            wake_from-Wakes f now i rest (omega (arith, size, get-below (s ∷ ss) i x here))
              (omega (arith, size)) (SleepOn-removed now i (s ∷ ss) (last_of s ss) h)))
    | inr early ↦
        rw (wake_from, here, early)
          (wake_from-Wakes f now (i + 1) (s ∷ ss) (omega (arith, get-below (s ∷ ss) i x here))
            (omega arith) (SleepOn-suc now i (s ∷ ss) x here early h))
  ]
]

-- `Wakes`, at the time of a clock; nothing happens without a lock or without a clock.
unfoldable pub WakesIf : Bool → Option ℕ → List Sleeper → Option (List ℕ × List Sleeper) → Type 0
unfolding Wakes
WakesIf true (some now) ss r = Wakes now ss r
WakesIf _ _ ss r = r ≡ some ([], ss)

-- `wake_expired_sleepers` panics nowhere and ends. Where it has the lock and a clock, it wakes each sleeper
-- whose deadline has passed, exactly as often as it sleeps, and leaves all others asleep and nobody else.
-- Without the lock or a clock it does nothing.
pub wake_expired_sleepers-Wakes :
    (locked : Bool) (clock : Option ℕ) (ss : List Sleeper)
    → WakesIf locked clock ss (wake_expired_sleepers locked clock ss)
unfolding wake_expired_sleepers WakesIf
wake_expired_sleepers-Wakes false clock ss = refl
wake_expired_sleepers-Wakes true none ss = refl
wake_expired_sleepers-Wakes true (some now) ss =
    wake_from-Wakes (suc (length ss)) now 0 ss (omega arith) (omega arith)
      (unfold SleepOn in λ j s lt e. absurd (omega arith))
