-- ===== src/Signal/Pending.antt =====
-- kernel/syscall/src/signal.rs: what `deliver` and `take_next_deliverable` do to the pending set.
use Prim.Native.Nat.{bit_and}
use muffin.Base.{
  ◌^◌, ◌<◌, ◌≡◌, ap, ◌∙◌, true, false, not, ◌&&◌, ◌||◌, Option, none, some, arith, ◌==◌, ltb,
  Bool-cases, inl, inr,
}
use muffin.Bits.{
  test_bit, test_bit-zero, test_bit_high, bit_and-le, trailing_zeros, trailing_zeros-IsLowest,
  IsLowest,
}
use muffin.Abi.Signal.{SigSet, Signal, continue, kill, number, signal_eq, bit}
use muffin.Signal.{
  SignalState, index, inv, deliver, deliverable, take_next_deliverable, has_fatal_deliverable,
}
use muffin.Signal.Sets.{
  has, signal_at, number_bounds, bit-lt, has-bit, has-and, has-inv, signal_eq_refl,
}
use muffin.Signal.Invariant.{IsValid, discards, has-set_pending, set_pending_rest, deliver-IsValid}
use muffin.Signal.Dispositions.{disposition-kill, has_fatal_deliverable_iff}

pub has-pending_without :
    (p : SigSet) (s t : Signal) → has (bit_and p (inv (bit s))) t ≡ (has p t && not (signal_eq s t))
has-pending_without p s t =
    ground
      (arith, has-and p (inv (bit s)) t, has-inv (bit s) t (omega (arith, bit-lt s)), has-bit s t)

-- What `take_next_deliverable` returns.
pub data Takes (st : SignalState) (out : Option Signal × SignalState) : Type 0 where
  nothing : out ≡ (none, st) → ((t : Signal) → has (deliverable st) t ≡ false) → Takes st out
  lowest :
      (s : Signal)
      → out ≡ (some s, record st { pending = bit_and st.pending (inv (bit s)) })
      → has (deliverable st) s ≡ true
      → ((t : Signal) → (has (deliverable st) t && ltb (number t) (number s)) ≡ false)
      → Takes st out

deliverable-lt : {st : SignalState} → IsValid st → deliverable st < 2 ^ 27
deliverable-lt {st} v = omega (arith, v.pending_word, bit_and-le st.pending (inv st.blocked))

lowest_at :
    {st : SignalState}
    → IsValid st
    → (deliverable st == 0) ≡ false
    → IsLowest 64 (deliverable st) (trailing_zeros 64 (deliverable st))
    → Takes st (take_next_deliverable st)
unfolding take_next_deliverable index
lowest_at {st} v more low =
    let i = trailing_zeros 64 (deliverable st) in
    let small : i < 27 =
      ground (arith, test_bit_high 27 (deliverable st) i (deliverable-lt v), low.is_set) in
    let (s, back, at) = signal_at i small in
    lowest s (ground (arith, more, back)) (ap (test_bit (deliverable st)) at ∙ low.is_set)
      (λ t. ground (arith, low.first (index t), number_bounds s, number_bounds t))

-- From a valid state, `take_next_deliverable` takes the lowest-numbered signal of the word
-- `pending & !blocked` and clears that bit alone, or returns `None` with nothing changed when that word
-- has no signal.
pub take_next_deliverable-Takes :
    {st : SignalState} → IsValid st → Takes st (take_next_deliverable st)
unfolding take_next_deliverable
take_next_deliverable-Takes {st} v = elim (Bool-cases (deliverable st == 0)) [
  | inl empty ↦
      let e : deliverable st ≡ 0 = ground arith in
      nothing (rw (empty, take_next_deliverable))
        (λ t. ap (λ m. has m t) e ∙ test_bit-zero (index t))
  | inr more ↦
      let low : IsLowest 64 (deliverable st) (trailing_zeros 64 (deliverable st)) =
        trailing_zeros-IsLowest 64 (deliverable st) (omega (arith, deliverable-lt v))
          (ground arith) in
      lowest_at v more low
]

-- The effect of `deliver` on each signal, from a valid state: the new signal becomes pending, the opposite family of stop
-- and continue signals is dropped, and the rest stays.
has-deliver :
    {st : SignalState} (s t : Signal)
    → IsValid st
    → has (deliver st s).0.pending t ≡ ((signal_eq s t || has st.pending t) && not (discards s t))
unfolding deliver
has-deliver {st} s t v = ground (arith, has-set_pending s t v)

-- The stopped flag is cleared, and tasks are resumed, exactly by `Continue` and `Kill` on a stopped
-- process.
pub deliver_resumes :
    (st : SignalState) (s : Signal)
    → ((deliver st s).1 ≡ (st.stopped && (signal_eq s continue || signal_eq s kill)))
      × ((deliver st s).0.stopped ≡ (st.stopped && not (deliver st s).1))
unfolding deliver
deliver_resumes st s = ground (arith, set_pending_rest st s)

-- From a valid state, after `Kill` is delivered, the process has a fatal deliverable signal and is not stopped.
deliver-kill :
    {st : SignalState}
    → IsValid st
    → (has_fatal_deliverable (deliver st kill).0 ≡ true) × ((deliver st kill).0.stopped ≡ false)
unfolding has_fatal_deliverable
deliver-kill {st} v =
    let v' = deliver-IsValid kill v in
    (
      (has_fatal_deliverable_iff v').1 (
        kill,
        ground (arith, has-deliver kill kill v, signal_eq_refl kill),
        v'.kill_unblocked,
        disposition-kill _,
      ),
      ground (arith, deliver_resumes st kill, signal_eq_refl kill),
    )
