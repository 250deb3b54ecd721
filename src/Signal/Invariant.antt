-- ===== src/Signal/Invariant.antt =====
-- kernel/syscall/src/signal.rs: the invariant of `SignalState`, kept by the methods on the pending and the blocked set.
use Prim.Native.Nat.{bit_and, bit_or}
use muffin.Base.{
  ℕ, ◌+◌, ◌^◌, ◌<◌, ◌≡◌, Bool, true, false, not, ◌&&◌, ◌||◌, Option, none, some, Result, ok, err,
  pos, arith, ◌==◌, Bool-cases, inl, inr, length,
}
use muffin.Bits.{bit_or-lt, bit_and-le, trailing_zeros}
use muffin.Abi.Signal.{
  SigSet, Signal, continue, kill, stop, signal_eq, try_from, bit, stop_signals_mask, SigMaskHow,
  block, unblock, set_mask, default,
}
use muffin.Signal.{
  SignalState, action, inv, kill_stop_mask, set_pending, deliver, deliverable,
  take_next_deliverable, change_mask, sigprocmask, set_blocked_raw, set_stopped,
}
use muffin.Signal.Sets.{
  has, is_stop, signal_eq→eq, signal_eq_refl, bit-lt, has-bit, has-or, has-and, has-inv,
  has-stop_signals_mask, has-kill_stop_mask, stop_test, stop_signals_mask-lt, kill_stop_mask-lt,
}

-- What holds of the state of every process.
pub record IsValid (st : SignalState) : Type 0 where
  pub actions_len : length st.actions ≡ 27
  pub pending_word : st.pending < 2 ^ 27
  pub blocked_word : st.blocked < 2 ^ 64
  pub kill_unblocked : has st.blocked kill ≡ false
  pub stop_unblocked : has st.blocked stop ≡ false
  pub exclusive :
      (t : Signal) → ((is_stop t && has st.pending continue) && has st.pending t) ≡ false
  pub kill_default : action st kill ≡ default
  pub stop_default : action st stop ≡ default

inv-lt : (m : SigSet) → inv m < 2 ^ 64
inv-lt m = omega arith

word : {st : SignalState} → IsValid st → st.pending < 2 ^ 64
word v = omega (arith, v.pending_word)

-- Which signals `s` drops when it becomes pending.
abbrev pub discards : Signal → Signal → Bool
discards s t = (is_stop s && signal_eq continue t) || (signal_eq s continue && is_stop t)

not-is_stop-continue : (s : Signal) → signal_eq s continue ≡ true → is_stop s ≡ false
not-is_stop-continue s h = let e : s ≡ continue = signal_eq→eq s continue h in rw e

-- A pending bit is set, and the opposite family of stop and continue is dropped.
pub has-set_pending :
    {st : SignalState} (s t : Signal)
    → IsValid st
    → has (set_pending st s).pending t ≡ ((signal_eq s t || has st.pending t) && not (discards s t))
unfolding set_pending
has-set_pending {st} s t v = ground (
  arith,
  stop_test s,
  not-is_stop-continue s,
  has-and (bit_or st.pending (bit s)) (inv (bit continue)) t,
  has-and (bit_or st.pending (bit s)) (inv stop_signals_mask) t,
  has-or st.pending (bit s) t,
  has-bit s t,
  has-bit continue t,
  has-inv (bit continue) t (omega (arith, bit-lt continue)),
  has-inv stop_signals_mask t stop_signals_mask-lt,
  has-stop_signals_mask t,
)

set_pending-lt : {st : SignalState} (s : Signal) → IsValid st → (set_pending st s).pending < 2 ^ 27
unfolding set_pending
set_pending-lt {st} s v = ground (
  arith,
  bit_or-lt 27 st.pending (bit s) v.pending_word (bit-lt s),
  bit_and-le (bit_or st.pending (bit s)) (inv (bit continue)),
  bit_and-le (bit_or st.pending (bit s)) (inv stop_signals_mask),
)

-- `set_pending` touches the pending set only.
pub set_pending_rest :
    (st : SignalState) (s : Signal)
    → ((set_pending st s).actions ≡ st.actions)
      × ((set_pending st s).blocked ≡ st.blocked)
      × ((set_pending st s).stopped ≡ st.stopped)
unfolding set_pending
set_pending_rest st s = ground arith

set_pending_exclusive :
    {st : SignalState} (s : Signal)
    → IsValid st
    → (t : Signal)
    → ((is_stop t && has (set_pending st s).pending continue) && has (set_pending st s).pending t)
      ≡ false
set_pending_exclusive {st} s v t = ground (
  arith,
  v.exclusive t,
  has-set_pending s t v,
  has-set_pending s continue v,
  signal_eq→eq s t,
  signal_eq→eq s continue,
)

pub set_pending-IsValid : {st : SignalState} (s : Signal) → IsValid st → IsValid (set_pending st s)
unfolding action
set_pending-IsValid {st} s v =
    let rest = set_pending_rest st s in
    record {
      actions_len = rw (rest.0) v.actions_len;
      pending_word = set_pending-lt s v;
      blocked_word = rw (rest.1) v.blocked_word;
      kill_unblocked = rw (rest.1) v.kill_unblocked;
      stop_unblocked = rw (rest.1) v.stop_unblocked;
      exclusive = set_pending_exclusive s v;
      kill_default = rw (rest.0) v.kill_default;
      stop_default = rw (rest.0) v.stop_default;
    }

pub set_stopped-IsValid : {st : SignalState} (b : Bool) → IsValid st → IsValid (set_stopped st b)
unfolding set_stopped action
set_stopped-IsValid b v = record {
  actions_len = v.actions_len;
  pending_word = v.pending_word;
  blocked_word = v.blocked_word;
  kill_unblocked = v.kill_unblocked;
  stop_unblocked = v.stop_unblocked;
  exclusive = v.exclusive;
  kill_default = v.kill_default;
  stop_default = v.stop_default;
}

pub deliver-IsValid : {st : SignalState} (s : Signal) → IsValid st → IsValid (deliver st s).0
unfolding deliver
deliver-IsValid {st} s v =
    elim (Bool-cases ((signal_eq s continue || signal_eq s kill) && (set_pending st s).stopped)) [
      | inl resume ↦
          rw (resume, deliver)
            (unfold set_stopped in set_stopped-IsValid false (set_pending-IsValid s v))
      | inr plain ↦ rw (plain, deliver) (set_pending-IsValid s v)
    ]

-- Dropping pending signals keeps the invariant.
pub with_pending :
    {st : SignalState} (m : SigSet)
    → IsValid st
    → IsValid (record st { pending = bit_and st.pending m })
unfolding action
with_pending {st} m v = record {
  actions_len = v.actions_len;
  pending_word = omega (arith, bit_and-le st.pending m, v.pending_word);
  blocked_word = v.blocked_word;
  kill_unblocked = v.kill_unblocked;
  stop_unblocked = v.stop_unblocked;
  exclusive =
      λ t. ground (arith, v.exclusive t, has-and st.pending m t, has-and st.pending m continue);
  kill_default = v.kill_default;
  stop_default = v.stop_default;
}

pub take_next_deliverable-IsValid :
    {st : SignalState} → IsValid st → IsValid (take_next_deliverable st).1
unfolding take_next_deliverable
take_next_deliverable-IsValid {st} v = elim (Bool-cases (deliverable st == 0)) [
  | inl nothing ↦ rw (nothing, take_next_deliverable) v
  | inr some_bit ↦
      rw (some_bit, take_next_deliverable)
        (taken (try_from (pos (trailing_zeros 64 (deliverable st) + 1))))
]
  where
    taken :
        (r : Result Signal ℕ)
        → IsValid (
            let out : Option Signal × SignalState = elim r [
              | err _ ↦ (none, st)
              | ok s ↦ (some s, record st { pending = bit_and st.pending (inv (bit s)) })
            ] in
            out.1)
    taken (ok s) = with_pending (inv (bit s)) v
    taken (err e) = v

-- No mask that went through `& !KILL_STOP_MASK` blocks `Kill` or `Stop`.
has-masked :
    (m : SigSet) (t : Signal)
    → has (bit_and m (inv kill_stop_mask)) t
      ≡ (has m t && not (signal_eq t kill || signal_eq t stop))
has-masked m t = ground (
  arith,
  has-and m (inv kill_stop_mask) t,
  has-inv kill_stop_mask t kill_stop_mask-lt,
  has-kill_stop_mask t,
)

pub with_blocked :
    {st : SignalState} (m : SigSet)
    → m < 2 ^ 64
    → IsValid st
    → IsValid (record st { blocked = bit_and m (inv kill_stop_mask) })
unfolding action
with_blocked {st} m h v = record {
  actions_len = v.actions_len;
  pending_word = v.pending_word;
  blocked_word = omega (arith, bit_and-le m (inv kill_stop_mask));
  kill_unblocked = ground (arith, has-masked m kill, signal_eq_refl kill);
  stop_unblocked = ground (arith, has-masked m stop, signal_eq_refl stop);
  exclusive = v.exclusive;
  kill_default = v.kill_default;
  stop_default = v.stop_default;
}

change_mask-lt :
    (how : SigMaskHow) (old new : SigSet)
    → old < 2 ^ 64
    → new < 2 ^ 64
    → change_mask how old new < 2 ^ 64
unfolding change_mask
change_mask-lt block old new h k = bit_or-lt 64 old new h k
change_mask-lt unblock old new h k = omega (arith, bit_and-le old (inv new))
change_mask-lt set_mask old new h k = k

-- The operand of `sigprocmask`, if any, is a `u64`.
abbrev pub IsWord : Option SigSet → Type 0
IsWord none = Unit {0}
IsWord (some m) = m < 2 ^ 64

pub sigprocmask-IsValid :
    {st : SignalState} (how : SigMaskHow) (new : Option SigSet)
    → IsWord new
    → IsValid st
    → IsValid (sigprocmask st how new).1
unfolding sigprocmask
sigprocmask-IsValid how none h v = v
sigprocmask-IsValid {st} how (some m) h v =
    with_blocked (change_mask how st.blocked m) (change_mask-lt how st.blocked m v.blocked_word h) v

pub set_blocked_raw-IsValid :
    {st : SignalState} (m : SigSet) → m < 2 ^ 64 → IsValid st → IsValid (set_blocked_raw st m)
unfolding set_blocked_raw
set_blocked_raw-IsValid m h v = with_blocked m h v
