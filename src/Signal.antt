-- ===== src/Signal.antt =====
-- kernel/syscall/src/signal.rs, `SignalState`: the signal state of a process.
pub mod Sets
pub mod Invariant
pub mod Actions
pub mod Pending
pub mod History
pub mod Dispositions
pub mod Delivery
mod Tests
use Prim.Native.Nat.{bit_and, bit_or}
use muffin.Base.{
  ℕ, zero, suc, ◌+◌, ◌-◌, ◌^◌, Bool, true, false, not, ◌&&◌, ◌||◌, Option, none, some, List, [],
  ◌∷◌, Result, ok, err, pos, to_option, ◌==◌, if◌then◌else◌, get_or, set, replicate, any, map,
}
use muffin.Bits.{complement, trailing_zeros}
use muffin.Abi.Errno.{Errno, einval}
use muffin.Abi.Signal.{
  SigSet, Signal, continue, kill, stop, number, signal_count, signal_eq, try_from, bit,
  stop_signals_mask, SigMaskHow, block, unblock, set_mask, DefaultAction, terminates, ignores,
  stops, default_action, is_default, is_ignore, sa_siginfo, sa_nodefer, sa_resethand, contains,
  SigAction, default,
}

pub data Disposition : Type 0 where
  ignore default_terminate default_stop : Disposition
  handler : SigAction → Disposition

pub record SignalState : Type 0 where
  pub actions : List SigAction
  pub pending : SigSet
  pub blocked : SigSet
  pub stopped : Bool

-- `SignalState::default()`.
unfoldable pub initial : SignalState
initial = record {
  actions = replicate signal_count default;
  pending = 0;
  blocked = 0;
  stopped = false;
}

-- `KILL_STOP_MASK`.
abbrev pub kill_stop_mask : SigSet
unfolding bit number
kill_stop_mask = bit_or (bit kill) (bit stop)

-- `!mask` on a `u64`.
abbrev pub inv : SigSet → SigSet
inv mask = complement 64 mask

unfoldable pub index : Signal → ℕ
index s = number s - 1

-- The array has an entry for each signal, so the default is never read.
unfoldable pub action : SignalState → Signal → SigAction
action st s = get_or st.actions (index s) default

-- `signals_in`: the rounds of `(0..COUNT).filter_map(..)` from `i` on, `n` of them left.
unfoldable pub signals_from : SigSet → ℕ → ℕ → List Signal
signals_from mask i zero = []
signals_from mask i (suc n) =
    let rest = signals_from mask (i + 1) n in
    elim (if not (bit_and mask (2 ^ i) == 0) then to_option (try_from (pos (i + 1))) else none) [
      | none ↦ rest
      | some s ↦ s ∷ rest
    ]

unfoldable pub signals_in : SigSet → List Signal
signals_in mask = signals_from mask 0 signal_count

unfoldable pub set_pending : SignalState → Signal → SignalState
set_pending st s =
    let p = bit_or st.pending (bit s) in
    if not (bit_and stop_signals_mask (bit s) == 0)
    then record st { pending = bit_and p (inv (bit continue)) }
    else if signal_eq s continue
    then record st { pending = bit_and p (inv stop_signals_mask) }
    else record st { pending = p }

-- The new state, and `DeliverEffect::resume_tasks`.
unfoldable pub deliver : SignalState → Signal → SignalState × Bool
deliver st s =
    let st' = set_pending st s in
    if (signal_eq s continue || signal_eq s kill) && st'.stopped
    then (record st' { stopped = false }, true)
    else (st', false)

abbrev pub deliverable : SignalState → SigSet
deliverable st = bit_and st.pending (inv st.blocked)

unfoldable pub take_next_deliverable : SignalState → Option Signal × SignalState
take_next_deliverable st =
    if deliverable st == 0
    then (none, st)
    else elim (try_from (pos (trailing_zeros 64 (deliverable st) + 1))) [
      | err _ ↦ (none, st)
      | ok s ↦ (some s, record st { pending = bit_and st.pending (inv (bit s)) })
    ]

unfoldable pub default_disposition : DefaultAction → Disposition
default_disposition ignores = ignore
default_disposition terminates = default_terminate
default_disposition stops = default_stop

unfoldable pub disposition : SignalState → Signal → Disposition
unfolding default_disposition
disposition st s =
    if signal_eq s kill
    then default_terminate
    else if is_ignore (action st s).handler
    then ignore
    else if is_default (action st s).handler
    then default_disposition (default_action s)
    else handler (action st s)

abbrev pub is_terminate : Disposition → Bool
is_terminate default_terminate = true
is_terminate _ = false

abbrev pub is_interrupting : Disposition → Bool
is_interrupting default_terminate = true
is_interrupting (handler a) = true
is_interrupting _ = false

unfoldable pub has_fatal_deliverable : SignalState → Bool
has_fatal_deliverable st = any (λ s. is_terminate (disposition st s)) (signals_in (deliverable st))

unfoldable pub has_interrupting_deliverable : SignalState → Bool
has_interrupting_deliverable st =
    any (λ s. is_interrupting (disposition st s)) (signals_in (deliverable st))

-- The checks of `sigaction` on a new action, and its store.
unfoldable pub install : SignalState → Signal → SigAction → Result SignalState Errno
install st s new =
    if signal_eq s kill || signal_eq s stop
    then err einval
    else if (not (is_default new.handler) && not (is_ignore new.handler)) && (new.restorer == 0)
    then err einval
    else if contains new.flags sa_siginfo
    then err einval
    else ok (record st { actions = set st.actions (index s) new })

-- The old action beside the new state; an error leaves the state as it was.
unfoldable pub sigaction :
    SignalState → Signal → Option SigAction → Result (SigAction × SignalState) Errno
unfolding install
sigaction st s none = ok (action st s, st)
sigaction st s (some new) = elim (install st s new) [
  | err e ↦ err e
  | ok st' ↦ ok (action st s, st')
]

abbrev pub reset_action : SigAction → SigAction
reset_action a = if is_ignore a.handler then a else default

unfoldable pub exec_reset : SignalState → SignalState
exec_reset st = record st { actions = map reset_action st.actions }

unfoldable pub change_mask : SigMaskHow → SigSet → SigSet → SigSet
change_mask block blocked new = bit_or blocked new
change_mask unblock blocked new = bit_and blocked (inv new)
change_mask set_mask blocked new = new

-- The old mask, and the new state.
unfoldable pub sigprocmask : SignalState → SigMaskHow → Option SigSet → SigSet × SignalState
unfolding change_mask
sigprocmask st how none = (st.blocked, st)
sigprocmask st how (some new) = (
  st.blocked,
  record st { blocked = bit_and (change_mask how st.blocked new) (inv kill_stop_mask) },
)

unfoldable pub sigpending : SignalState → SigSet
sigpending st = st.pending

unfoldable pub set_blocked_raw : SignalState → SigSet → SignalState
set_blocked_raw st new = record st { blocked = bit_and new (inv kill_stop_mask) }

-- The mask that `apply_handler_entry` leaves.
abbrev pub entry_mask : SigSet → Signal → SigAction → SigSet
entry_mask blocked s a =
    let masked = bit_or blocked a.mask in
    bit_and (if not (contains a.flags sa_nodefer) then bit_or masked (bit s) else masked)
      (inv kill_stop_mask)

-- The old mask, and the new state.
unfoldable pub apply_handler_entry : SignalState → Signal → SigAction → SigSet × SignalState
apply_handler_entry st s a = (
  st.blocked,
  record st {
    actions =
        if contains a.flags sa_resethand then set st.actions (index s) default else st.actions;
    blocked = entry_mask st.blocked s a;
  },
)

unfoldable pub set_stopped : SignalState → Bool → SignalState
set_stopped st b = record st { stopped = b }
