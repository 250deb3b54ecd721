-- ===== src/Signal/History.antt =====
-- kernel/syscall/src/signal.rs: what holds of a `SignalState` after any sequence of calls.
use muffin.Base.{◌^◌, ◌<◌, ◌≡◌, refl, Bool, false, Option, List, [], ◌∷◌, Result, ok, err}
use muffin.Abi.Errno.{Errno}
use muffin.Abi.Signal.{SigSet, Signal, kill, stop, SigMaskHow, SigAction}
use muffin.Signal.{
  SignalState, default_terminate, default_stop, initial, deliver, take_next_deliverable, sigaction,
  exec_reset, sigprocmask, set_blocked_raw, apply_handler_entry, set_stopped, disposition,
}
use muffin.Signal.Sets.{has}
use muffin.Signal.Invariant.{
  IsValid, IsWord, deliver-IsValid, take_next_deliverable-IsValid, sigprocmask-IsValid,
  set_blocked_raw-IsValid, set_stopped-IsValid,
}
use muffin.Signal.Dispositions.{disposition-kill, disposition-stop}
use muffin.Signal.Actions.{
  sigaction-IsValid, exec_reset-IsValid, apply_handler_entry-IsValid, initial-IsValid,
}

-- A call of a method that changes the state.
pub data Call : Type 0 where
  delivers : Signal → Call
  takes : Call
  acts : Signal → Option SigAction → Call
  execs : Call
  masks : SigMaskHow → Option SigSet → Call
  restores : SigSet → Call
  enters : Signal → SigAction → Call
  stopping : Bool → Call

-- Masks that come from userspace are `u64`.
abbrev pub IsCall : Call → Type 0
IsCall (masks how m) = IsWord m
IsCall (restores m) = m < 2 ^ 64
IsCall (enters s a) = a.mask < 2 ^ 64
IsCall _ = Unit {0}

-- A call that fails leaves the state as it was.
abbrev pub after : SignalState → Result (SigAction × SignalState) Errno → SignalState
after st (ok (old, st')) = st'
after st (err e) = st

unfoldable pub step : SignalState → Call → SignalState
step st (delivers s) = (deliver st s).0
step st takes = (take_next_deliverable st).1
step st (acts s a) = after st (sigaction st s a)
step st execs = exec_reset st
step st (masks how m) = (sigprocmask st how m).1
step st (restores m) = set_blocked_raw st m
step st (enters s a) = (apply_handler_entry st s a).1
step st (stopping b) = set_stopped st b

unfoldable pub run : SignalState → List Call → SignalState
run st [] = st
run st (c ∷ cs) = run (step st c) cs

abbrev pub AreCalls : List Call → Type 0
AreCalls [] = Unit {0}
AreCalls (c ∷ cs) = IsCall c × AreCalls cs

after-IsValid :
    {st : SignalState} (s : Signal) (a : Option SigAction)
    (r : Result (SigAction × SignalState) Errno)
    → sigaction st s a ≡ r
    → IsValid st
    → IsValid (after st r)
after-IsValid s a (ok (old, st')) e v = sigaction-IsValid s a v e
after-IsValid s a (err x) e v = v

pub step-IsValid : {st : SignalState} (c : Call) → IsCall c → IsValid st → IsValid (step st c)
unfolding step
step-IsValid (delivers s) h v = deliver-IsValid s v
step-IsValid takes h v = take_next_deliverable-IsValid v
step-IsValid (acts s a) h v = after-IsValid s a _ refl v
step-IsValid execs h v = exec_reset-IsValid v
step-IsValid (masks how m) h v = sigprocmask-IsValid how m h v
step-IsValid (restores m) h v = set_blocked_raw-IsValid m h v
step-IsValid (enters s a) h v = apply_handler_entry-IsValid s a h v
step-IsValid (stopping b) h v = set_stopped-IsValid b v

-- The calls of a process keep its signal state valid: masks stay within their words and without the two
-- unblockable signals, and the dispositions keep one action for each signal.
pub run-IsValid :
    {st : SignalState} (cs : List Call) → AreCalls cs → IsValid st → IsValid (run st cs)
unfolding run
run-IsValid [] h v = v
run-IsValid {st} (c ∷ cs) h v = run-IsValid {st = step st c} cs h.1 (step-IsValid c h.0 v)

-- Whatever a process does, `Kill` and `Stop` are never blocked, `Kill` terminates, and `Stop` stops.
pub run_unblockable :
    (cs : List Call)
    → AreCalls cs
    → let st = run initial cs in
      (has st.blocked kill ≡ false)
      × (has st.blocked stop ≡ false)
      × (disposition st kill ≡ default_terminate)
      × (disposition st stop ≡ default_stop)
run_unblockable cs h =
    let v = run-IsValid {st = initial} cs h initial-IsValid in
    (v.kill_unblocked, v.stop_unblocked, disposition-kill _, disposition-stop v)
