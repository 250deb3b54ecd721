-- ===== src/Signal/Tests.antt =====
-- Runs of the signal code, and its theorems at concrete states.
use muffin.Base.{◌^◌, ◌≡◌, refl, true, false, some, List, [], ◌∷◌, err, arith, ◌↔◌, ◌⊎◌, replicate}
use muffin.Abi.Errno.{einval}
use muffin.Abi.Signal.{
  Signal, child, continue, hangup, interrupt, kill, stop, terminal_stop, number, bit, try_from,
  SigAction, default_action, block,
}
use muffin.Signal.{
  SignalState, Disposition, default_terminate, default_stop, handler, initial, set_pending, deliver,
  take_next_deliverable, disposition, sigaction, sigprocmask, exec_reset, set_stopped,
  has_fatal_deliverable, has_interrupting_deliverable, action,
}
use muffin.Signal.Sets.{has}
use muffin.Signal.Invariant.{IsValid, deliver-IsValid}
use muffin.Signal.Actions.{initial-IsValid}
use muffin.Signal.Pending.{Takes, take_next_deliverable-Takes}
use muffin.Signal.Dispositions.{has_interrupting_deliverable_iff}
use muffin.Signal.History.{Call, run, run_unblockable, run-IsValid, delivers, takes, masks, enters}
use muffin.Signal.Delivery.{
  Outcome, terminate, Explains, deliver_pending, deliver_pending_ends, deliver_pending-Explains,
}

abbrev catcher : SigAction
catcher = record { handler = 4096; mask = 0; flags = 0; restorer = 1 }

-- `SIGINT` and `SIGCHLD` pending, the first with a handler.
abbrev caught : SignalState
caught = (deliver (deliver (record initial { actions = replicate 27 catcher }) child).0 interrupt).0

abbrev signalled : SignalState
signalled = (deliver (deliver initial hangup).0 terminal_stop).0

signalled-IsValid : IsValid signalled
signalled-IsValid = deliver-IsValid terminal_stop (deliver-IsValid hangup initial-IsValid)

abbrev halted : SignalState
halted = set_stopped initial true

-- Delivering `SIGCONT` to a stopped process drops `SIGTSTP`.
cont_drops_stop : (set_pending signalled continue).pending ≡ 80
unfolding set_pending deliver initial bit number
cont_drops_stop = refl

kill_cannot_be_caught : sigaction initial kill (some catcher) ≡ err einval
unfolding sigaction initial number
kill_cannot_be_caught = refl

lowest_first : (take_next_deliverable signalled).0 ≡ some hangup
unfolding take_next_deliverable deliver set_pending initial bit number muffin.Bits.trailing_zeros
    try_from
lowest_first = refl

abbrev history : List Call
history = masks block (some (2 ^ 63)) ∷ delivers stop ∷ takes ∷ enters hangup catcher ∷ []

run_unblockable_example :
    let st = run initial history in
    (has st.blocked kill ≡ false)
    × (has st.blocked stop ≡ false)
    × (disposition st kill ≡ default_terminate)
    × (disposition st stop ≡ default_stop)
run_unblockable_example = run_unblockable history (omega arith)

run-IsValid_example : IsValid (run initial history)
run-IsValid_example = run-IsValid {st = initial} history (omega arith) initial-IsValid

take_next_deliverable-Takes_example : Takes signalled (take_next_deliverable signalled)
take_next_deliverable-Takes_example = take_next_deliverable-Takes signalled-IsValid

has_interrupting_deliverable_iff_example : (has_interrupting_deliverable signalled ≡ true) ↔ (
    (s : Signal) × (has signalled.pending s ≡ true)
    × (has signalled.blocked s ≡ false)
    × ((disposition signalled s ≡ default_terminate)
        ⊎ ((a : SigAction) × (disposition signalled s ≡ handler a))))
has_interrupting_deliverable_iff_example = has_interrupting_deliverable_iff signalled-IsValid

deliver_pending_ends_example :
    (out : Outcome × SignalState) × (deliver_pending 28 signalled ≡ some out)
deliver_pending_ends_example = deliver_pending_ends signalled-IsValid

deliver_pending_runs :
    deliver_pending 28 signalled
    ≡ some (terminate hangup, record signalled { pending = bit terminal_stop })
unfolding deliver_pending take_next_deliverable deliver set_pending initial bit number
    muffin.Bits.trailing_zeros try_from disposition default_action muffin.Signal.index action
deliver_pending_runs = refl

deliver_pending-Explains_example : Explains signalled (terminate hangup)
deliver_pending-Explains_example =
    deliver_pending-Explains 28 signalled-IsValid deliver_pending_runs
