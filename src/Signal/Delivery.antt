-- ===== src/Signal/Delivery.antt =====
-- kernel/boot/src/arch/signal.rs, `deliver_pending`: the loop that acts on pending signals at a timer
-- tick, on the locked signal state. What it then does to the task (parking, termination, writing the
-- signal frame) is the outcome it returns.
use Prim.Native.Nat.{bit_and}
use muffin.Base.{
  ℕ, zero, suc, ◌+◌, ◌≤◌, ◌≡◌, ◌≢◌, refl, sym, ◌∙◌, Bool, true, false, not, ◌&&◌, Option, none,
  some, arith, ltb, if◌then◌else◌, Bool-cases, Option-cases, inl, inr, ◌⊎◌,
}
use muffin.Abi.Signal.{SigSet, Signal, number, signal_eq, bit, SigAction}
use muffin.Signal.{
  action, SignalState, Disposition, ignore, default_terminate, default_stop, handler, index, inv,
  deliverable, take_next_deliverable, disposition, apply_handler_entry, set_stopped,
}
use muffin.Signal.Sets.{has, index-lt, number_bounds, signal_eq→eq}
use muffin.Signal.Invariant.{IsValid, with_pending}
use muffin.Signal.Pending.{nothing, lowest, take_next_deliverable-Takes, has-pending_without}
use muffin.Signal.Dispositions.{has-deliverable}

-- `park`: the task parks as stopped. `idle`: nothing more to deliver. `terminate`: by this signal.
-- `enter`: the handler of this signal, with the mask to restore.
pub data Outcome : Type 0 where
  park idle : Outcome
  terminate : Signal → Outcome
  enter : Signal → SigAction → SigSet → Outcome

-- The arm of a disposition. `Ignore` goes round the loop.
unfoldable pub act : SignalState → Signal → Disposition → Option (Outcome × SignalState)
act st s ignore = none
act st s default_stop = some (park, set_stopped st true)
act st s default_terminate = some (terminate s, st)
act st s (handler a) = let (old, st') = apply_handler_entry st s a in some (enter s a old, st')

abbrev pub is_ignored : Disposition → Bool
is_ignored ignore = true
is_ignored _ = false

-- `none` means that the fuel ran out.
unfoldable pub deliver_pending : ℕ → SignalState → Option (Outcome × SignalState)
unfolding act
deliver_pending zero st = none
deliver_pending (suc f) st =
    let (o, st') = take_next_deliverable st in
    let rest = deliver_pending f st' in
    if st.stopped then some (park, st) else elim o [
      | none ↦ some (idle, st')
      | some s ↦ elim (act st' s (disposition st' s)) [ none ↦ rest | some out ↦ some out ]
    ]

-- No signal below `j` is deliverable.
abbrev pub ClearBelow : ℕ → SignalState → Type 0
ClearBelow j st = (t : Signal) → (has (deliverable st) t && ltb (index t) j) ≡ false

without-IsValid :
    {st : SignalState} (s : Signal)
    → IsValid st
    → IsValid (record st { pending = bit_and st.pending (inv (bit s)) })
without-IsValid s v = with_pending (inv (bit s)) v

taken_clear :
    {st : SignalState} (s : Signal)
    → IsValid st
    → ((t : Signal) → (has (deliverable st) t && ltb (number t) (number s)) ≡ false)
    → ClearBelow (suc (index s)) (record st { pending = bit_and st.pending (inv (bit s)) })
unfolding index
taken_clear {st} s v low t = ground (
  arith,
  low t,
  has-deliverable t v,
  has-deliverable {st = record st { pending = bit_and st.pending (inv (bit s)) }} t
      (without-IsValid s v),
  has-pending_without st.pending s t,
  number_bounds s,
  number_bounds t,
)

-- The loop ends within 28 rounds: each takes a higher signal than the round before.
rounds_suffice :
    (f j : ℕ) {st : SignalState}
    → 28 ≤ j + f
    → j ≤ 27
    → IsValid st
    → ClearBelow j st
    → deliver_pending f st ≢ none
unfolding deliver_pending index
rounds_suffice zero j h k v c = absurd (omega arith)
rounds_suffice (suc f) j {st} h k v c = elim (take_next_deliverable-Takes v) [
  | nothing e clear ↦ ground (arith, e)
  | lowest s e held low ↦
      let later : j ≤ index s = ground (arith, c s) in
      ground (
        arith,
        e,
        rounds_suffice f (suc (index s)) (omega arith) (omega (arith, index-lt s))
            (without-IsValid s v) (taken_clear s v low),
      )
]

-- From a valid state the loop of `deliver_pending` ends.
pub deliver_pending_ends :
    {st : SignalState}
    → IsValid st
    → (out : Outcome × SignalState) × (deliver_pending 28 st ≡ some out)
deliver_pending_ends {st} v = elim (Option-cases (deliver_pending 28 st)) [
  | inl out_of_fuel ↦
      absurd (rounds_suffice 28 0 (omega arith) (omega arith) v (λ t. ground arith) out_of_fuel)
  | inr (out, e) ↦ (out, e)
]

-- The signals below `s` that are deliverable are ignored ones.
abbrev pub OnlyIgnoredBelow : SignalState → Signal → Type 0
OnlyIgnoredBelow st s =
    (t : Signal)
    → ((has (deliverable st) t && ltb (number t) (number s)) && not (is_ignored (disposition st t)))
      ≡ false

-- What the outcome says of the state that the loop started in.
abbrev pub Explains : SignalState → Outcome → Type 0
Explains st (enter s a old) =
    (has (deliverable st) s ≡ true)
    × (disposition st s ≡ handler a)
    × (old ≡ st.blocked)
    × OnlyIgnoredBelow st s
Explains st (terminate s) =
    (has (deliverable st) s ≡ true) × (disposition st s ≡ default_terminate) × OnlyIgnoredBelow st s
Explains st park =
    (st.stopped ≡ true)
    ⊎ ((s : Signal) × (has (deliverable st) s ≡ true)
        × (disposition st s ≡ default_stop)
        × OnlyIgnoredBelow st s)
Explains st idle =
    (st.stopped ≡ false)
    × ((t : Signal) → (has (deliverable st) t && not (is_ignored (disposition st t))) ≡ false)

deliverable_without :
    {st : SignalState} (s t : Signal)
    → IsValid st
    → has (deliverable (record st { pending = bit_and st.pending (inv (bit s)) })) t
      ≡ (has (deliverable st) t && not (signal_eq s t))
deliverable_without {st} s t v = ground (
  arith,
  has-deliverable t v,
  has-deliverable {st = record st { pending = bit_and st.pending (inv (bit s)) }} t
      (without-IsValid s v),
  has-pending_without st.pending s t,
)

disposition_pending :
    (st : SignalState) (p : SigSet) (t : Signal)
    → disposition (record st { pending = p }) t ≡ disposition st t
unfolding disposition action
disposition_pending st p t = refl

module _ {st : SignalState} (s : Signal) (v : IsValid st)
    (dropped : disposition st s ≡ ignore) where
  abbrev next_state : SignalState
  next_state = record st { pending = bit_and st.pending (inv (bit s)) }

  disposition-next_state : (t : Signal) → disposition next_state t ≡ disposition st t
  disposition-next_state t = disposition_pending st _ t

  dropped_at : (t : Signal) → signal_eq s t ≡ true → is_ignored (disposition st t) ≡ true
  dropped_at t e = let same : s ≡ t = signal_eq→eq s t e in rw (← same, dropped)

  only_back : (t : Signal) → OnlyIgnoredBelow next_state t → OnlyIgnoredBelow st t
  only_back t o u =
      ground (arith, o u, deliverable_without s u v, disposition-next_state u, dropped_at u)

  was_deliverable :
      (t : Signal) → has (deliverable next_state) t ≡ true → has (deliverable st) t ≡ true
  was_deliverable t h = ground (arith, deliverable_without s t v)

  Explains-back : (out : Outcome) → st.stopped ≡ false → Explains next_state out → Explains st out
  Explains-back (enter t a old) run (d, e, m, o) =
      (was_deliverable t d, sym (disposition-next_state t) ∙ e, m, only_back t o)
  Explains-back (terminate t) run (d, e, o) =
      (was_deliverable t d, sym (disposition-next_state t) ∙ e, only_back t o)
  Explains-back park run (inl halted) = inl halted
  Explains-back park run (inr (t, d, e, o)) =
      inr (t, was_deliverable t d, sym (disposition-next_state t) ∙ e, only_back t o)
  Explains-back idle run (_, o) = (
    run,
    λ u. ground (arith, o u, deliverable_without s u v, disposition-next_state u, dropped_at u),
  )

-- One round that took `s`, by its disposition `d`.
round-Explains :
    {st st' : SignalState} {out : Outcome} (f : ℕ) (s : Signal) (d : Disposition)
    → IsValid st
    → st.stopped ≡ false
    → has (deliverable st) s ≡ true
    → ((t : Signal) → (has (deliverable st) t && ltb (number t) (number s)) ≡ false)
    → disposition st s ≡ d
    → ((st'' : SignalState)
        → deliver_pending f (record st { pending = bit_and st.pending (inv (bit s)) })
          ≡ some (out, st'')
        → Explains (record st { pending = bit_and st.pending (inv (bit s)) }) out)
    → elim (act (record st { pending = bit_and st.pending (inv (bit s)) }) s d) [
      | none ↦ deliver_pending f (record st { pending = bit_and st.pending (inv (bit s)) })
      | some o ↦ some o
    ]
      ≡ some (out, st')
    → Explains st out
unfolding act
round-Explains {out = out} f s ignore v run held low e later h =
    Explains-back s v e out run (later _ h)
round-Explains {out = out} f s default_stop v run held low e later h =
    let is : park ≡ out = ground arith in rw (← is) (inr (s, held, e, λ t. ground (arith, low t)))
round-Explains {out = out} f s default_terminate v run held low e later h =
    let is : terminate s ≡ out = ground arith in rw (← is) (held, e, λ t. ground (arith, low t))
round-Explains {st = st} {out = out} f s (handler a) v run held low e later h =
    let is : enter s a st.blocked ≡ out = unfold apply_handler_entry in ground arith in
    rw (← is) (held, e, refl, λ t. ground (arith, low t))

-- When `deliver_pending` returns from a valid state: a handler is entered, the process stopped or terminated only for the lowest deliverable signal
-- that is not ignored, and the loop goes idle only if every deliverable signal is ignored.
pub deliver_pending-Explains :
    (f : ℕ) {st st' : SignalState} {out : Outcome}
    → IsValid st
    → deliver_pending f st ≡ some (out, st')
    → Explains st out
unfolding deliver_pending
deliver_pending-Explains zero v h = cc
deliver_pending-Explains (suc f) {st} {st' = st'} {out = out} v h = elim (Bool-cases st.stopped) [
  | inl halted ↦ let is : park ≡ out = ground (arith, halted) in rw (← is) (inl halted)
  | inr run ↦ elim (take_next_deliverable-Takes v) [
    | nothing e clear ↦
        let is : idle ≡ out = ground (arith, run, e) in
        rw (← is) (run, λ t. ground (arith, clear t))
    | lowest s e held low ↦
        round-Explains {st' = st'} f s (disposition st s) v run held low refl
          (λ st'' h'. deliver_pending-Explains f (without-IsValid s v) h')
          (ground (arith, run, e, disposition_pending st (bit_and st.pending (inv (bit s))) s))
  ]
]
