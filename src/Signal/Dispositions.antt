-- ===== src/Signal/Dispositions.antt =====
-- kernel/syscall/src/signal.rs: dispositions, and the questions about deliverable signals.
use muffin.Base.{
  ℕ, zero, suc, ◌+◌, ◌≤◌, ◌<◌, ◌≡◌, refl, sym, ap, ◌∙◌, Bool, true, false, not, ◌&&◌, ◌∷◌, ok, pos,
  arith, ◌==◌, if◌then◌else◌, any, Bool-cases, inl, inr, ◌↔◌, ◌⊎◌,
}
use muffin.Bits.{test_bit, bit_and_pow_test}
use muffin.Abi.Signal.{SigSet, SigAction, Signal, kill, stop, number, try_from, default_action}
use muffin.Signal.{
  SignalState, Disposition, ignore, default_terminate, default_stop, handler, index, inv,
  signals_from, signals_in, deliverable, disposition, is_terminate, is_interrupting,
  has_fatal_deliverable, has_interrupting_deliverable,
}
use muffin.Signal.Sets.{has, signal_at, index-lt, signal_eq→eq, has-and, has-inv, number_bounds}
use muffin.Signal.Invariant.{IsValid}

pub disposition-kill : (st : SignalState) → disposition st kill ≡ default_terminate
unfolding disposition number
disposition-kill st = refl

pub disposition-stop : {st : SignalState} → IsValid st → disposition st stop ≡ default_stop
unfolding disposition number default_action
disposition-stop {st} v = rw v.stop_default

index_injective : (s t : Signal) → index s ≡ index t → s ≡ t
unfolding index
index_injective s t e = signal_eq→eq s t (ground (arith, number_bounds s, number_bounds t))

-- One round of `signals_in` below `COUNT`: signal `i + 1` is listed if its bit is set.
signals_from_round :
    (mask i n : ℕ) (s : Signal)
    → try_from (pos (i + 1)) ≡ ok s
    → index s ≡ i
    → signals_from mask i (suc n)
      ≡ (if has mask s then s ∷ signals_from mask (i + 1) n else signals_from mask (i + 1) n)
unfolding signals_from
signals_from_round mask i n s e at =
    ground (arith, e, bit_and_pow_test mask i, ap (test_bit mask) at)

-- A listed signal is in the mask, and each signal of the mask in reach is listed.
module _ (p : Signal → Bool) (mask : SigSet) where
  any-signals_from :
      (n i : ℕ)
      → i + n ≤ 27
      → any p (signals_from mask i n) ≡ true
      → (s : Signal) × (has mask s ≡ true) × (p s ≡ true)
  unfolding signals_from
  any-signals_from zero i h e = cc
  any-signals_from (suc n) i h e =
      let (s, back, at) = signal_at i (omega arith) in
      let round = signals_from_round mask i n s back at in
      let e' : any p
            (if has mask s then s ∷ signals_from mask (i + 1) n else signals_from mask (i + 1) n)
          ≡ true =
        ap (any p) (sym round) ∙ e in
      let rest = any-signals_from n (i + 1) (omega arith) in
      elim (Bool-cases (has mask s)) [
        | inr out ↦ rest (ground (arith, e'))
        | inl held ↦ elim (Bool-cases (p s)) [
          | inl found ↦ (s, held, found)
          | inr other ↦ rest (ground (arith, e'))
        ]
      ]

  signals_from-any :
      (n i : ℕ) (s : Signal)
      → i + n ≤ 27
      → i ≤ index s
      → index s < i + n
      → has mask s ≡ true
      → p s ≡ true
      → any p (signals_from mask i n) ≡ true
  unfolding signals_from
  signals_from-any zero i s h lo hi m e = absurd (omega arith)
  signals_from-any (suc n) i s h lo hi m e =
      let (t, back, at) = signal_at i (omega arith) in
      let round = signals_from_round mask i n t back at in
      rw round (elim (Bool-cases (index s == i)) [
        | inl here ↦ let same : s ≡ t = index_injective s t (ground arith) in rw (← same, m) (rw e)
        | inr later ↦
            let rest =
              signals_from-any n (i + 1) s (omega arith) (ground arith) (ground arith) m e in
            ground (arith, rest)
      ])

pub any-signals_in :
    (p : Signal → Bool) (mask : SigSet)
    → (any p (signals_in mask) ≡ true) ↔ ((s : Signal) × (has mask s ≡ true) × (p s ≡ true))
unfolding signals_in
any-signals_in p mask = (
  any-signals_from p mask 27 0 (omega arith),
  λ (s, m, e).
      signals_from-any p mask 27 0 s (omega arith) (omega arith) (omega (arith, index-lt s)) m e,
)

-- A signal is deliverable when it is pending and not blocked.
pub has-deliverable :
    {st : SignalState} (s : Signal)
    → IsValid st
    → has (deliverable st) s ≡ (has st.pending s && not (has st.blocked s))
has-deliverable {st} s v =
    ground (arith, has-and st.pending (inv st.blocked) s, has-inv st.blocked s v.blocked_word)

-- In a valid state, `has_fatal_deliverable` says exactly whether some pending unblocked signal terminates by default.
pub has_fatal_deliverable_iff :
    {st : SignalState}
    → IsValid st
    → (has_fatal_deliverable st ≡ true) ↔ (
        (s : Signal) × (has st.pending s ≡ true)
        × (has st.blocked s ≡ false)
        × (disposition st s ≡ default_terminate))
unfolding has_fatal_deliverable
has_fatal_deliverable_iff {st} v = (there, back)
  where
    there :
        any (λ s. is_terminate (disposition st s)) (signals_in (deliverable st)) ≡ true
        → (s : Signal) × (has st.pending s ≡ true)
          × (has st.blocked s ≡ false)
          × (disposition st s ≡ default_terminate)
    there h =
        let (s, m, e) = (any-signals_in _ (deliverable st)).0 h in
        (
          s,
          ground (arith, m, has-deliverable s v),
          ground (arith, m, has-deliverable s v),
          ground (arith, e),
        )

    back :
        ((s : Signal) × (has st.pending s ≡ true)
          × (has st.blocked s ≡ false)
          × (disposition st s ≡ default_terminate))
        → any (λ s. is_terminate (disposition st s)) (signals_in (deliverable st)) ≡ true
    back (s, a, b, c) =
        (any-signals_in _ (deliverable st)).1 (s, ground (arith, has-deliverable s v), rw c)

-- What interrupts a wait: a handler, or termination by default.
abbrev Interrupts : Disposition → Type 0
Interrupts d = (d ≡ default_terminate) ⊎ ((a : SigAction) × (d ≡ handler a))

is_interrupting_sound : (d : Disposition) → is_interrupting d ≡ true → Interrupts d
is_interrupting_sound default_terminate h = inl refl
is_interrupting_sound (handler a) h = inr (a, refl)
is_interrupting_sound ignore h = ground arith
is_interrupting_sound default_stop h = ground arith

is_interrupting_complete : (d : Disposition) → Interrupts d → is_interrupting d ≡ true
is_interrupting_complete d (inl e) = rw e refl
is_interrupting_complete d (inr (a, e)) = rw e refl

-- In a valid state, `has_interrupting_deliverable` says exactly whether some pending unblocked signal has a handler or
-- terminates by default.
pub has_interrupting_deliverable_iff :
    {st : SignalState}
    → IsValid st
    → (has_interrupting_deliverable st ≡ true) ↔ (
        (s : Signal) × (has st.pending s ≡ true)
        × (has st.blocked s ≡ false)
        × ((disposition st s ≡ default_terminate)
            ⊎ ((a : SigAction) × (disposition st s ≡ handler a))))
unfolding has_interrupting_deliverable
has_interrupting_deliverable_iff {st} v = (there, back)
  where
    there :
        any (λ s. is_interrupting (disposition st s)) (signals_in (deliverable st)) ≡ true
        → (s : Signal) × (has st.pending s ≡ true)
          × (has st.blocked s ≡ false)
          × Interrupts (disposition st s)
    there h =
        let (s, m, e) = (any-signals_in _ (deliverable st)).0 h in
        (
          s,
          ground (arith, m, has-deliverable s v),
          ground (arith, m, has-deliverable s v),
          is_interrupting_sound (disposition st s) e,
        )

    back :
        ((s : Signal) × (has st.pending s ≡ true)
          × (has st.blocked s ≡ false)
          × Interrupts (disposition st s))
        → any (λ s. is_interrupting (disposition st s)) (signals_in (deliverable st)) ≡ true
    back (s, a, b, c) =
        (any-signals_in _ (deliverable st)).1
          (s, ground (arith, has-deliverable s v), is_interrupting_complete (disposition st s) c)
