-- ===== src/Signal/Actions.antt =====
-- kernel/syscall/src/signal.rs: the methods that change actions keep the invariant.
use Prim.Native.Nat.{bit_or}
use muffin.Base.{
  ℕ, zero, suc, ◌^◌, ◌<◌, ◌≡◌, ◌≢◌, refl, ap, ◌∙◌, false, not, ◌||◌, Option, none, some, List, [],
  ◌∷◌, map, ok, arith, if◌then◌else◌, Bool-cases, ◌⊎◌, inl, inr, length, length-set, get_or, set,
  get_or-set_self, get_or-set_ne,
}
use muffin.Bits.{test_bit-zero, test_bit, bit_or-lt}
use muffin.Abi.Signal.{
  SigSet, Signal, kill, stop, number, signal_eq, bit, SigAction, default, sa_nodefer, sa_resethand,
  contains,
}
use muffin.Signal.{
  SignalState, initial, index, action, sigaction, reset_action, exec_reset, entry_mask,
  apply_handler_entry,
}
use muffin.Signal.Sets.{number_bounds, index-lt, signal_eq→eq, bit-lt}
use muffin.Signal.Invariant.{IsValid, with_blocked}

-- An array with an action replaced, where neither `Kill` nor `Stop` gets another than the default.
index-ne : (s t : Signal) → signal_eq s t ≡ false → index s ≢ index t
unfolding index
index-ne s t h e = ground (arith, number_bounds s, number_bounds t)

with_action :
    {st : SignalState} (s : Signal) (a : SigAction)
    → ((signal_eq s kill || signal_eq s stop) ≡ false) ⊎ (a ≡ default)
    → IsValid st
    → IsValid (record st { actions = set st.actions (index s) a })
unfolding action
with_action {st} s a ok_write v = record {
  actions_len = rw length-set v.actions_len;
  pending_word = v.pending_word;
  blocked_word = v.blocked_word;
  kill_unblocked = v.kill_unblocked;
  stop_unblocked = v.stop_unblocked;
  exclusive = v.exclusive;
  kill_default = kept kill v.kill_default (λ h. ground arith);
  stop_default = kept stop v.stop_default (λ h. ground arith);
}
  where
    kept :
        (t : Signal)
        → get_or st.actions (index t) default ≡ default
        → ((signal_eq s kill || signal_eq s stop) ≡ false → signal_eq s t ≡ false)
        → get_or (set st.actions (index s) a) (index t) default ≡ default
    kept t old apart = elim (Bool-cases (signal_eq s t)) [
      | inl same ↦
          let e : s ≡ t = signal_eq→eq s t same in
          rw e (
            get_or-set_self st.actions (index t) a default
              (omega (arith, v.actions_len, index-lt t))
            ∙ elim ok_write [ inl other ↦ cc (apart other) | inr reset ↦ reset ])
      | inr differ ↦
          get_or-set_ne st.actions (index s) (index t) a default (index-ne s t differ) ∙ old
    ]

-- What a successful `sigaction` with a new action did.
pub sigaction_installs :
    (st : SignalState) (s : Signal) (a : SigAction) {old : SigAction} {st' : SignalState}
    → sigaction st s (some a) ≡ ok (old, st')
    → ((signal_eq s kill || signal_eq s stop) ≡ false)
      × (old ≡ action st s)
      × (st' ≡ record st { actions = set st.actions (index s) a })
unfolding sigaction
sigaction_installs st s a h = ground arith

pub sigaction-IsValid :
    {st : SignalState} (s : Signal) (new : Option SigAction) {old : SigAction} {st' : SignalState}
    → IsValid st
    → sigaction st s new ≡ ok (old, st')
    → IsValid st'
unfolding sigaction
sigaction-IsValid {st} s none {st' = st'} v h = let e : st ≡ st' = ground arith in rw (← e) v
sigaction-IsValid {st} s (some a) v h =
    let (apart, _, e) = sigaction_installs st s a h in rw e (with_action s a (inl apart) v)

reset_actions_len : (xs : List SigAction) → length (map reset_action xs) ≡ length xs
reset_actions_len [] = refl
reset_actions_len (x ∷ xs) = ap suc (reset_actions_len xs)

pub get_or-reset :
    (xs : List SigAction) (i : ℕ)
    → get_or (map reset_action xs) i default ≡ reset_action (get_or xs i default)
get_or-reset [] i = refl
get_or-reset (x ∷ xs) zero = refl
get_or-reset (x ∷ xs) (suc i) = get_or-reset xs i

pub exec_reset-IsValid : {st : SignalState} → IsValid st → IsValid (exec_reset st)
unfolding exec_reset action
exec_reset-IsValid {st} v = record {
  actions_len = reset_actions_len st.actions ∙ v.actions_len;
  pending_word = v.pending_word;
  blocked_word = v.blocked_word;
  kill_unblocked = v.kill_unblocked;
  stop_unblocked = v.stop_unblocked;
  exclusive = v.exclusive;
  kill_default = get_or-reset st.actions (index kill) ∙ ap reset_action v.kill_default;
  stop_default = get_or-reset st.actions (index stop) ∙ ap reset_action v.stop_default;
}

entry_word :
    (blocked : SigSet) (s : Signal) (a : SigAction)
    → blocked < 2 ^ 64
    → a.mask < 2 ^ 64
    → (if not (contains a.flags sa_nodefer)
        then bit_or (bit_or blocked a.mask) (bit s)
        else bit_or blocked a.mask)
      < 2 ^ 64
entry_word blocked s a h k =
    ground (
      arith,
      bit_or-lt 64 blocked a.mask h k,
      bit_or-lt 64 (bit_or blocked a.mask) (bit s),
      bit-lt s,
    )

pub apply_handler_entry-IsValid :
    {st : SignalState} (s : Signal) (a : SigAction)
    → a.mask < 2 ^ 64
    → IsValid st
    → IsValid (apply_handler_entry st s a).1
unfolding apply_handler_entry
apply_handler_entry-IsValid {st} s a h v =
    let masked : IsValid (record st { blocked = entry_mask st.blocked s a }) =
      with_blocked _ (entry_word st.blocked s a v.blocked_word h) v in
    elim (Bool-cases (contains a.flags sa_resethand)) [
      | inl reset ↦ rw (reset, apply_handler_entry) (with_action s default (inr refl) masked)
      | inr keep ↦ rw (keep, apply_handler_entry) masked
    ]

pub initial-IsValid : IsValid initial
unfolding initial action index number test_bit
initial-IsValid = record {
  actions_len = refl;
  pending_word = omega arith;
  blocked_word = omega arith;
  kill_unblocked = refl;
  stop_unblocked = refl;
  exclusive = λ t. ground (arith, test_bit-zero (index t));
  kill_default = refl;
  stop_default = refl;
}
