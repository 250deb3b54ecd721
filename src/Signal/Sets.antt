-- ===== src/Signal/Sets.antt =====
-- Signal sets: which signals a mask of kernel/syscall/src/signal.rs holds after each bit operation.
use Prim.Native.Nat.{bit_and, bit_or}
use muffin.Base.{
  ℕ, zero, suc, ◌+◌, ◌-◌, ◌^◌, ◌≤◌, ◌<◌, ◌≡◌, refl, ◌∙◌, Bool, true, false, not, ◌&&◌, ◌||◌, ok,
  err, pos, arith, ◌==◌, Result,
}
use muffin.Bits.{test_bit, test_bit-and, test_bit-or, test_bit-complement, test_bit-pow}
use muffin.Abi.Errno.{Errno}
use muffin.Abi.Signal.{
  SigSet, Signal, abort, kill, stop, terminal_stop, terminal_input, terminal_output, number,
  signal_eq, try_from, bit, stop_signals_mask,
}
use muffin.Signal.{index, inv, kill_stop_mask}

abbrev pub has : SigSet → Signal → Bool
has mask s = test_bit mask (index s)

-- The four signals that stop a process.
abbrev pub is_stop : Signal → Bool
is_stop stop = true
is_stop terminal_stop = true
is_stop terminal_input = true
is_stop terminal_output = true
is_stop _ = false

pub number_bounds : (s : Signal) → (1 ≤ number s) × (number s ≤ 27)
unfolding number
number_bounds abort = omega arith
number_bounds _ = omega arith

pub index-lt : (s : Signal) → index s < 27
unfolding index
index-lt s = omega (arith, number_bounds s)

pub try_from-number : (s : Signal) → try_from (pos (number s)) ≡ ok s
unfolding try_from number
try_from-number abort = refl
try_from-number _ = refl

pub signal_eq→eq : (s t : Signal) → signal_eq s t ≡ true → s ≡ t
signal_eq→eq s t h =
    let e : number s ≡ number t = ground arith in cc (try_from-number s, try_from-number t, e)

pub signal_eq_refl : (s : Signal) → signal_eq s s ≡ true
signal_eq_refl s = ground arith

pub bit-lt : (s : Signal) → bit s < 2 ^ 27
unfolding bit number
bit-lt abort = omega arith
bit-lt _ = omega arith

pub has-bit : (s t : Signal) → has (bit s) t ≡ signal_eq s t
unfolding bit index
has-bit s t =
    test_bit-pow (number s - 1) (number t - 1) ∙ ground (arith, number_bounds s, number_bounds t)

pub has-or : (a b : SigSet) (t : Signal) → has (bit_or a b) t ≡ (has a t || has b t)
has-or a b t = test_bit-or a b (index t)

pub has-and : (a b : SigSet) (t : Signal) → has (bit_and a b) t ≡ (has a t && has b t)
has-and a b t = test_bit-and a b (index t)

pub has-inv : (a : SigSet) (t : Signal) → a < 2 ^ 64 → has (inv a) t ≡ not (has a t)
has-inv a t h = test_bit-complement 64 a (index t) h (omega (arith, index-lt t))

pub has-stop_signals_mask : (t : Signal) → has stop_signals_mask t ≡ is_stop t
unfolding bit number index test_bit
has-stop_signals_mask abort = refl
has-stop_signals_mask _ = refl

pub has-kill_stop_mask :
    (t : Signal) → has kill_stop_mask t ≡ (signal_eq t kill || signal_eq t stop)
unfolding bit number index test_bit
has-kill_stop_mask abort = refl
has-kill_stop_mask _ = refl

-- The test `STOP_SIGNALS_MASK & signo.bit() != 0`.
pub stop_test : (s : Signal) → not (bit_and stop_signals_mask (bit s) == 0) ≡ is_stop s
unfolding bit number
stop_test abort = refl
stop_test _ = refl

numbers_back : ℕ → Result Signal Errno → Bool
numbers_back i (ok s) = index s == i
numbers_back i (err e) = false

-- Each bit below 27 is that of a signal.
numbers_upto : ℕ → Bool
unfolding numbers_back
numbers_upto zero = true
numbers_upto (suc k) = numbers_back k (try_from (pos (k + 1))) && numbers_upto k

number_back-lt :
    (i k : ℕ) → i < k → numbers_upto k ≡ true → numbers_back i (try_from (pos (i + 1))) ≡ true
unfolding numbers_upto
number_back-lt i zero lt h = elim lt [ ]
number_back-lt i (suc k) lt h = ground (arith, number_back-lt i k)

numbers_table : numbers_upto 27 ≡ true
unfolding numbers_upto numbers_back try_from number index
numbers_table = refl

from_back :
    (i : ℕ) (r : Result Signal Errno)
    → numbers_back i r ≡ true
    → (s : Signal) × (r ≡ ok s) × (index s ≡ i)
unfolding numbers_back
from_back i (ok s) h = (s, refl, ground arith)
from_back i (err e) h = cc

pub signal_at : (i : ℕ) → i < 27 → (s : Signal) × (try_from (pos (i + 1)) ≡ ok s) × (index s ≡ i)
signal_at i h = from_back i _ (number_back-lt i 27 h numbers_table)

pub stop_signals_mask-lt : stop_signals_mask < 2 ^ 64
unfolding bit number
stop_signals_mask-lt = omega arith

pub kill_stop_mask-lt : kill_stop_mask < 2 ^ 64
unfolding bit number
kill_stop_mask-lt = omega arith
