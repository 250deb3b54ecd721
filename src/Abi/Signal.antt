-- ===== src/Abi/Signal.antt =====
-- kernel/abi/src/signal.rs: signals, their bits, dispositions, and the records that carry them.
use Prim.Native.Nat.{bit_and, bit_or}
use muffin.Base.{ℕ, ◌-◌, ◌^◌, Bool, Result, ok, err, ℤ, pos, negsuc, ◌==◌, if◌then◌else◌}
use muffin.Abi.Errno.{Errno, einval}

-- `SigSet`, a `u64` with signal `n` at bit `n - 1`.
abbrev pub SigSet : Type 0
SigSet = ℕ

-- `Signal`, in the order of its numbers.
pub data Signal : Type 0 where
  abort alarm bus child continue fpe : Signal
  hangup illegal_instruction interrupt kill pipe quit : Signal
  segfault stop terminate terminal_stop terminal_input terminal_output : Signal
  usr1 usr2 window_changed bad_syscall trap urgent : Signal
  virtual_timer_alarm exceeded_cpu_limit exceeded_file_size_limit : Signal

unfoldable pub number : Signal → ℕ
number abort = 1
number alarm = 2
number bus = 3
number child = 4
number continue = 5
number fpe = 6
number hangup = 7
number illegal_instruction = 8
number interrupt = 9
number kill = 10
number pipe = 11
number quit = 12
number segfault = 13
number stop = 14
number terminate = 15
number terminal_stop = 16
number terminal_input = 17
number terminal_output = 18
number usr1 = 19
number usr2 = 20
number window_changed = 21
number bad_syscall = 22
number trap = 23
number urgent = 24
number virtual_timer_alarm = 25
number exceeded_cpu_limit = 26
number exceeded_file_size_limit = 27

-- `Signal::COUNT`.
abbrev pub signal_count : ℕ
signal_count = 27

-- The derived equality.
abbrev pub signal_eq : Signal → Signal → Bool
signal_eq s t = number s == number t

-- `TryFrom<i32>`.
unfoldable pub try_from : ℤ → Result Signal Errno
try_from (negsuc n) = err einval
try_from (pos n) =
    if n == 1
    then ok abort
    else if n == 2
    then ok alarm
    else if n == 3
    then ok bus
    else if n == 4
    then ok child
    else if n == 5
    then ok continue
    else if n == 6
    then ok fpe
    else if n == 7
    then ok hangup
    else if n == 8
    then ok illegal_instruction
    else if n == 9
    then ok interrupt
    else if n == 10
    then ok kill
    else if n == 11
    then ok pipe
    else if n == 12
    then ok quit
    else if n == 13
    then ok segfault
    else if n == 14
    then ok stop
    else if n == 15
    then ok terminate
    else if n == 16
    then ok terminal_stop
    else if n == 17
    then ok terminal_input
    else if n == 18
    then ok terminal_output
    else if n == 19
    then ok usr1
    else if n == 20
    then ok usr2
    else if n == 21
    then ok window_changed
    else if n == 22
    then ok bad_syscall
    else if n == 23
    then ok trap
    else if n == 24
    then ok urgent
    else if n == 25
    then ok virtual_timer_alarm
    else if n == 26
    then ok exceeded_cpu_limit
    else if n == 27
    then ok exceeded_file_size_limit
    else err einval

unfoldable pub bit : Signal → SigSet
bit s = 2 ^ (number s - 1)

abbrev pub stop_signals_mask : SigSet
unfolding bit number
stop_signals_mask =
    bit_or (bit_or (bit_or (bit stop) (bit terminal_stop)) (bit terminal_input))
      (bit terminal_output)

pub data SigMaskHow : Type 0 where
  block unblock set_mask : SigMaskHow

-- `TryFrom<usize>`.
unfoldable pub how_from : ℕ → Result SigMaskHow Errno
how_from n =
    if n == 0
    then ok block
    else if n == 1
    then ok unblock
    else if n == 2
    then ok set_mask
    else err einval

pub data DefaultAction : Type 0 where
  terminates ignores stops : DefaultAction

unfoldable pub default_action : Signal → DefaultAction
default_action child = ignores
default_action window_changed = ignores
default_action urgent = ignores
default_action continue = ignores
default_action stop = stops
default_action terminal_stop = stops
default_action terminal_input = stops
default_action terminal_output = stops
default_action _ = terminates

-- `SigHandler(usize)`.
abbrev pub SigHandler : Type 0
SigHandler = ℕ

abbrev pub is_default : SigHandler → Bool
is_default h = h == 0

abbrev pub is_ignore : SigHandler → Bool
is_ignore h = h == 1

-- `SaFlags(u32)`.
abbrev pub SaFlags : Type 0
SaFlags = ℕ

abbrev pub sa_restart : SaFlags
sa_restart = 2 ^ 0

abbrev pub sa_siginfo : SaFlags
sa_siginfo = 2 ^ 1

abbrev pub sa_nodefer : SaFlags
sa_nodefer = 2 ^ 2

abbrev pub sa_resethand : SaFlags
sa_resethand = 2 ^ 3

abbrev pub contains : SaFlags → SaFlags → Bool
contains flags other = bit_and flags other == other

pub record SigAction : Type 0 where
  pub handler : SigHandler
  pub mask : SigSet
  pub flags : SaFlags
  pub restorer : ℕ

-- `SigAction::default()`.
abbrev pub default : SigAction
default = record { handler = 0; mask = 0; flags = 0; restorer = 0 }

-- `SigInfoField`: no payload, or that of a kill, a fault, a timer or a child.
pub data SigInfoField : Type 0 where
  no_info : SigInfoField
  kill_info : ℕ → ℕ → SigInfoField
  fault_info : ℕ → ℤ → SigInfoField
  timer_info : ℤ → ℕ → SigInfoField
  child_info : ℕ → ℤ → ℕ → SigInfoField

pub record SigInfo : Type 0 where
  pub signo : Signal
  pub code : ℤ
  pub errno : ℤ
  pub info : SigInfoField
