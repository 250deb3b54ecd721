-- ===== src/Kill.antt =====
-- kernel/syscall/src/signal.rs, `sys_kill`, over the traits of kernel/syscall/src/access.rs and
-- access/process.rs. The context's processes and its permission check are what the traits give;
-- `deliver` is recorded as the list of deliveries, oldest first.
pub mod Laws
mod Tests
use muffin.Base.{
  ℕ, Bool, true, false, Option, none, some, List, [], ◌∷◌, ◌++◌, Result, ok, err, pos, ℤ, ◌==◌,
  if◌then◌else◌,
}
use muffin.Abi.Errno.{Errno, eperm, esrch}
use muffin.Abi.Signal.{Signal, SigInfo, kill_info}

-- `ProcessAccess`.
pub record Process : Type 0 where
  pub process_id : ℕ
  pub process_group_id : ℕ

pub record Identity : Type 0 where
  pub process_id : ℕ
  pub user_id : ℕ
  pub process_group_id : ℕ

-- `check_permission` is asked for the capability `Signal` only.
pub record Context : Type 0 where
  pub current_identity : Identity
  pub check_permission : ℕ → Result (Unit {0}) Errno
  pub all_processes : List Process

pub data SignalTarget : Type 0 where
  broadcast_all : SignalTarget
  specific_process : ℕ → SignalTarget
  process_group : ℕ → SignalTarget

-- What a call returns, and the deliveries it made.
abbrev pub Reply : Type 0
Reply = Result ℕ Errno × List (ℕ × SigInfo)

unfoldable pub find_process : ℕ → List Process → Option Process
find_process pid [] = none
find_process pid (p ∷ ps) = if p.process_id == pid then some p else find_process pid ps

unfoldable pub process_by_id : Context → ℕ → Option Process
unfolding find_process
process_by_id cx pid = find_process pid cx.all_processes

unfoldable pub in_group : ℕ → List Process → List Process
in_group g [] = []
in_group g (p ∷ ps) = let rest = in_group g ps in if p.process_group_id == g then p ∷ rest else rest

unfoldable pub processes_in_group : Context → ℕ → List Process
unfolding in_group
processes_in_group cx g = in_group g cx.all_processes

-- `ProcessId::is_root`.
abbrev pub is_root : ℕ → Bool
is_root pid = pid == 0

abbrev pub keep_ok : Result ℕ Errno → Result ℕ Errno
keep_ok (ok n) = ok n
keep_ok (err e) = err eperm

-- One round of the fold in `distribute_signal`.
unfoldable pub distribute_round : Context → SigInfo → Reply → Process → Reply
distribute_round cx info (state, sent) p = elim (cx.check_permission p.process_id) [
  | ok _ ↦ (ok 0, sent ++ ((p.process_id, info) ∷ []))
  | err _ ↦ (keep_ok state, sent)
]

unfoldable pub distribute_from : Context → SigInfo → Reply → List Process → Reply
distribute_from cx info r [] = r
distribute_from cx info r (p ∷ ps) = distribute_from cx info (distribute_round cx info r p) ps

unfoldable pub distribute_signal : Context → List Process → SigInfo → Reply
distribute_signal cx ps info = distribute_from cx info (err esrch, []) ps

unfoldable pub kill_signal_info : Context → Signal → SigInfo
kill_signal_info cx s = record {
  signo = s;
  code = pos 0;
  errno = pos 0;
  info = kill_info cx.current_identity.process_id cx.current_identity.user_id;
}

-- The arm for one process: no such process, a refused permission, or a delivery.
unfoldable pub kill_one : Context → ℕ → SigInfo → Reply
unfolding process_by_id
kill_one cx pid info = elim (process_by_id cx pid) [
  | none ↦ (err esrch, [])
  | some p ↦ elim (cx.check_permission p.process_id) [
    | err e ↦ (err e, [])
    | ok _ ↦ (ok 0, (pid, info) ∷ [])
  ]
]

unfoldable pub sys_kill : Context → SignalTarget → Signal → Reply
unfolding kill_one distribute_signal kill_signal_info processes_in_group
sys_kill cx (specific_process pid) s = kill_one cx pid (kill_signal_info cx s)
sys_kill cx broadcast_all s = distribute_signal cx cx.all_processes (kill_signal_info cx s)
sys_kill cx (process_group g) s =
    distribute_signal cx
      (processes_in_group cx (if is_root g then cx.current_identity.process_group_id else g))
      (kill_signal_info cx s)
