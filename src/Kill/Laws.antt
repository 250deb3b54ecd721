-- ===== src/Kill/Laws.antt =====
-- kernel/syscall/src/signal.rs, `sys_kill`: who receives the signal, and what the caller is told.
use mathlib.Core.List.{append_assoc, append-nil}
use muffin.Base.{
  ℕ, ◌≡◌, refl, Bool, true, false, Option, none, some, List, [], ◌∷◌, ◌++◌, map, Result, ok, err,
  arith, if◌then◌else◌, inl, inr, ◌⊎◌,
}
use muffin.Abi.Errno.{Errno, eperm, esrch}
use muffin.Abi.Signal.{Signal, SigInfo}
use muffin.Kill.{
  Process, Context, SignalTarget, broadcast_all, specific_process, process_group, Reply,
  process_by_id, in_group, is_root, keep_ok, distribute_round, distribute_from, distribute_signal,
  kill_signal_info, kill_one, sys_kill,
}

abbrev pub is_ok : Result (Unit {0}) Errno → Bool
is_ok (ok u) = true
is_ok (err e) = false

-- The processes that the caller may signal.
unfoldable pub permitted : Context → List Process → List Process
permitted cx [] = []
permitted cx (p ∷ ps) =
    let rest = permitted cx ps in
    if is_ok (cx.check_permission p.process_id) then p ∷ rest else rest

abbrev pub sent_to : SigInfo → List Process → List (ℕ × SigInfo)
sent_to info ps = map (λ p. (p.process_id, info)) ps

-- Success if one process may be signalled, `EPERM` if none of several may, `ESRCH` with no process.
abbrev pub verdict : List Process → List Process → Result ℕ Errno
verdict [] allowed = err esrch
verdict (p ∷ ps) [] = err eperm
verdict (p ∷ ps) (q ∷ qs) = ok 0

-- The verdict of a fold that started with `state`.
abbrev continued : Result ℕ Errno → List Process → List Process → Result ℕ Errno
continued state [] allowed = state
continued state (p ∷ ps) [] = keep_ok state
continued state (p ∷ ps) (q ∷ qs) = ok 0

continued_ok : (ps qs : List Process) → continued (ok 0) ps qs ≡ ok 0
continued_ok [] qs = refl
continued_ok (p ∷ ps) [] = refl
continued_ok (p ∷ ps) (q ∷ qs) = refl

keep_ok_twice : (state : Result ℕ Errno) → keep_ok (keep_ok state) ≡ keep_ok state
keep_ok_twice (ok n) = refl
keep_ok_twice (err e) = refl

continued_kept :
    (cx : Context) (state : Result ℕ Errno) (p : Process) (ps qs : List Process)
    → permitted cx ps ≡ qs
    → continued (keep_ok state) ps qs ≡ continued state (p ∷ ps) qs
unfolding permitted
continued_kept cx state p [] [] e = refl
continued_kept cx state p [] (q ∷ qs) e = cc
continued_kept cx state p (x ∷ xs) [] e = keep_ok_twice state
continued_kept cx state p (x ∷ xs) (q ∷ qs) e = refl

distribute_from_lem :
    (cx : Context) (info : SigInfo) (state : Result ℕ Errno) (sent : List (ℕ × SigInfo))
    (ps : List Process)
    → distribute_from cx info (state, sent) ps
      ≡ (continued state ps (permitted cx ps), sent ++ sent_to info (permitted cx ps))
unfolding distribute_from distribute_round permitted
distribute_from_lem cx info state sent [] = ground (arith, append-nil sent)
distribute_from_lem cx info state sent (p ∷ ps) = ground (
  arith,
  distribute_from_lem cx info (ok 0) (sent ++ ((p.process_id, info) ∷ [])) ps,
  distribute_from_lem cx info (keep_ok state) sent ps,
  continued_ok ps (permitted cx ps),
  continued_kept cx state p ps (permitted cx ps) refl,
  append_assoc sent ((p.process_id, info) ∷ []) (sent_to info (permitted cx ps)),
)

verdict_lem :
    (cx : Context) (ps qs : List Process)
    → permitted cx ps ≡ qs
    → continued (err esrch) ps qs ≡ verdict ps qs
unfolding permitted
verdict_lem cx [] qs e = refl
verdict_lem cx (p ∷ ps) [] e = refl
verdict_lem cx (p ∷ ps) (q ∷ qs) e = refl

-- A signal to several processes goes, in their order, to exactly those that the caller may signal.
-- The call succeeds if there is one, fails with `EPERM` if there are processes but none that may be
-- signalled, and with `ESRCH` if there are no processes.
pub distribute_signal_lem :
    (cx : Context) (info : SigInfo) (ps : List Process)
    → distribute_signal cx ps info ≡ (verdict ps (permitted cx ps), sent_to info (permitted cx ps))
unfolding distribute_signal
distribute_signal_lem cx info ps =
    ground (
      arith,
      distribute_from_lem cx info (err esrch) [] ps,
      verdict_lem cx ps (permitted cx ps) refl,
    )

-- The processes a broadcast or a group signal is for; group 0 is the caller's own group.
abbrev pub targets : Context → SignalTarget → List Process
targets cx broadcast_all = cx.all_processes
targets cx (specific_process pid) = []
targets cx (process_group g) =
    in_group (if is_root g then cx.current_identity.process_group_id else g) cx.all_processes

-- What `sys_kill` does for each kind of target.
abbrev pub Kills : Context → SignalTarget → Signal → Reply → Type 0
Kills cx (specific_process pid) s r =
    ((process_by_id cx pid ≡ none) × (r ≡ (err esrch, [])))
    ⊎ ((p : Process) × (e : Errno) × (process_by_id cx pid ≡ some p)
        × (cx.check_permission p.process_id ≡ err e)
        × (r ≡ (err e, [])))
    ⊎ ((p : Process) × (process_by_id cx pid ≡ some p)
        × (cx.check_permission p.process_id ≡ ok tt)
        × (r ≡ (ok 0, (pid, kill_signal_info cx s) ∷ [])))
Kills cx target s r = r ≡ (
  verdict (targets cx target) (permitted cx (targets cx target)),
  sent_to (kill_signal_info cx s) (permitted cx (targets cx target)),
)

kill_one_lem :
    (cx : Context) (pid : ℕ) (s : Signal) (o : Option Process)
    → process_by_id cx pid ≡ o
    → Kills cx (specific_process pid) s (kill_one cx pid (kill_signal_info cx s))
unfolding kill_one
kill_one_lem cx pid s none e = inl (e, ground (arith, e))
kill_one_lem cx pid s (some p) e = go (cx.check_permission p.process_id) refl
  where
    go :
        (r : Result (Unit {0}) Errno)
        → cx.check_permission p.process_id ≡ r
        → Kills cx (specific_process pid) s (kill_one cx pid (kill_signal_info cx s))
    go (err x) c = inr (inl (p, x, e, c, ground (arith, e, c)))
    go (ok u) c = inr (inr (p, e, c, ground (arith, e, c)))

-- `sys_kill` sends the signal to exactly those of its target that the caller may signal, in their order,
-- and answers with the errors of each kind of target.
pub sys_kill-Kills :
    (cx : Context) (target : SignalTarget) (s : Signal) → Kills cx target s (sys_kill cx target s)
unfolding sys_kill
sys_kill-Kills cx broadcast_all s =
    distribute_signal_lem cx (kill_signal_info cx s) cx.all_processes
sys_kill-Kills cx (specific_process pid) s = kill_one_lem cx pid s (process_by_id cx pid) refl
sys_kill-Kills cx (process_group g) s = distribute_signal_lem cx (kill_signal_info cx s) _
