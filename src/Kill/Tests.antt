-- ===== src/Kill/Tests.antt =====
-- Runs of `sys_kill`, and its theorems at a concrete context.
use muffin.Base.{◌≡◌, refl, [], ◌∷◌, ok, err, ◌==◌, if◌then◌else◌}
use muffin.Abi.Errno.{eperm, esrch}
use muffin.Abi.Signal.{interrupt}
use muffin.Kill.{
  Context, Process, SignalTarget, process_group, specific_process, broadcast_all, distribute_signal,
  kill_signal_info, sys_kill,
}
use muffin.Kill.Laws.{Kills, sys_kill-Kills}

-- Process 3 may not be signalled.
abbrev three : Context
three = record {
  current_identity = record { process_id = 1; user_id = 1000; process_group_id = 5 };
  check_permission = λ pid. if pid == 3 then err eperm else ok tt;
  all_processes =
      record { process_id = 2; process_group_id = 5 }
      ∷ record { process_id = 3; process_group_id = 5 }
      ∷ record { process_id = 4; process_group_id = 6 }
      ∷ [];
}

own_group :
    sys_kill three (process_group 0) interrupt ≡ (ok 0, (2, kill_signal_info three interrupt) ∷ [])
unfolding sys_kill muffin.Kill.distribute_from muffin.Kill.distribute_round
own_group = refl

refused : (sys_kill three (specific_process 3) interrupt).0 ≡ err eperm
unfolding sys_kill
refused = refl

absent : (sys_kill three (process_group 9) interrupt).0 ≡ err esrch
unfolding sys_kill muffin.Kill.distribute_from
absent = refl

sys_kill-Kills_example :
    Kills three (process_group 0) interrupt (sys_kill three (process_group 0) interrupt)
sys_kill-Kills_example = sys_kill-Kills three (process_group 0) interrupt
