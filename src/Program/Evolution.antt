-- ===== src/Program/Evolution.antt =====
-- The transactions of `Operation` and the table of sessions: `Evolves` of each.
use discode.Base.{arith, refl, true}
use discode.Data.{Database}
use discode.Config.{Settings}
use discode.Lifecycle.{Evolves, Evolves-same, Evolves-update}
use discode.Session.Moves.{
  bind_session_thread-Evolves, invite_user_to_session-Evolves, run_archive_saga-Evolves,
  run_restart_saga-Evolves, run_resume_saga-Evolves, run_stop_saga-Evolves,
}
use discode.Input.Quota.{run_input_saga-Evolves}
use discode.Create.Limit.{run_create_saga-Evolves}
use discode.Runner.CreateMoves.{fail_and_notify-Evolves, start_running-Evolves}
use discode.Runner.ResumeMoves.{
  abandon_resume-Evolves, complete_resume-Evolves, refuse_resume-Evolves,
}
use discode.Runner.RecoverMoves.{recover_session-Evolves, stop_session-Evolves}
use discode.Janitor.Hosts.{heartbeat, mark_runner_offline, sweep_runner_heartbeat_orphans-Evolves}
use discode.Janitor.Drift.{clear_marker, dead_letter-Evolves, fail_repair-Evolves, is_marked}
use discode.Janitor.Retention.{sweep_events, sweep_outbox, sweep_turn_results}
use discode.Janitor.Moves.{
  sweep_archive_timeout-Evolves, sweep_creating_watchdog-Evolves, sweep_idle_timeout-Evolves,
  sweep_resuming_watchdog-Evolves, sweep_stopping_watchdog-Evolves,
}
use discode.Janitor.StopSweep.{AreKeyed, sweep_stop_timeout-Evolves}
use discode.Program.Operations.{Operation, run}

pub run-Evolves :
    (cfg : Settings) (op : Operation) (db : Database)
    → AreKeyed db.sessions
    → Evolves db.sessions (run cfg op db).sessions
unfolding run
run-Evolves cfg (Operation.create c q) db key = run_create_saga-Evolves cfg c q db
run-Evolves cfg (Operation.stop c sid guild by host) db key =
    run_stop_saga-Evolves c sid guild by host db
run-Evolves cfg (Operation.archive c sid guild) db key = run_archive_saga-Evolves c sid guild db
run-Evolves cfg (Operation.resume c sid guild host) db key =
    run_resume_saga-Evolves c sid guild host db
run-Evolves cfg (Operation.restart c sid guild by) db key =
    run_restart_saga-Evolves c sid guild by db
run-Evolves cfg (Operation.invite c sid guild invitee) db key =
    invite_user_to_session-Evolves c sid guild invitee db
run-Evolves cfg (Operation.bind_thread sid thread) db key =
    bind_session_thread-Evolves sid thread db
run-Evolves cfg (Operation.send_input clock c sid guild owner actor text) db key =
    run_input_saga-Evolves cfg clock c sid guild owner actor text db
run-Evolves cfg (Operation.fail_create c p reason) db key = fail_and_notify-Evolves c p reason db
run-Evolves cfg (Operation.start_session c host p token) db key =
    start_running-Evolves c host p token db
run-Evolves cfg (Operation.refuse c p s) db key = refuse_resume-Evolves c p s db
run-Evolves cfg (Operation.complete c p s token) db key = complete_resume-Evolves c p s token db
run-Evolves cfg (Operation.abandon c p s) db key = abandon_resume-Evolves c p s db
run-Evolves cfg (Operation.finish_stop p) db key = stop_session-Evolves p db
run-Evolves cfg (Operation.recover v s) db key = recover_session-Evolves v s db
run-Evolves cfg (Operation.beat now id) db key =
    Evolves-same db.sessions _ (unfold heartbeat in refl)
run-Evolves cfg (Operation.go_offline id) db key =
    Evolves-same db.sessions _ (unfold mark_runner_offline in refl)
run-Evolves cfg (Operation.creating_watchdog c limit) db key =
    sweep_creating_watchdog-Evolves c limit db
run-Evolves cfg (Operation.resuming_watchdog c limit) db key =
    sweep_resuming_watchdog-Evolves c limit db
run-Evolves cfg (Operation.stopping_watchdog c limit) db key =
    sweep_stopping_watchdog-Evolves c limit db
run-Evolves cfg (Operation.idle_timeout c minutes) db key = sweep_idle_timeout-Evolves c minutes db
run-Evolves cfg (Operation.archive_timeout c minutes) db key =
    sweep_archive_timeout-Evolves c minutes db
run-Evolves cfg (Operation.stop_timeout c hours) db key = sweep_stop_timeout-Evolves c hours db key
run-Evolves cfg (Operation.heartbeat_orphans c stale hours) db key =
    sweep_runner_heartbeat_orphans-Evolves c stale hours db
run-Evolves cfg (Operation.drift_dead_letter m sid) db key = dead_letter-Evolves m sid db
run-Evolves cfg (Operation.drift_failure m sid) db key = fail_repair-Evolves m sid db
run-Evolves cfg (Operation.drift_clear sid) db key =
    Evolves-update (is_marked sid) clear_marker db.sessions _ true (λ s. refl)
      (λ i s h e d. ground arith) refl
run-Evolves cfg (Operation.retain_events now old batch) db key =
    Evolves-same db.sessions _ (unfold sweep_events in refl)
run-Evolves cfg (Operation.retain_outbox now old batch) db key =
    Evolves-same db.sessions _ (unfold sweep_outbox in refl)
run-Evolves cfg (Operation.retain_results now old batch) db key =
    Evolves-same db.sessions _ (unfold sweep_turn_results in ground arith)
