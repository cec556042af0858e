-- ===== src/Program/Operations.antt =====
-- The modelled transactions of the bot, the runner and the janitor that are not phases of a turn,
-- each with what it draws from outside.
use discode.Base.{Bool, Option, ℕ}
use discode.Data.{
  Call, CreateSession, Database, Event, Ident, InputTurn, LifecycleJob, Reason, RedisOutbox,
  Session, Text, Time, update_sessions,
}
use discode.Config.{Settings}
use discode.Paths.{Workspace}
use discode.Session.Sagas.{run_archive_saga, run_restart_saga, run_resume_saga, run_stop_saga}
use discode.Session.Binding.{bind_session_thread}
use discode.Session.Members.{invite_user_to_session}
use discode.Input.Saga.{run_input_saga}
use discode.Create.Saga.{Request, run_create_saga}
use discode.Runner.Create.{fail_and_notify, start_running}
use discode.Runner.Resume.{abandon_resume, complete_resume, refuse_resume}
use discode.Runner.Recover.{recover_session}
use discode.Runner.Dispatch.{stop_session}
use discode.Janitor.Timeouts.{
  sweep_archive_timeout, sweep_creating_watchdog, sweep_idle_timeout, sweep_resuming_watchdog,
  sweep_stop_timeout, sweep_stopping_watchdog,
}
use discode.Janitor.Hosts.{heartbeat, mark_runner_offline, sweep_runner_heartbeat_orphans}
use discode.Janitor.Drift.{clear_marker, dead_letter, fail_repair, is_marked}
use discode.Janitor.Retention.{sweep_events, sweep_outbox, sweep_turn_results}

pub data Operation : Type 0 where
  -- src/discode/bot
  create : Call → Request → Operation
  stop : Call → Ident → Ident → Ident → Option Ident → Operation
  archive : Call → Ident → Ident → Operation
  resume : Call → Ident → Ident → Ident → Operation
  restart : Call → Ident → Ident → Ident → Operation
  invite : Call → Ident → Ident → Ident → Operation
  bind_thread : Ident → Ident → Operation
  send_input : Time → Call → Ident → Ident → Ident → Option Ident → Text → Operation
  -- src/discode/runner
  fail_create : Call → CreateSession → Reason → Operation
  start_session : Call → Ident → CreateSession → Option Ident → Operation
  refuse : Call → LifecycleJob → Session → Operation
  complete : Call → LifecycleJob → Session → Option Ident → Operation
  abandon : Call → LifecycleJob → Session → Operation
  finish_stop : LifecycleJob → Operation
  recover : Option Workspace → Session → Operation
  beat : Time → Ident → Operation
  go_offline : Ident → Operation
  -- src/discode/janitor
  creating_watchdog resuming_watchdog stopping_watchdog : Call → ℕ → Operation
  idle_timeout archive_timeout stop_timeout : Call → ℕ → Operation
  heartbeat_orphans : Call → ℕ → ℕ → Operation
  drift_dead_letter drift_failure : ℕ → Ident → Operation
  drift_clear : Ident → Operation
  retain_events : Time → ℕ → (Event → Bool) → Operation
  retain_outbox : Time → ℕ → (RedisOutbox → Bool) → Operation
  retain_results : Time → Option ℕ → (InputTurn → Bool) → Operation

unfoldable pub run : Settings → Operation → Database → Database
run cfg (Operation.create c q) db = (run_create_saga cfg c q db).0
run cfg (Operation.stop c sid guild by host) db = (run_stop_saga c sid guild by host db).0
run cfg (Operation.archive c sid guild) db = (run_archive_saga c sid guild db).0
run cfg (Operation.resume c sid guild host) db = (run_resume_saga c sid guild host db).0
run cfg (Operation.restart c sid guild by) db = (run_restart_saga c sid guild by db).0
run cfg (Operation.invite c sid guild invitee) db =
    (invite_user_to_session c sid guild invitee db).0
run cfg (Operation.bind_thread sid thread) db = (bind_session_thread sid thread db).0
run cfg (Operation.send_input clock c sid guild owner actor text) db =
    (run_input_saga cfg clock c sid guild owner actor text db).0
run cfg (Operation.fail_create c p reason) db = fail_and_notify c p reason db
run cfg (Operation.start_session c host p token) db = (start_running c host p token db).0
run cfg (Operation.refuse c p s) db = refuse_resume c p s db
run cfg (Operation.complete c p s token) db = (complete_resume c p s token db).0
run cfg (Operation.abandon c p s) db = abandon_resume c p s db
run cfg (Operation.finish_stop p) db = stop_session p db
run cfg (Operation.recover v s) db = recover_session v s db
run cfg (Operation.beat now id) db = heartbeat now id db
run cfg (Operation.go_offline id) db = mark_runner_offline id db
run cfg (Operation.creating_watchdog c limit) db = (sweep_creating_watchdog c limit db).0
run cfg (Operation.resuming_watchdog c limit) db = (sweep_resuming_watchdog c limit db).0
run cfg (Operation.stopping_watchdog c limit) db = (sweep_stopping_watchdog c limit db).0
run cfg (Operation.idle_timeout c minutes) db = (sweep_idle_timeout c minutes db).0
run cfg (Operation.archive_timeout c minutes) db = (sweep_archive_timeout c minutes db).0
run cfg (Operation.stop_timeout c hours) db = (sweep_stop_timeout c hours db).0
run cfg (Operation.heartbeat_orphans c stale hours) db =
    (sweep_runner_heartbeat_orphans c stale hours db).0
run cfg (Operation.drift_dead_letter m sid) db = (dead_letter m sid db).0
run cfg (Operation.drift_failure m sid) db = (fail_repair m sid db).0
run cfg (Operation.drift_clear sid) db = update_sessions (is_marked sid) clear_marker db
run cfg (Operation.retain_events now old batch) db = (sweep_events now old batch db).0
run cfg (Operation.retain_outbox now old batch) db = (sweep_outbox now old batch db).0
run cfg (Operation.retain_results now old batch) db = (sweep_turn_results now old batch db).0
