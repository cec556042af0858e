-- ===== src/Program/Turns.antt =====
-- The transactions of `Operation` and the table of turns: `KeepsTurns` of each.
use discode.Base.{
  Bool, List, Option, Option-cases, [], arith, find-append, inl, inr, refl, suc, update_where, ℕ,
  ◌*◌, ◌∙◌, ◌∷◌, ◌≡◌,
}
use discode.Data.{
  Call, Database, Ident, Message, Reason, Session, Text, Time, get_session, get_turn, has_key,
  update_sessions,
}
use discode.Config.{Settings}
use discode.Paths.{Workspace}
use discode.Session.Sagas.{run_archive_saga, run_restart_saga, run_resume_saga, run_stop_saga}
use discode.Session.Binding.{bind_session_thread}
use discode.Session.Members.{invite_user_to_session}
use discode.Input.Saga.{queued_turn, run_input_saga}
use discode.Create.Saga.{run_create_saga}
use discode.Turn.System.{KeepsTurns}
use discode.Runner.Create.{fail_and_notify, fail_session, start_running}
use discode.Runner.Resume.{orphan_session}
use discode.Runner.Recover.{recover_session}
use discode.Janitor.Timeouts.{
  archive_inactive, each_row, fail_creation, is_archive_due, is_creation_stuck, is_resume_stuck,
  is_stop_due, returned, stop_inactive, stop_row, sweep_archive_timeout, sweep_creating_watchdog,
  sweep_idle_timeout, sweep_resuming_watchdog, sweep_stop_timeout, sweep_stopping_watchdog,
  tell_archived, tell_final,
}
use discode.Janitor.Hosts.{
  heartbeat, is_on_lost_host, is_stale_host, mark_runner_offline, set_offline,
  sweep_runner_heartbeat_orphans,
}
use discode.Janitor.Retention.{sweep_events, sweep_outbox, sweep_turn_results-KeepsTurns}
use discode.Program.Operations.{Operation, run}

same_turns : (db db' : Database) → db'.input_turns ≡ db.input_turns → KeepsTurns db db'
same_turns db db' e k = elim (Option-cases (get_turn k db)) [
  | inl n ↦ ground arith
  | inr (t, f) ↦ ground arith
]

each_row-turns :
    (body : ℕ → Session → Database → Database)
    → ((uuid : ℕ) (s : Session) (db : Database) → (body uuid s db).input_turns ≡ db.input_turns)
    → (uuid : ℕ) (rows : List Session) (db : Database)
    → (each_row body uuid rows db).input_turns ≡ db.input_turns
each_row-turns body same uuid [] db = refl
each_row-turns body same uuid (s ∷ rows) db =
    each_row-turns body same (suc uuid) rows (body uuid s db) ∙ same uuid s db

-- an UPDATE of sessions, and a loop over its rows
update_each-turns :
    (p : Session → Bool) (f : Session → Session) (body : ℕ → Session → Database → Database)
    (db : Database)
    → ((uuid : ℕ) (s : Session) (d : Database) → (body uuid s d).input_turns ≡ d.input_turns)
    → (each_row body 0 (returned p f db) (update_sessions p f db)).input_turns ≡ db.input_turns
update_each-turns p f body db same =
    each_row-turns body same 0 (returned p f db) (update_sessions p f db)

-- A message that is accepted adds a turn behind the others.
input-KeepsTurns :
    (cfg : Settings) (clock : Time) (c : Call) (sid guild owner : Ident) (actor : Option Ident)
    (text : Text) (db : Database)
    → KeepsTurns db (run_input_saga cfg clock c sid guild owner actor text db).0
unfolding run_input_saga
input-KeepsTurns cfg clock c sid guild owner actor text db k =
    elim (Option-cases (get_session sid db)) [
      | inl n ↦ elim (Option-cases (get_turn k db)) [
        | inl e ↦ ground arith
        | inr (t, e) ↦ ground arith
      ]
      | inr (s, f) ↦ elim (Option-cases (get_turn k db)) [
        | inl e ↦ ground arith
        | inr (t, e) ↦
            ground (arith, find-append (has_key k) db.input_turns (queued_turn c s db ∷ []) t e)
      ]
    ]

recover-turns :
    (v : Option Workspace) (s : Session) (db : Database)
    → (recover_session v s db).input_turns ≡ db.input_turns
recover-turns v s db = ground arith

module _ (cfg : Settings) (db : Database) where
  abbrev Keeps : Operation → Type 0
  Keeps op = (run cfg op db).input_turns ≡ db.input_turns

  sweep_turns :
      (c : Call) (n m : ℕ)
      → Keeps (Operation.creating_watchdog c n)
        × Keeps (Operation.resuming_watchdog c n)
        × Keeps (Operation.archive_timeout c n)
        × Keeps (Operation.stop_timeout c n)
        × Keeps (Operation.heartbeat_orphans c n m)
  unfolding run sweep_creating_watchdog sweep_resuming_watchdog sweep_archive_timeout
      sweep_stop_timeout sweep_runner_heartbeat_orphans
  sweep_turns c n m =
      let hosts = update_where (is_stale_host c.now n) set_offline db.runner_hosts in
      (
        update_each-turns (is_creation_stuck c.now n) (fail_session Reason.creation_timeout)
            (fail_creation c) db (λ u s d. refl),
        update_each-turns (is_resume_stuck c.now n) (orphan_session Reason.resume_stuck)
            (tell_final c Message.resume_timed_out) db (λ u s d. refl),
        update_each-turns (is_archive_due c.now (60 * n) db) (archive_inactive c.now)
            (tell_archived c) db (λ u s d. ground arith),
        update_each-turns (is_stop_due c.now (3600 * n) db) (stop_inactive c.now) (stop_row c) db
            (λ u s d. ground arith),
        update_each-turns (is_on_lost_host c.now (3600 * m) hosts) (fail_session Reason.runner_lost)
            (tell_final c Message.host_lost) (record db { runner_hosts = hosts }) (λ u s d. refl),
      )

  pub run-KeepsTurns : (op : Operation) → KeepsTurns db (run cfg op db)
  unfolding run
  run-KeepsTurns (Operation.create c q) =
      same_turns db (run cfg (Operation.create c q) db) (unfold run_create_saga in ground arith)
  run-KeepsTurns (Operation.stop c sid guild by host) =
      same_turns db (run cfg (Operation.stop c sid guild by host) db)
        (unfold run_stop_saga in ground arith)
  run-KeepsTurns (Operation.archive c sid guild) =
      same_turns db (run cfg (Operation.archive c sid guild) db)
        (unfold run_archive_saga in ground arith)
  run-KeepsTurns (Operation.resume c sid guild host) =
      same_turns db (run cfg (Operation.resume c sid guild host) db)
        (unfold run_resume_saga in ground arith)
  run-KeepsTurns (Operation.restart c sid guild by) =
      same_turns db (run cfg (Operation.restart c sid guild by) db)
        (unfold run_restart_saga in ground arith)
  run-KeepsTurns (Operation.invite c sid guild invitee) =
      same_turns db (run cfg (Operation.invite c sid guild invitee) db)
        (unfold invite_user_to_session in ground arith)
  run-KeepsTurns (Operation.bind_thread sid thread) =
      same_turns db (run cfg (Operation.bind_thread sid thread) db)
        (unfold bind_session_thread in ground arith)
  run-KeepsTurns (Operation.send_input clock c sid guild owner actor text) =
      input-KeepsTurns cfg clock c sid guild owner actor text db
  run-KeepsTurns (Operation.fail_create c p reason) =
      same_turns db (run cfg (Operation.fail_create c p reason) db)
        (unfold fail_and_notify in ground arith)
  run-KeepsTurns (Operation.start_session c host p token) =
      same_turns db (run cfg (Operation.start_session c host p token) db)
        (unfold start_running in ground arith)
  run-KeepsTurns (Operation.refuse c p s) =
      same_turns db (run cfg (Operation.refuse c p s) db) (ground arith)
  run-KeepsTurns (Operation.complete c p s token) =
      same_turns db (run cfg (Operation.complete c p s token) db) (ground arith)
  run-KeepsTurns (Operation.abandon c p s) =
      same_turns db (run cfg (Operation.abandon c p s) db) refl
  run-KeepsTurns (Operation.finish_stop p) =
      same_turns db (run cfg (Operation.finish_stop p) db) refl
  run-KeepsTurns (Operation.recover v s) =
      same_turns db (run cfg (Operation.recover v s) db) (recover-turns v s db)
  run-KeepsTurns (Operation.beat now id) =
      same_turns db (run cfg (Operation.beat now id) db) (unfold heartbeat in refl)
  run-KeepsTurns (Operation.go_offline id) =
      same_turns db (run cfg (Operation.go_offline id) db) (unfold mark_runner_offline in refl)
  run-KeepsTurns (Operation.creating_watchdog c n) =
      same_turns db (run cfg (Operation.creating_watchdog c n) db) (sweep_turns c n 0).0
  run-KeepsTurns (Operation.resuming_watchdog c n) =
      same_turns db (run cfg (Operation.resuming_watchdog c n) db) (sweep_turns c n 0).1
  run-KeepsTurns (Operation.stopping_watchdog c n) =
      same_turns db (run cfg (Operation.stopping_watchdog c n) db)
        (unfold sweep_stopping_watchdog in refl)
  run-KeepsTurns (Operation.idle_timeout c n) =
      same_turns db (run cfg (Operation.idle_timeout c n) db) (unfold sweep_idle_timeout in refl)
  run-KeepsTurns (Operation.archive_timeout c n) =
      same_turns db (run cfg (Operation.archive_timeout c n) db) (sweep_turns c n 0).2
  run-KeepsTurns (Operation.stop_timeout c n) =
      same_turns db (run cfg (Operation.stop_timeout c n) db) (sweep_turns c n 0).3
  run-KeepsTurns (Operation.heartbeat_orphans c n m) =
      same_turns db (run cfg (Operation.heartbeat_orphans c n m) db) (sweep_turns c n m).4
  run-KeepsTurns (Operation.drift_dead_letter m sid) =
      same_turns db (run cfg (Operation.drift_dead_letter m sid) db) (ground arith)
  run-KeepsTurns (Operation.drift_failure m sid) =
      same_turns db (run cfg (Operation.drift_failure m sid) db) (ground arith)
  run-KeepsTurns (Operation.drift_clear sid) =
      same_turns db (run cfg (Operation.drift_clear sid) db) refl
  run-KeepsTurns (Operation.retain_events now old batch) =
      same_turns db (run cfg (Operation.retain_events now old batch) db)
        (unfold sweep_events in refl)
  run-KeepsTurns (Operation.retain_outbox now old batch) =
      same_turns db (run cfg (Operation.retain_outbox now old batch) db)
        (unfold sweep_outbox in refl)
  run-KeepsTurns (Operation.retain_results now old batch) =
      sweep_turn_results-KeepsTurns now old batch db
