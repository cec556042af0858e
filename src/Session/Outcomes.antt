-- ===== src/Session/Outcomes.antt =====
-- Each saga of src/discode/bot/session_service.py on all its branches.
use mathlib.Core.List.{append-nil}
use discode.Base.{
  Option, Option-cases, append_two, arith, inl, inr, length, none, refl, some, ◌++◌, ◌≡◌,
}
use discode.Data.{Call, Database, EventType, Ident, get_session, is_archived, is_live, is_settled}
use discode.Session.Scope.{
  IsKeyed, admissible, after_update, get_session-update_scoped, scoped_matched, scoped_unmatched,
}
use discode.Session.Sagas.{
  begin_archive, begin_restart, begin_resume, begin_stop, run_archive_saga, run_restart_saga,
  run_resume_saga, run_stop_saga,
}
use discode.Session.Expected.{
  archive_rows, archived_next, asked_event, outcome_of, restart_answer, restart_rows,
  restarted_next, resume_rows, resumed_next, runner_row, stop_rows, stopped_next, thread_row,
}

-- `run_stop_saga` succeeds exactly for a live session of the guild. It then sets that session to
-- stopping under the next lifecycle version, and queues one job, with that version, for the host
-- that the caller or else the row names; of the rest of the database only the audit log grows, by one
-- event. Otherwise it leaves the database as it is.
pub run_stop_saga_lem :
    (c : Call) (sid guild by : Ident) (host : Option Ident) (db : Database) (other : Ident)
    → let ok = admissible sid guild is_live db in
      let (db', done) = run_stop_saga c sid guild by host db in
      (done ≡ ok)
      × (get_session other db' ≡ after_update ok (stopped_next c) sid other db)
      × (db'.redis_outbox ≡ db.redis_outbox ++ stop_rows c sid guild host db)
      × (db' ≡ outcome_of ok (asked_event c EventType.stop_requested guild sid (some by)) 1 db' db)
unfolding run_stop_saga
run_stop_saga_lem c sid guild by host db other = elim (Option-cases (get_session sid db)) [
  | inl e ↦ ground (arith, append-nil db.redis_outbox)
  | inr (s, e) ↦ ground (
    arith,
    append-nil db.redis_outbox,
    scoped_matched sid guild is_live db s e,
    get_session-update_scoped sid other guild is_live (begin_stop c) db (λ x. refl),
  )
]

-- `run_archive_saga` succeeds exactly for a running, idle or stopped session of the guild. It then
-- archives that session under the next lifecycle version, and queues a stop job with that version
-- and, if the session has a thread, its archiving; of the rest of the database only the audit
-- log grows, by one event. Otherwise it leaves the database as it is. The sessions are keyed.
pub run_archive_saga_lem :
    (c : Call) (sid guild : Ident) (db : Database) (other : Ident)
    → IsKeyed sid db
    → let ok = admissible sid guild is_settled db in
      let (db', done) = run_archive_saga c sid guild db in
      (done ≡ ok)
      × (get_session other db' ≡ after_update ok (archived_next c) sid other db)
      × (db'.redis_outbox ≡ db.redis_outbox ++ archive_rows c sid guild db)
      × (db'
          ≡ outcome_of ok
              (asked_event c EventType.archive_requested guild sid none)
              (length (archive_rows c sid guild db))
              db'
              db)
unfolding run_archive_saga
run_archive_saga_lem c sid guild db other key = elim (Option-cases (get_session sid db)) [
  | inl e ↦ ground (arith, append-nil db.redis_outbox)
  | inr (s, e) ↦ ground (
    arith,
    append-nil db.redis_outbox,
    append_two db.redis_outbox (runner_row c s guild db) (thread_row c s guild db),
    scoped_matched sid guild is_settled db s e,
    scoped_unmatched sid guild is_settled db s key e,
    get_session-update_scoped sid other guild is_settled (begin_archive c) db (λ x. refl),
  )
]

-- `run_resume_saga` succeeds exactly for an archived session of the guild. It then sets that session
-- to resuming (not to running: the runner does that) under the next lifecycle version, and queues
-- one resume job with that version; of the rest of the database only the audit log grows, by one
-- event. Otherwise it leaves the database as it is.
pub run_resume_saga_lem :
    (c : Call) (sid guild host : Ident) (db : Database) (other : Ident)
    → let ok = admissible sid guild is_archived db in
      let (db', done) = run_resume_saga c sid guild host db in
      (done ≡ ok)
      × (get_session other db' ≡ after_update ok (resumed_next c) sid other db)
      × (db'.redis_outbox ≡ db.redis_outbox ++ resume_rows c sid guild host db)
      × (db' ≡ outcome_of ok (asked_event c EventType.resume_requested guild sid none) 1 db' db)
unfolding run_resume_saga
run_resume_saga_lem c sid guild host db other = elim (Option-cases (get_session sid db)) [
  | inl e ↦ ground (arith, append-nil db.redis_outbox)
  | inr (s, e) ↦ ground (
    arith,
    append-nil db.redis_outbox,
    scoped_matched sid guild is_archived db s e,
    get_session-update_scoped sid other guild is_archived (begin_resume c) db (λ x. refl),
  )
]

-- `run_restart_saga` succeeds exactly for a running, idle or stopped session of the guild. It then
-- forgets the resume token and sets that session to resuming under the next lifecycle version, and
-- queues one restart job with that version; of the rest of the database only the audit log grows, by
-- one event. Otherwise it reports which error it is and leaves the database as it is. The sessions
-- are keyed.
pub run_restart_saga_lem :
    (c : Call) (sid guild by : Ident) (db : Database) (other : Ident)
    → IsKeyed sid db
    → let ok = admissible sid guild is_settled db in
      let (db', answer) = run_restart_saga c sid guild by db in
      (answer ≡ restart_answer sid guild db)
      × (get_session other db' ≡ after_update ok (restarted_next c) sid other db)
      × (db'.redis_outbox ≡ db.redis_outbox ++ restart_rows c sid guild db)
      × (db'
          ≡ outcome_of ok (asked_event c EventType.restart_requested guild sid (some by)) 1 db' db)
unfolding run_restart_saga
run_restart_saga_lem c sid guild by db other key = elim (Option-cases (get_session sid db)) [
  | inl e ↦ ground (arith, append-nil db.redis_outbox)
  | inr (s, e) ↦ ground (
    arith,
    append-nil db.redis_outbox,
    scoped_matched sid guild is_settled db s e,
    scoped_unmatched sid guild is_settled db s key e,
    get_session-update_scoped sid other guild is_settled (begin_restart c) db (λ x. refl),
  )
]
