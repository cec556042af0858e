-- ===== src/Examples/Sagas.antt =====
-- The theorems on the bot's sagas, at the sessions of the fixtures.
use discode.Base.{[], arith, false, none, refl, some, true, ◌+◌, ◌∷◌, ◌≡◌, ◌≤◌}
use discode.Data.{Envelope, EventType, Producer, Session, StreamKey, get_session, outbox_row}
use discode.Config.{Settings}
use discode.Text.{codes, is_space, lstrip, strip, text_eq, utf8_length}
use discode.Session.Sagas.{
  Restarted, run_archive_saga, run_restart_saga, run_resume_saga, run_stop_saga,
}
use discode.Session.Expected.{asked_event, next_job, outcome_of, resumed_next, stopped_next}
use discode.Session.Outcomes.{
  run_archive_saga_lem, run_restart_saga_lem, run_resume_saga_lem, run_stop_saga_lem,
}
use discode.Session.Members.{invite_user_to_session, is_session_member}
use discode.Session.Invited.{invitee_is_member}
use discode.Input.Saga.{Answer, bytes_recent, length_recent, run_input_saga}
use discode.Input.Quota.{is_accepted, run_input_saga_quota}
use discode.Create.Saga.{active_session_count, latest, run_create_saga}
use discode.Create.Limit.{is_created, run_create_saga_limit}
use discode.Lifecycle.Registry.{registered}
use discode.Program.Unregistered.{restart_unregistered}
use discode.Program.Uncounted.{resume_uncounted}
use discode.Examples.Fixtures.{alice, archived, call, cfg, db, request}

run_stop_saga_lem_example :
    let (db', done) = run_stop_saga call 1 7 5 none db in
    (done ≡ true)
    × (get_session 1 db' ≡ some (stopped_next call alice))
    × (db'.redis_outbox
        ≡ outbox_row 1 1000 Producer.bot
            (StreamKey.runner_jobs (some 6))
            (Envelope.stop_session (next_job call alice 7 (some 6) none))
          ∷ [])
    × (db' ≡ outcome_of true (asked_event call EventType.stop_requested 7 1 (some 5)) 1 db' db)
run_stop_saga_lem_example = run_stop_saga_lem call 1 7 5 none db 1

run_archive_saga_lem_example :
    let (db', done) = run_archive_saga call 1 8 db in
    (done ≡ false) × (get_session 1 db' ≡ some alice) × (db'.redis_outbox ≡ []) × (db' ≡ db)
run_archive_saga_lem_example = run_archive_saga_lem call 1 8 db 1 (omega arith)

run_resume_saga_lem_example :
    let (db', done) = run_resume_saga call 2 7 6 db in
    (done ≡ true)
    × (get_session 2 db' ≡ some (resumed_next call archived))
    × (db'.redis_outbox
        ≡ outbox_row 1 1000 Producer.bot
            (StreamKey.runner_jobs (some 6))
            (Envelope.resume_session (next_job call archived 7 (some 6) (some 9)))
          ∷ [])
    × (db' ≡ outcome_of true (asked_event call EventType.resume_requested 7 2 none) 1 db' db)
run_resume_saga_lem_example = run_resume_saga_lem call 2 7 6 db 2

run_restart_saga_lem_example :
    let (db', answer) = run_restart_saga call 2 7 5 db in
    (answer ≡ Restarted.not_restartable)
    × (get_session 2 db' ≡ some archived)
    × (db'.redis_outbox ≡ [])
    × (db' ≡ db)
run_restart_saga_lem_example = run_restart_saga_lem call 2 7 5 db 2 (omega arith)

restarted_here : (run_restart_saga call 1 7 5 db).1 ≡ Restarted.restarted 1
unfolding run_restart_saga
restarted_here = refl

restart_unregistered_example :
    (s' : Session) × (get_session 1 (run_restart_saga call 1 7 5 db).0 ≡ some s')
    × (registered alice.status s'.status ≡ false)
restart_unregistered_example =
    restart_unregistered call 1 7 5 alice db (omega arith) refl restarted_here

accepted_here :
    (run_input_saga cfg 1000 call 1 7 5 none (codes "hi") db).1 ≡ Answer.accepted (call.uuid 0)
unfolding run_input_saga strip lstrip is_space utf8_length
accepted_here = refl

run_input_saga_quota_example :
    let db' = (run_input_saga cfg 1000 call 1 7 5 none (codes "hi") db).0 in
    (length_recent 1000 1 db' ≡ length_recent 1000 1 db + 1)
    × (bytes_recent 1000 1 db' ≡ bytes_recent 1000 1 db + utf8_length (codes "hi"))
    × (length_recent 1000 1 db' ≤ 5)
    × (bytes_recent 1000 1 db' ≤ 200)
    × (utf8_length (codes "hi") ≤ 100)
run_input_saga_quota_example =
    run_input_saga_quota cfg 1000 call 1 7 5 none (codes "hi") db accepted_here

refused_here : is_accepted (run_input_saga cfg 1000 call 2 7 5 none (codes "hi") db).1 ≡ false
unfolding run_input_saga strip lstrip is_space utf8_length
refused_here = refl

created_here : is_created (run_create_saga cfg call request db).1 ≡ true
unfolding run_create_saga latest text_eq
created_here = refl

run_create_saga_limit_example :
    let count = active_session_count db 7 5 in
    let count' = active_session_count (run_create_saga cfg call request db).0 7 5 in
    (count' ≡ count + 1) × (count' ≤ 3)
run_create_saga_limit_example = run_create_saga_limit cfg call request db created_here

abbrev narrow : Settings
narrow = record cfg { max_active_sessions_per_user = 2 }

limited_here : is_created (run_create_saga narrow call request db).1 ≡ false
unfolding run_create_saga latest text_eq
limited_here = refl

invitee_is_member_example :
    let (db', done) = invite_user_to_session call 1 7 44 db in
    (done ≡ true) × (is_session_member 1 44 db' ≡ true)
unfolding invite_user_to_session
invitee_is_member_example = invitee_is_member call 1 7 44 db 1 44

resume_uncounted_example :
    active_session_count (run_resume_saga call 2 7 6 db).0 7 5 ≡ active_session_count db 7 5 + 1
resume_uncounted_example =
    resume_uncounted call 2 7 6 5 archived db (omega arith) refl refl refl refl
