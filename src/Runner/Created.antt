-- ===== src/Runner/Created.antt =====
-- What a create job makes of its session: `run_create_job` of src/discode/runner/saga_create.py.
use discode.Base.{
  List, Option, Option-cases, [], arith, coalesce, false, find, find-update_where, find_sound,
  if◌then◌else◌, inl, inr, refl, rowcount, rowcount-narrow, rowcount_pos, rowcount_unmatched, some,
  true, update_where, update_where_none, ◌++◌, ◌==◌, ◌∷◌, ◌≡◌, ◌≤◌,
}
use discode.Data.{
  Call, CreateSession, Database, Envelope, Ident, Message, Producer, Reason, RedisOutbox, Session,
  StreamKey, get_session, has_id, is_creating, outbox_row,
}
use discode.Config.{Settings, execution_allowed}
use discode.Session.Scope.{IsKeyed}
use discode.Create.Supersede.{awaits, clear_reason, release_superseded}
use discode.Runner.Create.{
  CreateJobResult, World, fail_and_notify, fail_session, get_adapter, is_creating_id,
  mint_initial_token, notice, run_create_job, set_running, start_running,
}
use discode.Runner.Expected.{revalidated, settled_creation}

abbrev pub failed_rows : Ident → Reason → List Session → List Session
failed_rows sid reason l = update_where (is_creating_id sid) (fail_session reason) l

pub failed_sessions :
    (c : Call) (p : CreateSession) (reason : Reason) (db : Database)
    → (fail_and_notify c p reason db).sessions ≡ (
        if rowcount (is_creating_id p.session_id) db.sessions == 0
        then db.sessions
        else release_superseded p.session_id (failed_rows p.session_id reason db.sessions))
unfolding fail_and_notify
failed_sessions c p reason db = ground arith

abbrev pub notice_row : World → Envelope → Database → RedisOutbox
notice_row w e db =
    outbox_row db.next_outbox_id w.call.now Producer.runner StreamKey.discord_outbound e

released_failed :
    (sid : Ident) (reason : Reason) (s : Session) (l : List Session)
    → find (has_id sid) l ≡ some s
    → is_creating s.status ≡ true
    → find (has_id sid) (release_superseded sid (failed_rows sid reason l))
      ≡ some (fail_session reason s)
unfolding release_superseded
released_failed sid reason s l h e = ground (
  arith,
  find_sound (has_id sid) l s h,
  find-update_where (has_id sid) (is_creating_id sid) (fail_session reason) (λ x m. refl) l,
  find-update_where (has_id sid) (awaits sid) clear_reason (λ x m. refl) (failed_rows sid reason l),
)

creating_matched :
    (sid : Ident) (s : Session) (l : List Session)
    → find (has_id sid) l ≡ some s
    → is_creating s.status ≡ true
    → (rowcount (is_creating_id sid) l == 0) ≡ false
creating_matched sid s l h e =
    rowcount_pos (has_id sid) (is_creating_id sid) l s h
      (ground (arith, find_sound (has_id sid) l s h))

failed_creation :
    (c : Call) (p : CreateSession) (reason : Reason) (s : Session) (db : Database)
    → get_session p.session_id db ≡ some s
    → is_creating s.status ≡ true
    → let db' = fail_and_notify c p reason db in
      (get_session p.session_id db' ≡ some (fail_session reason s))
      × (db'.redis_outbox
          ≡ db.redis_outbox
            ++ outbox_row db.next_outbox_id c.now Producer.runner StreamKey.discord_outbound (
                notice
                  (c.uuid 0)
                  p.session_id
                  (some p.guild_id)
                  p.thread_id
                  (Message.create_failed reason))
              ∷ [])
failed_creation c p reason s db h e =
    let n = creating_matched p.session_id s db.sessions h e in
    (
      rw (failed_sessions c p reason db, n) (released_failed p.session_id reason s db.sessions h e),
      unfold fail_and_notify in rw n,
    )

-- Exactly one row is in 'creating' under a primary key.
one_creating :
    (sid : Ident) (s : Session) (l : List Session)
    → rowcount (has_id sid) l ≤ 1
    → find (has_id sid) l ≡ some s
    → is_creating s.status ≡ true
    → (rowcount (is_creating_id sid) l == 1) ≡ true
one_creating sid s l key h e =
    let low = creating_matched sid s l h e in
    let high = rowcount-narrow (has_id sid) (is_creating_id sid) l (λ z m. ground arith) in
    ground arith

started_creation :
    (c : Call) (host : Ident) (p : CreateSession) (token : Option Ident) (s : Session)
    (db : Database)
    → IsKeyed p.session_id db
    → get_session p.session_id db ≡ some s
    → is_creating s.status ≡ true
    → let db' = (start_running c host p token db).0 in
      (get_session p.session_id db' ≡ some (set_running c host p token s))
      × (db'.redis_outbox
          ≡ db.redis_outbox
            ++ outbox_row db.next_outbox_id c.now Producer.runner StreamKey.discord_outbound
                (notice (c.uuid 1) p.session_id (some p.guild_id) p.thread_id Message.session_ready)
              ∷ [])
unfolding start_running
started_creation c host p token s db key h e = ground (
  arith,
  one_creating p.session_id s db.sessions key h e,
  find_sound (has_id p.session_id) db.sessions s h,
  find-update_where (has_id p.session_id) (is_creating_id p.session_id) (set_running c host p token)
      (λ x m. refl) db.sessions,
)

-- what other processes do before a transaction of the job does not matter here: they do nothing
abbrev pub alone : World → World
alone w = record w { between = λ n db. db }

-- A create job that nothing disturbs settles a session in 'creating': it runs on the host, with the
-- token of the request or a minted one, if the workspace is not denied and within a root of the
-- guild that its owner may use on the host, and the tool is enabled; otherwise it fails with the
-- reason. Exactly one notice tells which. The policy allows execution, and the sessions are keyed.
pub run_create_job_settles :
    (cfg : Settings) (w : World) (host : Ident) (p : CreateSession) (s : Session) (db : Database)
    → execution_allowed cfg ≡ true
    → IsKeyed p.session_id db
    → get_session p.session_id db ≡ some s
    → is_creating s.status ≡ true
    → let (s', notice) = settled_creation w host p s db in
      let db' = (run_create_job cfg (alone w) host p db).0 in
      (get_session p.session_id db' ≡ some s')
      × (db'.redis_outbox ≡ db.redis_outbox ++ notice_row w notice db ∷ [])
unfolding run_create_job
run_create_job_settles cfg w host p s db ok key h e = elim (revalidated w.realpath p host db) [
  | inl (may, v) ↦ elim (Option-cases (get_adapter p.tool db)) [
    | inl n ↦ ground (arith, failed_creation w.call p Reason.tool_unavailable s db h e)
    | inr (d, f) ↦ ground (
      arith,
      started_creation w.call host p (coalesce p.resume_token (mint_initial_token w.call d)) s db
          key h e,
    )
  ]
  | inr (inl (may, v)) ↦ ground (arith, failed_creation w.call p Reason.cwd_invalid s db h e)
  | inr (inr (may, (r, v))) ↦ ground (arith, failed_creation w.call p Reason.cwd_invalid s db h e)
]

-- A create job whose session has left 'creating' by its last transaction (the watchdog failed it,
-- say) changes nothing in it.
start_running_late :
    (c : Call) (host : Ident) (p : CreateSession) (token : Option Ident) (s : Session)
    (db : Database)
    → IsKeyed p.session_id db
    → get_session p.session_id db ≡ some s
    → is_creating s.status ≡ false
    → (j : Ident)
    → let (db', result) = start_running c host p token db in
      (get_session j db' ≡ get_session j db)
      × (db'.redis_outbox ≡ db.redis_outbox)
      × (result ≡ CreateJobResult.skipped)
unfolding start_running
start_running_late c host p token s db key h n j =
    let none_left =
      rowcount_unmatched (has_id p.session_id) (is_creating_id p.session_id) db.sessions s
        (λ z m. ground arith) h (ground (arith, find_sound (has_id p.session_id) db.sessions s h))
        key in
    (
      ground (
        arith,
        none_left,
        update_where_none (is_creating_id p.session_id) (set_running c host p token) db.sessions,
      ),
      ground (arith, none_left),
      ground (arith, none_left),
    )
