-- ===== src/Session/Binding.antt =====
-- src/discode/bot/session_service.py: `bind_session_thread`.
use discode.Base.{
  Bool, any, false, if◌then◌else◌, is_set, none, not, rowcount, some, update_where, ◌&&◌, ◌==◌,
  ◌=?◌,
}
use discode.Data.{
  Database, Envelope, Ident, RedisOutbox, Session, get_session, has_id, update_sessions,
}

-- `BindThreadResult`: success, or the failure's status_reason (and error) as the code sets them
pub data BindThreadResult : Type 0 where
  bound : BindThreadResult
  already_bound : BindThreadResult
  session_not_found : BindThreadResult
  bind_failed : BindThreadResult

abbrev pub is_create_for : Ident → Envelope → Bool
is_create_for sid (Envelope.create_session p) = p.session_id == sid
is_create_for sid _ = false

-- the queued `runner.create_session.v1` row of the session
abbrev pub queued_create : Ident → RedisOutbox → Bool
queued_create sid r = is_create_for sid r.payload && not (is_set r.published_at)

abbrev pub set_thread : Ident → Envelope → Envelope
set_thread thread (Envelope.create_session p) =
    Envelope.create_session (record p { thread_id = thread })
set_thread thread e = e

abbrev pub patch_payload : Ident → RedisOutbox → RedisOutbox
patch_payload thread r = record r { payload = set_thread thread r.payload }

abbrev pub set_session_thread : Ident → Session → Session
set_session_thread thread s = record s { thread_id = some thread }

-- The column thread_id is unique, so the flush fails for the thread of another session;
-- `scalar_one_or_none` raises on a second match: the transaction is rolled back and reported.
unfoldable pub bind_session_thread : Ident → Ident → Database → Database × BindThreadResult
bind_session_thread sid thread db = elim (get_session sid db) [
  | none ↦ (db, BindThreadResult.session_not_found)
  | some s ↦
      let db' = update_sessions (has_id sid) (set_session_thread thread) db in
      let rows = rowcount (queued_create sid) db.redis_outbox in
      let patched = update_where (queued_create sid) (patch_payload thread) db.redis_outbox in
      if s.thread_id =? thread
      then (db, BindThreadResult.bound)
      else if is_set s.thread_id
      then (db, BindThreadResult.already_bound)
      else if any (λ x. x.thread_id =? thread) db.sessions
      then (db, BindThreadResult.bind_failed)
      else if rows == 0
      then (db', BindThreadResult.bound)
      else if rows == 1
      then (record db' { redis_outbox = patched }, BindThreadResult.bound)
      else (db, BindThreadResult.bind_failed)
]
