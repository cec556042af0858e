-- ===== src/Session/Moves.antt =====
-- The bot's transactions move every session only as `Moves` allows.
use discode.Session.Members.{invite_user_to_session}
use discode.Base.{
  Bool, Option, any, arith, false, find_sound, is_set, leb, none, not, refl, rowcount, some, true,
  ◌&&◌, ◌=?◌, ◌≡◌,
}
use discode.Data.{
  Call, Database, Ident, Session, get_session, has_id, is_archived, is_live, is_settled,
}
use discode.Lifecycle.{Evolves, Evolves-same, Evolves-update, Moves}
use discode.Session.Scope.{scoped}
use discode.Session.Sagas.{
  Restarted, begin_archive, begin_restart, begin_resume, begin_stop, run_archive_saga,
  run_restart_saga, run_resume_saga, run_stop_saga,
}
use discode.Session.Binding.{bind_session_thread, queued_create, set_session_thread}

-- A row in one of the statuses that a saga admits moves as allowed.
begin_stop-Moves :
    (c : Call) (sid guild : Ident) (s : Session)
    → scoped sid guild is_live s ≡ true
    → Moves s (begin_stop c s)
begin_stop-Moves c sid guild s h = ground arith

begin_archive-Moves :
    (c : Call) (sid guild : Ident) (s : Session)
    → scoped sid guild is_settled s ≡ true
    → Moves s (begin_archive c s)
begin_archive-Moves c sid guild s h = ground arith

begin_resume-Moves :
    (c : Call) (sid guild : Ident) (s : Session)
    → scoped sid guild is_archived s ≡ true
    → Moves s (begin_resume c s)
begin_resume-Moves c sid guild s h = ground arith

begin_restart-Moves :
    (c : Call) (sid guild : Ident) (s : Session)
    → scoped sid guild is_settled s ≡ true
    → Moves s (begin_restart c s)
begin_restart-Moves c sid guild s h = ground arith

pub run_stop_saga-Evolves :
    (c : Call) (sid guild by : Ident) (host : Option Ident) (db : Database)
    → Evolves db.sessions (run_stop_saga c sid guild by host db).0.sessions
run_stop_saga-Evolves c sid guild by host db =
    Evolves-update (scoped sid guild is_live) (begin_stop c) db.sessions _
      (run_stop_saga c sid guild by host db).1 (λ s. refl)
      (λ i s h e d. begin_stop-Moves c sid guild s e) (unfold run_stop_saga in ground arith)

pub run_archive_saga-Evolves :
    (c : Call) (sid guild : Ident) (db : Database)
    → Evolves db.sessions (run_archive_saga c sid guild db).0.sessions
run_archive_saga-Evolves c sid guild db =
    Evolves-update (scoped sid guild is_settled) (begin_archive c) db.sessions _
      (run_archive_saga c sid guild db).1 (λ s. refl)
      (λ i s h e d. begin_archive-Moves c sid guild s e) (unfold run_archive_saga in ground arith)

pub run_resume_saga-Evolves :
    (c : Call) (sid guild host : Ident) (db : Database)
    → Evolves db.sessions (run_resume_saga c sid guild host db).0.sessions
run_resume_saga-Evolves c sid guild host db =
    Evolves-update (scoped sid guild is_archived) (begin_resume c) db.sessions _
      (run_resume_saga c sid guild host db).1 (λ s. refl)
      (λ i s h e d. begin_resume-Moves c sid guild s e) (unfold run_resume_saga in ground arith)

abbrev is_restarted : Restarted → Bool
is_restarted (Restarted.restarted sid) = true
is_restarted _ = false

pub run_restart_saga-Evolves :
    (c : Call) (sid guild by : Ident) (db : Database)
    → Evolves db.sessions (run_restart_saga c sid guild by db).0.sessions
run_restart_saga-Evolves c sid guild by db =
    Evolves-update (scoped sid guild is_settled) (begin_restart c) db.sessions _
      (is_restarted (run_restart_saga c sid guild by db).1) (λ s. refl)
      (λ i s h e d. begin_restart-Moves c sid guild s e) (unfold run_restart_saga in ground arith)

-- the session has no thread yet
abbrev is_unbound : Ident → Database → Bool
is_unbound sid db = elim (get_session sid db) [ none ↦ false | some s ↦ not (is_set s.thread_id) ]

pub bind_session_thread-Evolves :
    (sid thread : Ident) (db : Database)
    → Evolves db.sessions (bind_session_thread sid thread db).0.sessions
bind_session_thread-Evolves sid thread db =
    Evolves-update (has_id sid) (set_session_thread thread) db.sessions _
      (is_unbound sid db
        && not (any (λ x. x.thread_id =? thread) db.sessions)
        && leb (rowcount (queued_create sid) db.redis_outbox) 1)
      (λ s. refl) (λ i s h e d. ground (arith, find_sound (has_id i) db.sessions s h))
      (unfold bind_session_thread in ground arith)

pub invite_user_to_session-Evolves :
    (c : Call) (sid guild invitee : Ident) (db : Database)
    → Evolves db.sessions (invite_user_to_session c sid guild invitee db).0.sessions
invite_user_to_session-Evolves c sid guild invitee db =
    Evolves-same db.sessions _ (unfold invite_user_to_session in ground arith)
