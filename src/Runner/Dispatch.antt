-- ===== src/Runner/Dispatch.antt =====
-- src/discode/runner/main.py: `dispatch_runner_job`, on an envelope that parses. The cached session
-- context it drops is not modelled: turns read the database.
use discode.Base.{Bool, List, Option, false, if◌then◌else◌, none, some, ℕ, ◌&&◌, ◌==◌, ◌=?◌}
use discode.Data.{
  Database, Envelope, Ident, LifecycleJob, Session, Status, get_session, is_stopping,
  update_sessions,
}
use discode.Config.{Settings}
use discode.Turn.Job.{Outcome, Outside, Phase}
use discode.Turn.Progress.{run_job}
use discode.Runner.Create.{CreateJobResult, World, run_create_job}
use discode.Runner.Resume.{Resumed, is_job_version, run_resume_job}

-- True (acknowledge), False (leave pending), an exception
pub data Handled : Type 0 where
  handled pending raised : Handled

-- `locked` says whether the session's advisory lock was free, `commits` whether the last transaction
-- of a resume goes through, and `turn_answers` what a turn meets outside
pub record Delivery : Type 0 where
  pub world : World
  pub locked : Bool
  pub commits : Bool
  pub turn_answers : List (Outside × (Database → Database))

abbrev pub after_create : CreateJobResult → Handled
after_create CreateJobResult.rejected = Handled.raised
after_create CreateJobResult.not_found = Handled.raised
after_create CreateJobResult.policy_denied = Handled.raised
after_create _ = Handled.handled

abbrev pub after_resume : Resumed → Handled
after_resume Resumed.raised = Handled.raised
after_resume _ = Handled.handled

-- an unfinished job is one that its process left
abbrev pub after_input : Phase → Handled
after_input (Phase.finished Outcome.deferred) = Handled.pending
after_input (Phase.finished Outcome.raised) = Handled.raised
after_input (Phase.finished _) = Handled.handled
after_input _ = Handled.pending

-- the session is on this host, in the version of the job
abbrev pub has_job_version : Ident → LifecycleJob → Database → Bool
has_job_version host p db = elim (get_session p.session_id db) [
  | none ↦ false
  | some s ↦ s.host_id =? host && is_job_version p.lifecycle_version s
]

abbrev pub is_stopping_at : Ident → Option ℕ → Session → Bool
is_stopping_at sid version s = s.id == sid && is_stopping s.status && is_job_version version s

abbrev pub set_stopped : Session → Session
set_stopped s = record s { status = Status.stopped }

abbrev pub stop_session : LifecycleJob → Database → Database
stop_session p db = update_sessions (is_stopping_at p.session_id p.lifecycle_version) set_stopped db

abbrev pub resume_job : Delivery → Ident → LifecycleJob → Database → Database × Handled
resume_job v host p db =
    let (db', result) = run_resume_job v.world v.commits host p db in (db', after_resume result)

unfoldable pub dispatch_runner_job :
    Settings → Delivery → Ident → Envelope → Database → Database × Handled
dispatch_runner_job cfg v host (Envelope.create_session p) db =
    let (db', result) = run_create_job cfg v.world host p db in (db', after_create result)
dispatch_runner_job cfg v host (Envelope.send_input p) db =
    let (db', ph) = run_job cfg p v.turn_answers Phase.checking db in
    if v.locked then (db', after_input ph) else (db, Handled.pending)
dispatch_runner_job cfg v host (Envelope.stop_session p) db =
    if has_job_version host p db
    then (stop_session p db, Handled.handled)
    else (db, Handled.handled)
dispatch_runner_job cfg v host (Envelope.restart_session p) db =
    if has_job_version host p db
    then if v.locked then resume_job v host p db else (db, Handled.pending)
    else (db, Handled.handled)
dispatch_runner_job cfg v host (Envelope.resume_session p) db = resume_job v host p db
dispatch_runner_job cfg v host _ db = (db, Handled.handled)
