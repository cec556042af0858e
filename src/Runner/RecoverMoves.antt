-- ===== src/Runner/RecoverMoves.antt =====
-- A starting runner, and the dispatch of a job: sessions move only as `Moves` allows.
use mathlib.Core.Path.{subst}
use discode.Base.{
  All, Bool, Bool-cases, List, Option, [], arith, false, if◌then◌else◌, inl, inr, none, refl,
  select, some, suc, true, ℕ, ◌&&◌, ◌∷◌, ◌≡◌,
}
use discode.Data.{Database, Envelope, Ident, LifecycleJob, Reason, Session, Text}
use discode.Config.{Settings}
use discode.Paths.{Workspace}
use discode.Lifecycle.{Evolves, Evolves-refl, Evolves-same, Evolves-trans, Evolves-update}
use discode.Turn.Job.{Phase}
use discode.Runner.Create.{fail_session}
use discode.Runner.CreateMoves.{run_create_job-Evolves}
use discode.Runner.Resume.{orphan_session}
use discode.Runner.ResumeMoves.{run_resume_job-Evolves}
use discode.Runner.Recover.{
  check_session, is_attached_at, is_attached_to, is_recovered, recover_rows, recover_session,
  recover_sessions,
}
use discode.Turn.Whole.{Harmless, run_job-Evolves}
use discode.Runner.Dispatch.{
  Delivery, dispatch_runner_job, has_job_version, is_stopping_at, resume_job, set_stopped,
  stop_session,
}

pub recover_session-Evolves :
    (v : Option Workspace) (s : Session) (db : Database)
    → Evolves db.sessions (recover_session v s db).sessions
recover_session-Evolves (some (Workspace.allowed real)) s db = Evolves-refl db.sessions
recover_session-Evolves (some (Workspace.denied reason)) s db =
    Evolves-update (is_attached_at s.id s.lifecycle_version) (fail_session Reason.cwd_invalid)
      db.sessions _ true (λ x. refl) (λ i x h e d. ground arith) refl
recover_session-Evolves (some Workspace.no_root_match) s db =
    Evolves-update (is_attached_at s.id s.lifecycle_version) (fail_session Reason.cwd_invalid)
      db.sessions _ true (λ x. refl) (λ i x h e d. ground arith) refl
recover_session-Evolves none s db =
    Evolves-update (is_attached_at s.id s.lifecycle_version) (orphan_session Reason.runner_lost)
      db.sessions _ true (λ x. refl) (λ i x h e d. ground arith) refl

module _ (realpath : Text → Text) (raises : Ident → Bool) (between : Database → Database)
    (others : (d : Database) → Evolves d.sessions (between d).sessions) (host : Ident) where
  recover_rows-Evolves :
      (rows : List Session) (db : Database)
      → Evolves db.sessions (recover_rows realpath raises between host rows db).0.sessions
  unfolding recover_rows
  recover_rows-Evolves [] db = Evolves-refl db.sessions
  recover_rows-Evolves (s ∷ rows) db =
      let verdict = check_session realpath raises host s (between db) in
      let rest = recover_session verdict s (between db) in
      subst (Evolves db.sessions)
        (same (is_recovered verdict) (recover_rows realpath raises between host rows rest))
        (Evolves-trans db.sessions (between db).sessions _ (others db) (
          Evolves-trans (between db).sessions rest.sessions _
            (recover_session-Evolves verdict s (between db)) (recover_rows-Evolves rows rest)))
    where
      same :
          (b : Bool) (r : Database × (ℕ × ℕ))
          → r.0.sessions
            ≡ (if◌then◌else◌ {A = Database × (ℕ × ℕ)} b
                (r.0, (suc r.1.0, r.1.1))
                (r.0, (r.1.0, suc r.1.1))).0.sessions
      same true r = refl
      same false r = refl

  pub recover_sessions-Evolves :
      (db : Database)
      → Evolves db.sessions (recover_sessions realpath raises between host db).0.sessions
  unfolding recover_sessions
  recover_sessions-Evolves db = recover_rows-Evolves (select (is_attached_to host) db.sessions) db

pub stop_session-Evolves :
    (p : LifecycleJob) (db : Database) → Evolves db.sessions (stop_session p db).sessions
stop_session-Evolves p db =
    Evolves-update (is_stopping_at p.session_id p.lifecycle_version) set_stopped db.sessions _ true
      (λ x. refl) (λ i x h e d. ground arith) refl

module _ (cfg : Settings) (v : Delivery)
    (others : (n : ℕ) (d : Database) → Evolves d.sessions (v.world.between n d).sessions)
    (turns : All Harmless v.turn_answers) (host : Ident) (db : Database) where
  resume_job-Evolves : (p : LifecycleJob) → Evolves db.sessions (resume_job v host p db).0.sessions
  resume_job-Evolves p = run_resume_job-Evolves v.world others v.commits host p db

  -- Whatever the envelope and however it ends.
  pub dispatch_runner_job-Evolves :
      (e : Envelope) → Evolves db.sessions (dispatch_runner_job cfg v host e db).0.sessions
  unfolding dispatch_runner_job
  dispatch_runner_job-Evolves (Envelope.create_session p) =
      run_create_job-Evolves cfg v.world host p db others
  dispatch_runner_job-Evolves (Envelope.send_input p) = elim (Bool-cases v.locked) [
    | inl y ↦
        rw (dispatch_runner_job, y) (run_job-Evolves cfg p v.turn_answers Phase.checking db turns)
    | inr n ↦ Evolves-same db.sessions _ (rw (dispatch_runner_job, n))
  ]
  dispatch_runner_job-Evolves (Envelope.stop_session p) =
      elim (Bool-cases (has_job_version host p db)) [
        | inl y ↦ rw (dispatch_runner_job, y) (stop_session-Evolves p db)
        | inr n ↦ Evolves-same db.sessions _ (rw (dispatch_runner_job, n))
      ]
  dispatch_runner_job-Evolves (Envelope.restart_session p) =
      elim (Bool-cases (has_job_version host p db && v.locked)) [
        | inl y ↦ subst (Evolves db.sessions) (ground arith) (resume_job-Evolves p)
        | inr n ↦ Evolves-same db.sessions _ (ground arith)
      ]
  dispatch_runner_job-Evolves (Envelope.resume_session p) = resume_job-Evolves p
  dispatch_runner_job-Evolves (Envelope.system_notice p) = Evolves-refl db.sessions
  dispatch_runner_job-Evolves (Envelope.terminal_notice p) = Evolves-refl db.sessions
  dispatch_runner_job-Evolves (Envelope.archive_thread p) = Evolves-refl db.sessions
