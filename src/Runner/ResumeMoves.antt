-- ===== src/Runner/ResumeMoves.antt =====
-- The runner's resume, recovery and lifecycle jobs move every session only as `Moves` allows.
use discode.Base.{
  Bool, Bool-cases, Option, Option-cases, arith, false, inl, inr, not, or_text, refl, rowcount,
  true, ℕ, ◌==◌, ◌≡◌,
}
use discode.Data.{Call, Database, Ident, LifecycleJob, Reason, Session, get_session}
use discode.Paths.{Workspace, revalidate_cwd}
use discode.Lifecycle.{Evolves, Evolves-same, Evolves-trans, Evolves-update}
use discode.Runner.Create.{World, fail_session}
use discode.Runner.Resume.{
  Token, abandon_resume, complete_resume, finish_resume, is_resuming_at, orphan_session,
  refuse_resume, resume_checked, resume_session, resume_token, run_resume_job, takes_resume,
}

pub refuse_resume-Evolves :
    (c : Call) (p : LifecycleJob) (s : Session) (db : Database)
    → Evolves db.sessions (refuse_resume c p s db).sessions
refuse_resume-Evolves c p s db =
    Evolves-update (is_resuming_at p.session_id s.lifecycle_version)
      (fail_session Reason.cwd_invalid) db.sessions _ true (λ x. refl) (λ i x h e d. ground arith)
      (ground arith)

pub abandon_resume-Evolves :
    (c : Call) (p : LifecycleJob) (s : Session) (db : Database)
    → Evolves db.sessions (abandon_resume c p s db).sessions
abandon_resume-Evolves c p s db =
    Evolves-update (is_resuming_at p.session_id s.lifecycle_version)
      (orphan_session Reason.runner_lost) db.sessions _ true (λ x. refl) (λ i x h e d. ground arith)
      refl

pub complete_resume-Evolves :
    (c : Call) (p : LifecycleJob) (s : Session) (token : Option Ident) (db : Database)
    → Evolves db.sessions (complete_resume c p s token db).0.sessions
complete_resume-Evolves c p s token db =
    Evolves-update (is_resuming_at p.session_id s.lifecycle_version) (finish_resume c token)
      db.sessions _
      (not (rowcount (is_resuming_at p.session_id s.lifecycle_version) db.sessions == 0))
      (λ x. refl) (λ i x h e d. ground arith) (ground arith)

module _ (w : World)
    (others : (n : ℕ) (d : Database) → Evolves d.sessions (w.between n d).sessions) where
  resume_session-Evolves :
      (commits : Bool) (p : LifecycleJob) (s : Session) (db : Database)
      → Evolves db.sessions (resume_session w commits p s db).0.sessions
  resume_session-Evolves commits p s db = go commits (resume_token w.call s (w.between 1 db)) refl
    where
      last : Database
      last = w.between 2 (w.between 1 db)

      before : Evolves db.sessions last.sessions
      before =
          Evolves-trans db.sessions (w.between 1 db).sessions _ (others 1 db)
            (others 2 (w.between 1 db))

      go :
          (ok : Bool) (t : Token)
          → resume_token w.call s (w.between 1 db) ≡ t
          → Evolves db.sessions (resume_session w ok p s db).0.sessions
      go ok Token.unknown_tool e = rw (resume_session, e) (others 1 db)
      go true (Token.known token) e =
          rw (resume_session, e)
            (Evolves-trans db.sessions last.sessions _ before
              (complete_resume-Evolves w.call p s token last))
      go false (Token.known token) e =
          rw (resume_session, e)
            (Evolves-trans db.sessions last.sessions _ before
              (abandon_resume-Evolves w.call p s last))

  pub run_resume_job-Evolves :
      (commits : Bool) (host : Ident) (p : LifecycleJob) (db : Database)
      → Evolves db.sessions (run_resume_job w commits host p db).0.sessions
  unfolding run_resume_job
  run_resume_job-Evolves commits host p db = elim (Option-cases (get_session p.session_id db)) [
    | inl e ↦ Evolves-same db.sessions _ (rw (run_resume_job, e))
    | inr (s, e) ↦ elim (Bool-cases (takes_resume host p s)) [
      | inr n ↦ Evolves-same db.sessions _ (rw (run_resume_job, e, n))
      | inl y ↦
          rw (run_resume_job, e, y)
            (go s (
              revalidate_cwd w.realpath s.cwd_realpath (or_text s.guild_id (or_text p.guild_id 0))
                (or_text s.owner_id 0) host (w.between 0 db)))
    ]
  ]
    where
      first : Database
      first = w.between 0 db

      refused :
          (s : Session)
          → Evolves db.sessions (refuse_resume w.call p s (w.between 1 first)).sessions
      refused s = Evolves-trans db.sessions first.sessions _ (others 0 db) (
          Evolves-trans first.sessions (w.between 1 first).sessions _ (others 1 first)
            (refuse_resume-Evolves w.call p s (w.between 1 first)))

      go :
          (s : Session) (v : Workspace)
          → Evolves db.sessions (resume_checked w commits p s v first).0.sessions
      go s (Workspace.allowed real) =
          Evolves-trans db.sessions first.sessions _ (others 0 db)
            (resume_session-Evolves commits p s first)
      go s (Workspace.denied reason) = refused s
      go s Workspace.no_root_match = refused s
