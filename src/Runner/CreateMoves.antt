-- ===== src/Runner/CreateMoves.antt =====
-- The runner's create job moves every session only as `Moves` allows.
use mathlib.Core.Path.{subst}
use discode.Base.{
  Bool-cases, List, Option, Option-cases, arith, coalesce, inl, inr, refl, rowcount, some, true, ℕ,
  ◌==◌, ◌≡◌,
}
use discode.Data.{Call, CreateSession, Database, Ident, Reason, Session, get_session, is_creating}
use discode.Config.{Settings, execution_allowed}
use discode.Paths.{Workspace, revalidate_cwd}
use discode.Lifecycle.{Evolves, Evolves-same, Evolves-trans, Evolves-update}
use discode.Create.Supersede.{awaits, clear_reason, release_superseded}
use discode.Runner.Create.{
  World, fail_and_notify, fail_session, get_adapter, is_creating_id, mint_initial_token, prepare,
  run_create_job, set_running, start_running,
}
use discode.Runner.Created.{failed_rows, failed_sessions}

pub release_superseded-Evolves :
    (sid : Ident) (l : List Session) → Evolves l (release_superseded sid l)
unfolding release_superseded
release_superseded-Evolves sid l =
    Evolves-update (awaits sid) clear_reason l _ true (λ s. refl) (λ i s h e d. ground arith) refl

failed_rows-Evolves :
    (sid : Ident) (reason : Reason) (l : List Session) → Evolves l (failed_rows sid reason l)
failed_rows-Evolves sid reason l =
    Evolves-update (is_creating_id sid) (fail_session reason) l _ true (λ s. refl)
      (λ i s h e d. ground arith) refl

pub fail_and_notify-Evolves :
    (c : Call) (p : CreateSession) (reason : Reason) (db : Database)
    → Evolves db.sessions (fail_and_notify c p reason db).sessions
fail_and_notify-Evolves c p reason db =
    elim (Bool-cases (rowcount (is_creating_id p.session_id) db.sessions == 0)) [
      | inl y ↦ Evolves-same db.sessions _ (rw (failed_sessions c p reason db, y))
      | inr n ↦ subst (Evolves db.sessions) (rw (failed_sessions c p reason db, n)) (
          Evolves-trans db.sessions (failed_rows p.session_id reason db.sessions)
            (release_superseded p.session_id (failed_rows p.session_id reason db.sessions))
            (failed_rows-Evolves p.session_id reason db.sessions)
            (release_superseded-Evolves p.session_id _))
    ]

pub start_running-Evolves :
    (c : Call) (host : Ident) (p : CreateSession) (token : Option Ident) (db : Database)
    → Evolves db.sessions (start_running c host p token db).0.sessions
start_running-Evolves c host p token db =
    Evolves-update (is_creating_id p.session_id) (set_running c host p token) db.sessions _ true
      (λ s. refl) (λ i s h e d. ground arith) (unfold start_running in ground arith)

module _ (cfg : Settings) (w : World) (host : Ident) (p : CreateSession) (db : Database)
    (others : (n : ℕ) (d : Database) → Evolves d.sessions (w.between n d).sessions) where
  prepare-Evolves : (d : Database) → Evolves d.sessions (prepare w host p d).0.sessions
  prepare-Evolves d = elim (Option-cases (get_adapter p.tool d)) [
    | inl n ↦
        rw (prepare, n)
          (Evolves-trans d.sessions (w.between 1 d).sessions _ (others 1 d)
            (fail_and_notify-Evolves w.call p Reason.tool_unavailable (w.between 1 d)))
    | inr (x, f) ↦
        rw (prepare, f)
          (Evolves-trans d.sessions (w.between 1 d).sessions _ (others 1 d) (
            start_running-Evolves w.call host p
              (coalesce p.resume_token (mint_initial_token w.call x)) (w.between 1 d)))
  ]

  rejected-Evolves :
      Evolves db.sessions (fail_and_notify w.call p Reason.cwd_invalid (w.between 0 db)).sessions
  rejected-Evolves =
      Evolves-trans db.sessions (w.between 0 db).sessions _ (others 0 db)
        (fail_and_notify-Evolves w.call p Reason.cwd_invalid (w.between 0 db))

  by_workspace :
      (v : Workspace)
      → revalidate_cwd w.realpath p.cwd_realpath p.guild_id p.owner_id host db ≡ v
      → execution_allowed cfg ≡ true
      → (s : Session) → get_session p.session_id db ≡ some s
      → is_creating s.status ≡ true
      → Evolves db.sessions (run_create_job cfg w host p db).0.sessions
  unfolding run_create_job
  by_workspace (Workspace.allowed real) f y s e m =
      rw (y, e, m, f)
        (Evolves-trans db.sessions (w.between 0 db).sessions _ (others 0 db)
          (prepare-Evolves (w.between 0 db)))
  by_workspace (Workspace.denied reason) f y s e m = rw (y, e, m, f) rejected-Evolves
  by_workspace Workspace.no_root_match f y s e m = rw (y, e, m, f) rejected-Evolves

  pub run_create_job-Evolves : Evolves db.sessions (run_create_job cfg w host p db).0.sessions
  run_create_job-Evolves = elim (Bool-cases (execution_allowed cfg)) [
    | inr n ↦ Evolves-same db.sessions _ (unfold run_create_job in rw n)
    | inl y ↦ elim (Option-cases (get_session p.session_id db)) [
      | inl e ↦ Evolves-same db.sessions _ (unfold run_create_job in rw (y, e))
      | inr (s, e) ↦ elim (Bool-cases (is_creating s.status)) [
        | inr n ↦ Evolves-same db.sessions _ (unfold run_create_job in rw (y, e, n))
        | inl m ↦ by_workspace _ refl y s e m
      ]
    ]
  ]
